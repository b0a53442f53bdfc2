-- ===== src/Gateway/Invariant.antt =====
-- internal/gateway/gateway.go: what holds of the sessions, the connector and the target.
use masseuse_camlink.Prelude.{
  ℕ, ◌≡◌, ◌⊎◌, inl, inr, refl, ◌∙◌, true, Option, none, some, List, [], ◌∷◌, ◌==◌, if_keeps,
  same_text_iff, arith, All,
}
use masseuse_camlink.Gateway.Server.{
  Expectation, Attached, Server, close_session, close_old, is_session, keyed,
}

abbrev pub IsKeyOf : List ℕ → Option Attached → Type 0
IsKeyOf key none = Unit
IsKeyOf key (some a) = key ≡ a.key_str

abbrev pub IsKeyExpected : List ℕ → Option Expectation → Type 0
IsKeyExpected key none = Unit
IsKeyExpected key (some e) = key ≡ e.key_str

-- The connector that is attached is the one that is expected, if one is.
abbrev pub IsExpected : Option Attached → Option Expectation → Type 0
IsExpected none e = Unit
IsExpected (some a) e = IsKeyExpected a.key_str e

-- Every session that runs is the one attached; the connector attached is the one expected; and a target
-- was set for the connector that is attached, and for the one that is expected.
abbrev pub IsOwned : Server → Type 0
IsOwned s =
    All (λ i. is_session i s.attached ≡ true) s.live
    × IsExpected s.attached s.expect
    × ((s.target ≡ []) ⊎ IsKeyOf s.owner s.attached × IsKeyExpected s.owner s.expect)

pub close_session-All :
    (P : ℕ → Type 0) (n : ℕ) (is : List ℕ) → All P is → All P (close_session n is)
unfolding close_session
close_session-All P n [] h = tt
close_session-All P n (i ∷ is) (h, hs) =
    if_keeps (All P) (i == n) (λ _. close_session-All P n is hs)
      (λ _. (h, close_session-All P n is hs))

-- Once the session attached is closed, none runs.
pub close_old_nil :
    (a : Option Attached) (is : List ℕ) → All (λ i. is_session i a ≡ true) is → close_old a is ≡ []
unfolding close_session
close_old_nil none [] h = refl
close_old_nil none (i ∷ is) h = absurd (ground (arith, h.0))
close_old_nil (some a) [] h = refl
close_old_nil (some a) (i ∷ is) h =
    if_keeps (λ rest. rest ≡ []) (i == a.session) (λ _. close_old_nil (some a) is h.1)
      (λ e. absurd (ground (arith, h.0, e)))

pub close_old-All :
    (a : Option Attached) (is : List ℕ) (b : Option Attached)
    → All (λ i. is_session i a ≡ true) is
    → All (λ i. is_session i b ≡ true) (close_old a is)
close_old-All a is b h = rw (close_old_nil a is h) tt

-- The last part of the invariant.
abbrev pub IsOwner : List ℕ → List ℕ → Option Attached → Option Expectation → Type 0
IsOwner target owner a e = (target ≡ []) ⊎ IsKeyOf owner a × IsKeyExpected owner e

pub own_attached :
    (target owner : List ℕ) (e : Expectation) (a : Option Attached)
    → IsOwner target owner a (some e)
    → (target ≡ []) ⊎ (owner ≡ e.key_str) × (owner ≡ e.key_str)
own_attached target owner e a (inl h) = inl h
own_attached target owner e a (inr p) = inr (p.1, p.1)

pub own_alone :
    (target owner : List ℕ) (a : Option Attached) (e : Option Expectation)
    → IsOwner target owner a e
    → IsOwner target owner none e
own_alone target owner a e (inl h) = inl h
own_alone target owner a e (inr p) = inr (tt, p.1)

pub unexpected : (a : Option Attached) → IsExpected a none
unexpected none = tt
unexpected (some a) = tt

pub keyed-IsExpected :
    (e : Expectation) (a : Option Attached) (prev : Option Expectation)
    → keyed e.key_str a prev ≡ true
    → IsExpected a (some e)
keyed-IsExpected e none prev k = tt
keyed-IsExpected e (some a) prev k = (same_text_iff a.key_str e.key_str).0 k

pub keyed-IsOwner :
    (target owner : List ℕ) (e : Expectation) (a : Option Attached) (prev : Option Expectation)
    → keyed e.key_str a prev ≡ true
    → IsOwner target owner a prev
    → IsOwner target owner a (some e)
keyed-IsOwner target owner e a prev k (inl h) = inl h
keyed-IsOwner target owner e none none k (inr p) = cc
keyed-IsOwner target owner e none (some x) k (inr p) =
    inr (tt, p.1 ∙ (same_text_iff x.key_str e.key_str).0 k)
keyed-IsOwner target owner e (some a) prev k (inr p) =
    inr (p.0, p.0 ∙ (same_text_iff a.key_str e.key_str).0 k)

pub close_session_nil :
    (a : Option Attached) (n : ℕ) (is : List ℕ)
    → is_session n a ≡ true
    → All (λ i. is_session i a ≡ true) is
    → close_session n is ≡ []
unfolding close_session
close_session_nil none n is k h = cc
close_session_nil (some a) n [] k h = refl
close_session_nil (some a) n (i ∷ is) k h =
    if_keeps (λ rest. rest ≡ []) (i == n) (λ _. close_session_nil (some a) n is k h.1)
      (λ e. absurd (ground (arith, h.0, k, e)))
