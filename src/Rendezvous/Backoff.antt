-- ===== src/Rendezvous/Backoff.antt =====
-- internal/rendezvous/rendezvous.go, `Run`: how long the client waits before it tries again. Durations
-- are nanoseconds; a bound below 2^62 doubles within an int64.
use masseuse_camlink.Prelude.{
  ℕ, ◌+◌, ◌*◌, ◌/◌, ◌^◌, ◌≤◌, min, max, Bool, true, false, Option, none, some, List, [], ◌∷◌, ◌≡◌,
  ◌≢◌, ◌⊎◌, inl, inr, refl, Bool-cases, arith, ltb, ◌==◌, if◌then◌else◌, All,
}

abbrev pub second : ℕ
second = 10 ^ 9

-- The client's bounds: zero stands for one second and for sixty.
pub record Bounds : Type 0 where
  pub min_backoff : ℕ
  pub max_backoff : ℕ

abbrev pub or_default : ℕ → ℕ → ℕ
or_default n d = if n == 0 then d else n

abbrev pub min_of : Bounds → ℕ
min_of b = or_default b.min_backoff second

abbrev pub max_of : Bounds → ℕ
max_of b = or_default b.max_backoff (60 * second)

-- A round of the loop: how long the stream held, the status of a StatusError, and the random number.
pub record Round : Type 0 where
  pub lasted : ℕ
  pub status : Option ℕ
  pub random : ℕ

abbrev pub too_many : Option ℕ → Bool
too_many none = false
too_many (some status) = status == 429

-- The backoff of a round, its delay, and the backoff that the next one starts from.
unfoldable pub current : Bounds → ℕ → Round → ℕ
current b backoff r = if ltb (60 * second) r.lasted then min_of b else backoff

unfoldable pub delay : ℕ → Round → ℕ
delay backoff r =
    let d = backoff / 2 + r.random in if too_many r.status then max d (30 * second) else d

unfoldable pub next : Bounds → ℕ → ℕ
next b backoff = min (backoff * 2) (max_of b)

-- The delays of a run.
unfoldable pub delays : Bounds → ℕ → List Round → List ℕ
unfolding current delay next
delays b backoff [] = []
delays b backoff (r ∷ rs) = let now = current b backoff r in delay now r ∷ delays b (next b now) rs

-- `rand.Int64N`: the number is drawn from 0 to half of the round's backoff.
unfoldable pub IsDrawn : Bounds → ℕ → List Round → Type 0
unfolding current next
IsDrawn b backoff [] = Unit
IsDrawn b backoff (r ∷ rs) =
    let now = current b backoff r in (r.random ≤ now / 2) × IsDrawn b (next b now) rs

-- What a round may wait, given the bounds: half the least backoff at least, thirty seconds after a
-- refusal for too many requests, and otherwise not more than the greatest backoff.
abbrev pub IsFair : Bounds → Round → ℕ → Type 0
IsFair b r d =
    (min_of b / 2 ≤ d)
    × ((r.status ≡ some 429) × (30 * second ≤ d) × (d ≤ max (max_of b) (30 * second))
        ⊎ (r.status ≢ some 429) × (d ≤ max_of b))

unfoldable pub AreFair : Bounds → List Round → List ℕ → Type 0
AreFair b [] [] = Unit
AreFair b (r ∷ rs) (d ∷ ds) = IsFair b r d × AreFair b rs ds
AreFair b _ _ = (true ≡ false)

too_many_iff :
    (o : Option ℕ) → (too_many o ≡ true) × (o ≡ some 429) ⊎ (too_many o ≡ false) × (o ≢ some 429)
too_many_iff none = inr (refl, λ e. cc)
too_many_iff (some n) = elim (Bool-cases (n == 429)) [
  | inl e ↦ inl (e, ground arith)
  | inr e ↦ inr (e, ground arith)
]

delay-IsFair :
    (b : Bounds) (now : ℕ) (r : Round)
    → min_of b ≤ now
    → now ≤ max_of b
    → r.random ≤ now / 2
    → IsFair b r (delay now r)
unfolding delay
delay-IsFair b now r l u h = elim (too_many_iff r.status) [
  | inl (t, e) ↦ (ground (arith, t), inl (e, ground (arith, t), ground (arith, t)))
  | inr (t, n) ↦ (ground (arith, t), inr (n, ground (arith, t)))
]

delays-AreFair_from :
    (b : Bounds) (backoff : ℕ) (rs : List Round)
    → min_of b ≤ max_of b
    → min_of b ≤ backoff
    → backoff ≤ max_of b
    → IsDrawn b backoff rs
    → AreFair b rs (delays b backoff rs)
unfolding delays IsDrawn AreFair
delays-AreFair_from b backoff [] o l u h = tt
delays-AreFair_from b backoff (r ∷ rs) o l u h =
    let now : ℕ = current b backoff r in
    let lo : min_of b ≤ now = unfold current in ground arith in
    let hi : now ≤ max_of b = unfold current in ground arith in
    (
      delay-IsFair b now r lo hi h.0,
      delays-AreFair_from b (next b now) rs o (unfold next in omega (arith, o, lo))
          (unfold next in omega arith) h.1,
    )

-- With a least backoff that is not above the greatest one, and random numbers that are drawn as the
-- code asks for them: before each reconnection the client waits for at least half of the least
-- backoff; after a 429 for at least 30 seconds, even if the greatest backoff is less, and for at
-- most the greater of the two; otherwise for at most the greatest backoff.
pub delays-AreFair :
    (b : Bounds) (rs : List Round)
    → min_of b ≤ max_of b
    → IsDrawn b (min_of b) rs
    → AreFair b rs (delays b (min_of b) rs)
delays-AreFair b rs o h = delays-AreFair_from b (min_of b) rs o (omega arith) o h

-- Rounds that each held for a minute at most.
abbrev pub AreShort : List Round → Type 0
AreShort rs = All (λ r. r.lasted ≤ 60 * second) rs

-- Each delay is at least half of a backoff that doubles from `low` up to the greatest one.
unfoldable pub IsGrowing : Bounds → ℕ → List ℕ → Type 0
IsGrowing b low [] = Unit
IsGrowing b low (d ∷ ds) = (min low (max_of b) / 2 ≤ d) × IsGrowing b (low * 2) ds

IsGrowing-from :
    (b : Bounds) (low backoff : ℕ) (rs : List Round)
    → min low (max_of b) ≤ backoff
    → AreShort rs
    → IsGrowing b low (delays b backoff rs)
unfolding delays IsGrowing
IsGrowing-from b low backoff [] h k = tt
IsGrowing-from b low backoff (r ∷ rs) h k =
    let now : ℕ = current b backoff r in
    let same : now ≡ backoff = unfold current in ground (arith, k.0) in
    (
      unfold delay in ground (arith, h, same),
      IsGrowing-from b (low * 2) (next b now) rs (unfold next in omega (arith, h, same)) k.1,
    )

-- After short rounds the backoff doubles up to its bound.
pub delays-IsGrowing :
    (b : Bounds) (rs : List Round) → AreShort rs → IsGrowing b (min_of b) (delays b (min_of b) rs)
delays-IsGrowing b rs k = IsGrowing-from b (min_of b) (min_of b) rs (omega arith) k
