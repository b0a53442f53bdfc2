-- ===== src/Prelude/Text.antt =====
-- Strings as bytes: what the program uses of Go's `strings` package, byte by byte.
use Prim.Native.Nat.{ℕ, ◌+◌, ◌-◌}
use mathlib.Core.Path.{◌≡◌, refl, sym, ap, ◌∙◌}
use mathlib.Core.Logic.{◌↔◌}
use mathlib.Core.Bool.{Bool, true, false, ◌&&◌, ◌||◌}
use mathlib.Core.Option.{Option, none, some}
use mathlib.Core.List.{List, [], ◌∷◌, ◌++◌, append_assoc}
use native.Mathlib.Omega.{arith}
use masseuse_camlink.Prelude.Tests.{ltb, leb, ◌==◌, ==_iff, if◌then◌else◌}
use masseuse_camlink.Prelude.Lists.{length, length-append, drop, take, take-append-drop}

-- Equal strings.
unfoldable pub same_text : List ℕ → List ℕ → Bool
same_text [] [] = true
same_text (a ∷ as') (b ∷ bs) = a == b && same_text as' bs
same_text _ _ = false

pub same_text_iff : (s t : List ℕ) → (same_text s t ≡ true) ↔ (s ≡ t)
unfolding same_text
same_text_iff [] [] = (λ h. refl, λ h. refl)
same_text_iff [] (b ∷ t) = (λ h. cc, λ h. cc)
same_text_iff (a ∷ s) [] = (λ h. cc, λ h. cc)
same_text_iff (a ∷ s) (b ∷ t) = (
  λ h. ground (arith, same_text_iff s t, ==_iff a b),
  λ h. ground (arith, same_text_iff s t, ==_iff a b),
)

abbrev pub is_empty {ℓ} : {A : Type ℓ} → List A → Bool
is_empty [] = true
is_empty (a ∷ s) = false

unfoldable pub has_prefix : List ℕ → List ℕ → Bool
has_prefix s [] = true
has_prefix [] (b ∷ t) = false
has_prefix (a ∷ s) (b ∷ t) = a == b && has_prefix s t

pub has_prefix_iff : (s t : List ℕ) → (has_prefix s t ≡ true) ↔ ((r : List ℕ) × (s ≡ t ++ r))
unfolding has_prefix
has_prefix_iff s [] = (λ h. (s, refl), λ h. refl)
has_prefix_iff [] (b ∷ t) = (λ h. cc, λ h. cc h.1)
has_prefix_iff (a ∷ s) (b ∷ t) =
    let ih = has_prefix_iff s t in
    (
      λ h. let (r, e) = ih.0 (ground arith) in (r, ground (arith, e)),
      λ (r, e). ground (arith, ih.1 (r, ground (arith, e))),
    )

pub has_prefix_trans :
    (s t u : List ℕ) → has_prefix s t ≡ true → has_prefix t u ≡ true → has_prefix s u ≡ true
has_prefix_trans s t u h k =
    let (r, e) = (has_prefix_iff s t).0 h in
    let (q, f) = (has_prefix_iff t u).0 k in
    (has_prefix_iff s u).1 (q ++ r, e ∙ ap (λ (x : List ℕ). x ++ r) f ∙ append_assoc u q r)

unfoldable pub has_suffix : List ℕ → List ℕ → Bool
has_suffix s t = leb (length t) (length s) && same_text (drop (length s - length t) s) t

drop-append_self {ℓ} : {A : Type ℓ} (p t : List A) → drop (length p) (p ++ t) ≡ t
drop-append_self [] t = refl
drop-append_self (x ∷ p) t = drop-append_self p t

pub has_suffix_iff : (s t : List ℕ) → (has_suffix s t ≡ true) ↔ ((p : List ℕ) × (s ≡ p ++ t))
unfolding has_suffix
has_suffix_iff s t = (forth, back)
  where
    forth :
        leb (length t) (length s) && same_text (drop (length s - length t) s) t ≡ true
        → (p : List ℕ) × (s ≡ p ++ t)
    forth h =
        let k = length s - length t in
        (
          take k s,
          sym (take-append-drop k s) ∙ ap (◌++◌ (take k s)) ((same_text_iff _ _).0 (ground arith)),
        )

    back :
        ((p : List ℕ) × (s ≡ p ++ t))
        → leb (length t) (length s) && same_text (drop (length s - length t) s) t ≡ true
    back (p, e) =
        let n : length s ≡ length p + length t = ap length e ∙ length-append p t in
        let k : length s - length t ≡ length p = omega (arith, n) in
        let same : drop (length s - length t) s ≡ t = rw (k, e) (drop-append_self p t) in
        ground (arith, n, (same_text_iff _ _).1 same)

pub has_suffix_trans :
    (s t u : List ℕ) → has_suffix s t ≡ true → has_suffix t u ≡ true → has_suffix s u ≡ true
has_suffix_trans s t u h k =
    let (r, e) = (has_suffix_iff s t).0 h in
    let (q, f) = (has_suffix_iff t u).0 k in
    (has_suffix_iff s u).1 (r ++ q, e ∙ ap (◌++◌ r) f ∙ sym (append_assoc r q u))

-- The first `c` of a string: what stands before it and after it.
unfoldable pub cut : ℕ → List ℕ → Option (List ℕ × List ℕ)
cut c [] = none
cut c (x ∷ s) =
    let rest = cut c s in
    if x == c then some ([], s) else elim rest [ none ↦ none | some p ↦ some (x ∷ p.0, p.1) ]

abbrev pub cons_first : ℕ → List (List ℕ) → List (List ℕ)
cons_first x [] = (x ∷ []) ∷ []
cons_first x (w ∷ ws) = (x ∷ w) ∷ ws

-- `strings.Split` on one byte.
unfoldable pub split : ℕ → List ℕ → List (List ℕ)
split c [] = [] ∷ []
split c (x ∷ s) = let rest = split c s in if x == c then [] ∷ rest else cons_first x rest

unfoldable pub contains_byte : ℕ → List ℕ → Bool
contains_byte c [] = false
contains_byte c (x ∷ s) = x == c || contains_byte c s

-- `strings.ContainsAny`.
unfoldable pub contains_any : List ℕ → List ℕ → Bool
unfolding contains_byte
contains_any s [] = false
contains_any s (c ∷ cs) = contains_byte c s || contains_any s cs

-- `strings.TrimSuffix` of one byte, and `strings.TrimRight`.
unfoldable pub trim_last : ℕ → List ℕ → List ℕ
trim_last c [] = []
trim_last c (x ∷ []) = if x == c then [] else x ∷ []
trim_last c (x ∷ y ∷ s) = x ∷ trim_last c (y ∷ s)

unfoldable pub trim_right : ℕ → List ℕ → List ℕ
trim_right c [] = []
trim_right c (x ∷ s) = let rest = trim_right c s in if is_empty rest && x == c then [] else x ∷ rest

-- `<` on strings: byte by byte, a prefix first.
unfoldable pub less_text : List ℕ → List ℕ → Bool
less_text s [] = false
less_text [] (b ∷ t) = true
less_text (a ∷ s) (b ∷ t) = ltb a b || (a == b && less_text s t)

pub less_text_irrefl : (s : List ℕ) → less_text s s ≡ false
unfolding less_text
less_text_irrefl [] = refl
less_text_irrefl (a ∷ s) = ground (arith, less_text_irrefl s)

pub less_text_tri : (s t : List ℕ) → less_text s t ≡ false → less_text t s ≡ false → s ≡ t
unfolding less_text
less_text_tri [] [] h k = refl
less_text_tri [] (b ∷ t) h k = cc
less_text_tri (a ∷ s) [] h k = cc
less_text_tri (a ∷ s) (b ∷ t) h k = ground (arith, less_text_tri s t)

pub less_text_trans :
    (s t u : List ℕ) → less_text s t ≡ true → less_text t u ≡ true → less_text s u ≡ true
unfolding less_text
less_text_trans s t [] h k = k
less_text_trans s [] (c ∷ u) h k = cc
less_text_trans [] (b ∷ t) (c ∷ u) h k = refl
less_text_trans (a ∷ s) (b ∷ t) (c ∷ u) h k = ground (arith, less_text_trans s t u)
