-- ===== src/Attest/Release.antt =====
-- internal/attest/attest.go: release tags and their order. A part of a tag has at most nine digits, so
-- that no number overflows.
use Prim.Native.Nat.{compare, Ordering}
use Prim.Native.Nat.Ordering.{lt, eq, gt}
use masseuse_camlink.Prelude.{
  ℕ, ◌+◌, ◌*◌, ◌-◌, Bool, true, false, ◌||◌, Option, none, some, List, [], ◌∷◌, ltb, ◌==◌,
  if◌then◌else◌, length, same_text, less_text, cut, split, is_empty,
}

-- The three numbers, the pre-release suffix, and whether the tag is a release tag.
pub record Numbers : Type 0 where
  pub major : ℕ
  pub minor : ℕ
  pub patch : ℕ
  pub pre : List ℕ
  pub ok : Bool

abbrev pub bad_numbers : ℕ → ℕ → ℕ → Numbers
bad_numbers a b c = record { major = a; minor = b; patch = c; pre = []; ok = false }

unfoldable pub digits : ℕ → List ℕ → Option ℕ
digits n [] = some n
digits n (c ∷ p) =
    let rest = digits (n * 10 + (c - b'0')) p in if ltb c b'0' || ltb b'9' c then none else rest

-- One of the parts between the dots.
abbrev pub part : List ℕ → Option ℕ
part p = if is_empty p || ltb 9 (length p) then none else digits 0 p

unfoldable pub three_parts : List ℕ → List (List ℕ) → Numbers
unfolding digits
three_parts pre (a ∷ b ∷ c ∷ []) = elim (part a) [
  | none ↦ bad_numbers 0 0 0
  | some x ↦ elim (part b) [
    | none ↦ bad_numbers x 0 0
    | some y ↦ elim (part c) [
      | none ↦ bad_numbers x y 0
      | some z ↦ record { major = x; minor = y; patch = z; pre = pre; ok = true }
    ]
  ]
]
three_parts pre ps = bad_numbers 0 0 0

-- What stands before the build metadata.
abbrev pub without_build : List ℕ → List ℕ
without_build s = elim (cut b'+' s) [ none ↦ s | some p ↦ p.0 ]

abbrev pub with_suffix : List ℕ → Numbers
with_suffix s = elim (cut b'-' s) [
  | none ↦ three_parts [] (split b'.' s)
  | some p ↦ if is_empty p.1 then bad_numbers 0 0 0 else three_parts p.1 (split b'.' p.0)
]

-- `releaseNumbers`.
unfoldable pub release_numbers : List ℕ → Numbers
unfolding three_parts cut
release_numbers [] = bad_numbers 0 0 0
release_numbers (v ∷ rest) =
    if v == b'v' then with_suffix (without_build rest) else bad_numbers 0 0 0

abbrev pub valid_release : List ℕ → Bool
valid_release tag = (release_numbers tag).ok

abbrev pub then_compare : Ordering → Ordering → Ordering
then_compare lt o = lt
then_compare eq o = o
then_compare gt o = gt

unfoldable pub compare_pre : List ℕ → List ℕ → Ordering
compare_pre a b =
    if same_text a b
    then eq
    else if is_empty a
    then gt
    else if is_empty b
    then lt
    else if less_text a b
    then lt
    else gt

unfoldable pub compare_numbers : Numbers → Numbers → Ordering
unfolding compare_pre
compare_numbers a b = then_compare (compare a.major b.major) (
    then_compare (compare a.minor b.minor)
      (then_compare (compare a.patch b.patch) (compare_pre a.pre b.pre)))

-- `CompareRelease`: -1, 0 and 1.
unfoldable pub compare_release : List ℕ → List ℕ → Ordering
compare_release a b = compare_numbers (release_numbers a) (release_numbers b)

abbrev pub is_older : List ℕ → List ℕ → Bool
is_older a b = elim (compare_release a b) [ lt ↦ true | _ ↦ false ]
