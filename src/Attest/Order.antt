-- ===== src/Attest/Order.antt =====
-- internal/attest/attest.go, `CompareRelease`: being no older is transitive.
use Prim.Native.Nat.{compare, Ordering}
use Prim.Native.Nat.Ordering.{lt, eq, gt}
use masseuse_camlink.Prelude.{
  ℕ, ◌≡◌, Bool, true, false, List, arith, same_text_iff, less_text_irrefl, less_text_tri,
  less_text_trans,
}
use masseuse_camlink.Attest.Release.{
  Numbers, compare_pre, compare_numbers, then_compare, compare_release, release_numbers, is_older,
}

abbrev pub is_lt : Ordering → Bool
is_lt lt = true
is_lt o = false

abbrev pub is_eq : Ordering → Bool
is_eq eq = true
is_eq o = false

-- Three orderings of x and y, y and z, x and z that agree: a chain of no-less is no less, and it is
-- strict if a part of it is.
abbrev Chains : Ordering → Ordering → Ordering → Type 0
Chains lt b c = Unit
Chains gt lt c = Unit
Chains eq lt c = Unit
Chains eq eq c = c ≡ eq
Chains eq gt c = c ≡ gt
Chains gt eq c = c ≡ gt
Chains gt gt c = c ≡ gt

compare-Chains : (x y z : ℕ) → Chains (compare x y) (compare y z) (compare x z)
compare-Chains x y z = ground arith

then_compare-Chains :
    (a b c d e f : Ordering)
    → Chains a b c
    → Chains d e f
    → Chains (then_compare a d) (then_compare b e) (then_compare c f)
then_compare-Chains a b c d e f h k = ground arith

compare_pre-Chains : (x y z : List ℕ) → Chains (compare_pre x y) (compare_pre y z) (compare_pre x z)
unfolding compare_pre
compare_pre-Chains x y z = ground (
  arith,
  same_text_iff x y,
  same_text_iff y z,
  same_text_iff x z,
  less_text_tri x y,
  less_text_tri y z,
  less_text_trans z y x,
  less_text_trans x z x,
  less_text_trans z y z,
  less_text_irrefl x,
  less_text_irrefl z,
)

compare_numbers-Chains :
    (x y z : Numbers) → Chains (compare_numbers x y) (compare_numbers y z) (compare_numbers x z)
unfolding compare_numbers
compare_numbers-Chains x y z =
    then_compare-Chains _ _ _ _ _ _ (compare-Chains x.major y.major z.major) (
      then_compare-Chains _ _ _ _ _ _ (compare-Chains x.minor y.minor z.minor) (
        then_compare-Chains _ _ _ _ _ _ (compare-Chains x.patch y.patch z.patch)
          (compare_pre-Chains x.pre y.pre z.pre)))

not_lt : (a b c : Ordering) → Chains a b c → is_lt a ≡ false → is_lt b ≡ false → is_lt c ≡ false
not_lt a b c h k l = ground arith

pub is_older_trans :
    (x y z : List ℕ) → is_older x y ≡ false → is_older y z ≡ false → is_older x z ≡ false
unfolding compare_release
is_older_trans x y z h k = ground (
  arith,
  not_lt _ _ _ (compare_numbers-Chains (release_numbers x) (release_numbers y) (release_numbers z)),
)

abbrev flip : Ordering → Ordering
flip lt = gt
flip eq = eq
flip gt = lt

flip-then_compare : (a b : Ordering) → flip (then_compare a b) ≡ then_compare (flip a) (flip b)
flip-then_compare a b = ground arith

compare-flip : (x y : ℕ) → compare y x ≡ flip (compare x y)
compare-flip x y = ground arith

compare_pre-flip : (x y : List ℕ) → compare_pre y x ≡ flip (compare_pre x y)
unfolding compare_pre
compare_pre-flip x y = ground (
  arith,
  same_text_iff x y,
  same_text_iff y x,
  less_text_tri x y,
  less_text_trans x y x,
  less_text_irrefl x,
)

compare_numbers-flip : (x y : Numbers) → compare_numbers y x ≡ flip (compare_numbers x y)
unfolding compare_numbers
compare_numbers-flip x y = ground (
  arith,
  compare-flip x.major y.major,
  compare-flip x.minor y.minor,
  compare-flip x.patch y.patch,
  compare_pre-flip x.pre y.pre,
)

lt_flip : (a b : Ordering) → b ≡ flip a → is_lt a ≡ true → is_lt b ≡ false
lt_flip a b e h = ground arith

pub is_older_asym : (x y : List ℕ) → is_older x y ≡ true → is_older y x ≡ false
unfolding compare_release
is_older_asym x y h =
    ground (arith, lt_flip _ _ (compare_numbers-flip (release_numbers x) (release_numbers y)))
