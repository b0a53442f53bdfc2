-- ===== src/Prelude/Decimal.antt =====
-- Numbers in text, byte by byte: what the program uses of Go's strconv and strings packages.
use Prim.Native.Nat.{ℕ, zero, suc, ◌+◌, ◌-◌, ◌*◌, ◌^◌}
use mathlib.Core.Bool.{Bool, ◌&&◌, ◌||◌}
use mathlib.Core.Option.{Option, none, some}
use mathlib.Core.List.{List, [], ◌∷◌}
use masseuse_camlink.Prelude.Tests.{leb, ◌==◌, if◌then◌else◌}
use masseuse_camlink.Prelude.Bytes.{decimal}
use masseuse_camlink.Prelude.Int.{ℤ, pos, negsuc}
use masseuse_camlink.Prelude.Text.{is_empty, cons_first, has_prefix}

abbrev pub is_digit : ℕ → Bool
is_digit c = leb b'0' c && leb c b'9'

-- The number that digits spell behind `n`.
unfoldable pub digits_value : ℕ → List ℕ → Option ℕ
digits_value n [] = some n
digits_value n (c ∷ s) =
    let rest = digits_value (n * 10 + (c - b'0')) s in if is_digit c then rest else none

unfoldable pub unsigned : List ℕ → Option ℕ
unfolding digits_value
unsigned [] = none
unsigned (c ∷ s) = digits_value 0 (c ∷ s)

abbrev negative : ℕ → ℤ
negative zero = pos 0
negative (suc n) = negsuc n

abbrev below : ℕ → (ℕ → ℤ) → Option ℕ → Option ℤ
below top make none = none
below top make (some n) = if leb n top then some (make n) else none

-- `strconv.Atoi` of an int of 64 bits; none for its error.
unfoldable pub atoi : List ℕ → Option ℤ
unfolding unsigned
atoi [] = none
atoi (c ∷ s) =
    if c == b'-'
    then below (2 ^ 63) negative (unsigned s)
    else if c == b'+'
    then below (2 ^ 63 - 1) pos (unsigned s)
    else below (2 ^ 63 - 1) pos (unsigned (c ∷ s))

-- `%d` of an int: an int of 64 bits has at most 19 digits.
unfoldable pub print_int : ℤ → List ℕ
print_int (pos n) = decimal 20 n
print_int (negsuc n) = b'-' ∷ decimal 20 (suc n)

-- `%02d` of a number.
unfoldable pub pad_two : ℕ → List ℕ
pad_two n = if leb 10 n then decimal 20 n else b'0' ∷ decimal 20 n

unfoldable pub keep : (ℕ → Bool) → List ℕ → List ℕ
keep p [] = []
keep p (c ∷ s) = let rest = keep p s in if p c then c ∷ rest else rest

-- `strings.TrimLeft` and `strings.TrimRight` of the bytes that pass a test.
unfoldable pub trim_start : (ℕ → Bool) → List ℕ → List ℕ
trim_start p [] = []
trim_start p (c ∷ s) = let rest = trim_start p s in if p c then rest else c ∷ s

unfoldable pub trim_end : (ℕ → Bool) → List ℕ → List ℕ
trim_end p [] = []
trim_end p (c ∷ s) = let rest = trim_end p s in if p c && is_empty rest then [] else c ∷ rest

-- `strings.TrimSpace` of ASCII text.
abbrev is_space : ℕ → Bool
is_space c = c == 32 || (leb 9 c && leb c 13)

unfoldable pub trim_space : List ℕ → List ℕ
unfolding trim_start trim_end
trim_space s = trim_end is_space (trim_start is_space s)

-- `s[:strings.Index(s, t)]` for a text `t` that is not empty; none if it does not occur.
unfoldable pub before_text : List ℕ → List ℕ → Option (List ℕ)
before_text t [] = none
before_text t (c ∷ s) =
    let rest = before_text t s in
    if has_prefix (c ∷ s) t then some [] else elim rest [ none ↦ none | some r ↦ some (c ∷ r) ]

-- What stands behind the last `c`.
unfoldable pub after_last : ℕ → List ℕ → Option (List ℕ)
after_last c [] = none
after_last c (x ∷ s) =
    let rest = after_last c s in
    elim rest [ some r ↦ some r | none ↦ if x == c then some s else none ]

-- What stands before the first byte that passes a test.
unfoldable pub until_byte : (ℕ → Bool) → List ℕ → List ℕ
until_byte p [] = []
until_byte p (c ∷ s) = let rest = until_byte p s in if p c then [] else c ∷ rest

-- `strings.FieldsFunc`: the pieces between the bytes that pass a test, less the empty ones.
unfoldable pub pieces : (ℕ → Bool) → List ℕ → List (List ℕ)
pieces p [] = [] ∷ []
pieces p (c ∷ s) = let rest = pieces p s in if p c then [] ∷ rest else cons_first c rest

unfoldable pub without_empty : List (List ℕ) → List (List ℕ)
without_empty [] = []
without_empty (w ∷ ws) = let rest = without_empty ws in if is_empty w then rest else w ∷ rest

unfoldable pub fields_func : (ℕ → Bool) → List ℕ → List (List ℕ)
unfolding pieces without_empty
fields_func p s = without_empty (pieces p s)
