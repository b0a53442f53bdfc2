-- ===== src/Estim/Mastago/Reply.antt =====
-- internal/estim/mastago/codec.go: a line of the unit, decoded, and the numbers in it.
use masseuse_camlink.Prelude.{
  ℕ, ◌-◌, ◌^◌, min, not, Bool, false, ◌&&◌, ◌||◌, Option, none, some, List, [], ◌∷◌, leb, ◌==◌,
  if◌then◌else◌, is_empty, is_some, codes, same_text, has_prefix, cut, ℤ, pos, negsuc, keep,
  trim_space, trim_end, trim_start, before_text, after_last, fields_func, until_byte, unsigned,
  is_digit, atoi,
}

-- `ReplyKind`.
pub data Kind : Type 0 where
  unknown ack value error heartbeat : Kind

pub record Reply : Type 0 where
  pub kind : Kind
  pub name : List ℕ
  pub content : List ℕ
  pub code : ℕ
  pub unsolicited : Bool
  pub raw : List ℕ

is_printable : ℕ → Bool
is_printable c = leb 32 c && leb c 126

-- `cleanLine`.
unfoldable pub clean_line : List ℕ → List ℕ
unfolding keep is_printable trim_space
clean_line b = trim_space (keep is_printable b)

abbrev is_plus : ℕ → Bool
is_plus c = c == b'+'

abbrev plain : Kind → List ℕ → Reply
plain k raw = record { kind = k; name = []; content = []; code = 0; unsolicited = false; raw = raw }

-- `firstInt`: the first run of digits, and the largest int if that is too large for one.
first_int : List ℕ → ℕ
unfolding trim_start trim_end until_byte unsigned
first_int s =
    let other = λ (c : ℕ). not (is_digit c) in
    let digits = until_byte other (trim_end other (trim_start other s)) in
    elim (unsigned digits) [ none ↦ 0 | some n ↦ min n (2 ^ 63 - 1) ]

-- The line before "ERROR" names the command, and the number behind the last colon is the code.
unfoldable pub decode_error : List ℕ → List ℕ → Reply
unfolding trim_space trim_start after_last first_int
decode_error clean before = record {
  kind = error;
  name = trim_space (trim_start is_plus before);
  content = [];
  code = elim (after_last b':' clean) [ none ↦ 0 | some s ↦ first_int s ];
  unsolicited = false;
  raw = clean;
}

abbrev kind_of : List ℕ → Bool → List ℕ → Kind
kind_of name has_colon content =
    if same_text name (codes "CHEART")
    then heartbeat
    else if has_colon && same_text content (codes "OK")
    then ack
    else if is_empty name
    then unknown
    else value

-- `strings.Cut` at the colon: all of it, if there is none.
abbrev cut_colon : List ℕ → Option (List ℕ × List ℕ) → List ℕ × List ℕ
cut_colon body none = (body, [])
cut_colon body (some p) = p

unfoldable pub decode_report : List ℕ → Reply
unfolding trim_space trim_start cut has_prefix same_text
decode_report clean =
    let body = trim_start is_plus clean in
    let parts = cut_colon body (cut b':' body) in
    let name = trim_space parts.0 in
    let content = trim_space parts.1 in
    record {
      kind = kind_of name (is_some (cut b':' body)) content;
      name = name;
      content = content;
      code = 0;
      unsolicited = has_prefix clean (codes "++");
      raw = clean;
    }

decode_clean : List ℕ → Reply
unfolding decode_error decode_report before_text has_prefix same_text
decode_clean clean =
    if is_empty clean
    then plain unknown clean
    else if same_text clean (codes "OK")
    then plain ack clean
    else elim (before_text (codes "ERROR") clean) [
      | some before ↦ decode_error clean before
      | none ↦ if has_prefix clean (codes "+") then decode_report clean else plain unknown clean
    ]

-- `DecodeReply`.
unfoldable pub decode_reply : List ℕ → Reply
unfolding clean_line decode_clean
decode_reply line = decode_clean (clean_line line)

unfoldable pub parse_all : List (List ℕ) → List ℤ
unfolding atoi trim_space
parse_all [] = []
parse_all (w ∷ ws) = elim (atoi (trim_space w)) [ none ↦ parse_all ws | some n ↦ n ∷ parse_all ws ]

-- `Ints`.
unfoldable pub ints : List ℕ → List ℤ
unfolding parse_all fields_func
ints s = parse_all (fields_func (λ (c : ℕ). c == b',' || c == b';') s)

unfoldable pub last : List ℤ → Option ℤ
last [] = none
last (n ∷ []) = some n
last (n ∷ m ∷ ns) = last (m ∷ ns)

-- `LastInt`.
unfoldable pub last_int : List ℕ → Option ℤ
unfolding ints last
last_int s = last (ints s)

-- `LossReason`: the connector's code for the unit's reason to switch itself off.
unfoldable pub loss_reason : ℤ → List ℕ
loss_reason (pos n) =
    if n == 0
    then codes "idle_off"
    else if n == 1
    then codes "output_off"
    else if n == 2
    then codes "battery_off"
    else if n == 3
    then codes "button_off"
    else codes "link_lost"
loss_reason (negsuc n) = codes "link_lost"
