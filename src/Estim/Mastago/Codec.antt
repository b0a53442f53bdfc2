-- ===== src/Estim/Mastago/Codec.antt =====
-- internal/estim/mastago/codec.go: the commands, and the countdown of the unit as text.
use masseuse_camlink.Prelude.{
  ℕ, ◌+◌, ◌*◌, ◌/◌, ◌%◌, ◌-◌, Bool, ◌&&◌, ◌||◌, Option, none, some, List, ◌++◌, map, ltb, leb, ◌==◌,
  if◌then◌else◌, length, take, drop, codes, has_prefix, ℤ, pos, pos_part, leb_ℤ, min_ℤ, max_ℤ,
  print_int, pad_two, keep, is_digit, trim_space, until_byte, unsigned,
}

abbrev pub level_max : ℤ
level_max = pos 25

abbrev pub mode_max : ℤ
mode_max = pos 31

abbrev pub timer_min_s : ℤ
timer_min_s = pos 1

abbrev pub timer_max_s : ℤ
timer_max_s = pos 7200

-- `ModeAllowed`.
abbrev pub mode_allowed : ℤ → Bool
mode_allowed m = leb_ℤ (pos 0) m && leb_ℤ m mode_max

abbrev pub no_load : ℕ
no_load = 102

abbrev pub cmd_start : List ℕ
cmd_start = codes "AT+QPOWS"

abbrev pub cmd_pause : List ℕ
cmd_pause = codes "AT+QPOWP"

abbrev pub query_mode : List ℕ
query_mode = codes "AT+CMODE?"

abbrev pub query_level : List ℕ
query_level = codes "AT+CSTR?"

abbrev pub query_timer : List ℕ
query_timer = codes "AT+CDCLK?"

abbrev pub query_paused : List ℕ
query_paused = codes "AT+QPOWP?"

abbrev pub query_battery : List ℕ
query_battery = codes "AT+CBC?"

abbrev pub query_load : List ℕ
query_load = codes "AT+CLOAD?"

-- `CmdSetMode` and `CmdSetLevel`, on channel 0.
unfoldable pub cmd_set_mode : ℤ → List ℕ
unfolding print_int
cmd_set_mode m = codes "AT+CMODE=0," ++ print_int m

unfoldable pub cmd_set_level : ℤ → List ℕ
unfolding print_int
cmd_set_level n = codes "AT+CSTR=0," ++ print_int n

abbrev pub clamp_timer : ℤ → ℤ
clamp_timer seconds = max_ℤ timer_min_s (min_ℤ timer_max_s seconds)

-- `FormatHHMMSS`; what it divides is positive.
unfoldable pub format_hhmmss : ℤ → List ℕ
unfolding pad_two
format_hhmmss seconds =
    let s = pos_part (clamp_timer seconds) in
    let rem = s % 3600 in pad_two (s / 3600) ++ (pad_two (rem / 60) ++ pad_two (rem % 60))

unfoldable pub cmd_set_timer : ℤ → List ℕ
unfolding format_hhmmss
cmd_set_timer seconds = codes "AT+CDCLK=" ++ format_hhmmss seconds

-- `Encode`.
abbrev pub encode : List ℕ → List ℕ
encode cmd = cmd ++ codes "\r\n"

to_upper : ℕ → ℕ
to_upper c = if leb b'a' c && leb c b'z' then c - 32 else c

abbrev drop_at : List ℕ → List ℕ
drop_at s = if has_prefix s (codes "AT+") then drop 3 s else s

-- `CommandName`.
unfoldable pub command_name : List ℕ → List ℕ
unfolding to_upper trim_space until_byte
command_name cmd =
    until_byte (λ (c : ℕ). c == b'=' || c == b'?') (drop_at (map to_upper (trim_space cmd)))

abbrev pub two_digits : List ℕ → ℕ → ℕ
two_digits s i = elim (unsigned (take 2 (drop i s))) [ none ↦ 0 | some n ↦ n ]

-- `ParseHHMMSS`: the last six digits of the text.
unfoldable pub parse_hhmmss : List ℕ → Option ℤ
unfolding keep unsigned
parse_hhmmss value =
    let digits = keep is_digit value in
    let s = drop (length digits - 6) digits in
    if ltb (length digits) 6
    then none
    else some (pos (two_digits s 0 * 3600 + two_digits s 2 * 60 + two_digits s 4))
