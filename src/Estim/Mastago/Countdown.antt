-- ===== src/Estim/Mastago/Countdown.antt =====
-- internal/estim/mastago/codec.go: the countdown as text and back.
use masseuse_camlink.Prelude.{
  ℕ, ◌+◌, ◌*◌, ◌/◌, ◌%◌, ◌<◌, ◌≤◌, ◌≡◌, refl, ap, arith, some, List, [], ◌∷◌, ℤ, pos, pos_part,
  decimal, pad_two, keep, is_digit, unsigned, digits_value,
}
use masseuse_camlink.Estim.Mastago.Codec.{clamp_timer, format_hhmmss, parse_hhmmss}

pad_two_lem : (n : ℕ) → n < 100 → pad_two n ≡ (48 + n / 10) ∷ (48 + n % 10) ∷ []
unfolding pad_two decimal
pad_two_lem n h = ground arith

six : ℕ → ℕ → ℕ → List ℕ
six h m s =
    (48 + h / 10)
    ∷ (48 + h % 10)
    ∷ (48 + m / 10)
    ∷ (48 + m % 10)
    ∷ (48 + s / 10)
    ∷ (48 + s % 10)
    ∷ []

format_hhmmss-six :
    (seconds : ℤ)
    → let s = pos_part (clamp_timer seconds) in
      format_hhmmss seconds ≡ six (s / 3600) (s % 3600 / 60) (s % 3600 % 60)
unfolding format_hhmmss six
format_hhmmss-six seconds =
    let s = pos_part (clamp_timer seconds) in
    rw
      (
        pad_two_lem (s / 3600) (ground arith),
        pad_two_lem (s % 3600 / 60) (omega arith),
        pad_two_lem (s % 3600 % 60) (omega arith),
      )
      refl

keep-six : (h m s : ℕ) → h < 100 → m < 100 → s < 100 → keep is_digit (six h m s) ≡ six h m s
unfolding keep six
keep-six h m s hh hm hs = ground arith

unsigned_two : (n : ℕ) → n < 100 → unsigned ((48 + n / 10) ∷ (48 + n % 10) ∷ []) ≡ some n
unfolding unsigned digits_value
unsigned_two n h = ground arith

parse-six :
    (h m s : ℕ)
    → h < 100
    → m < 100
    → s < 100
    → parse_hhmmss (six h m s) ≡ some (pos (h * 3600 + m * 60 + s))
unfolding parse_hhmmss six
parse-six h m s hh hm hs =
    rw (keep-six h m s hh hm hs) (cc (unsigned_two h hh, unsigned_two m hm, unsigned_two s hs))

clamp_again : (seconds : ℤ) → clamp_timer seconds ≡ pos (pos_part (clamp_timer seconds))
clamp_again seconds = ground arith

-- ParseHHMMSS reads the countdown that FormatHHMMSS writes for any number of seconds: that number,
-- taken into the unit's range from 1 to 7200.
pub parse_hhmmss-format_hhmmss :
    (seconds : ℤ) → parse_hhmmss (format_hhmmss seconds) ≡ some (clamp_timer seconds)
parse_hhmmss-format_hhmmss seconds =
    let s = pos_part (clamp_timer seconds) in
    let le : s ≤ 7200 = ground arith in
    rw
      (
        format_hhmmss-six seconds,
        parse-six (s / 3600) (s % 3600 / 60) (s % 3600 % 60) (omega arith) (omega arith)
            (omega arith),
        clamp_again seconds,
      )
      (ap (λ n. some (pos n)) (omega arith))
