-- ===== src/Estim/Within.antt =====
-- internal/estim/estim.go: `CheckCaps` and `LevelMaxFor` against the caps in plain words.
use masseuse_camlink.Prelude.{
  ℕ, ◌≡◌, ◌≢◌, ◌⊎◌, ◌↔◌, inl, inr, refl, sym, Bool, true, false, not, Option, none, some, List, [],
  ◌∷◌, arith, ℤ, pos, ◌≤ℤ◌, eq_ℤ, eq_ℤ_iff, if◌then◌else◌, Bool-cases,
}
use mathlib.Core.List.{Memᴰ}
use masseuse_camlink.Estim.Caps.{
  Capabilities, Settings, level_max_for, level_scale_max, Verb, status, release, set_mode,
  set_level, adjust_level, set_ma, adjust_ma, unsupported, Command, CapsError, no_tempo,
  level_out_of_range, delta_out_of_range, percent_out_of_range, between, is_step, allows_mode,
  check_mode, check_verb, check_caps, level_delta_cap, tempo_delta_cap, tempo_percent_cap, neg,
}

-- A step of at most `cap` up or down, and not none.
abbrev pub IsStep : ℕ → ℤ → Type 0
IsStep cap d = (d ≢ pos 0) × (neg cap ≤ℤ d) × (d ≤ℤ pos cap)

-- A level that neither the device, nor the session, nor the scale rules out.
abbrev pub IsLevel : Capabilities → Settings → ℤ → Type 0
IsLevel caps settings n =
    (pos 0 ≤ℤ n)
    × ((n ≡ pos 0) ⊎ (n ≤ℤ caps.level_max) × (n ≤ℤ settings.level_max) × (n ≤ℤ level_scale_max))

-- What the caps allow, verb by verb.
abbrev pub IsWithin : Verb → Command → Capabilities → Settings → Type 0
IsWithin set_mode cmd caps settings = (m : ℤ) × (cmd.mode ≡ some m) × Memᴰ m caps.modes
IsWithin set_level cmd caps settings = (n : ℤ) × (cmd.level ≡ some n) × IsLevel caps settings n
IsWithin adjust_level cmd caps settings = (d : ℤ) × (cmd.delta ≡ some d) × IsStep level_delta_cap d
IsWithin set_ma cmd caps settings =
    (caps.tempo ≡ true) × (n : ℤ) × (cmd.percent ≡ some n) × (pos 0 ≤ℤ n) × (n ≤ℤ tempo_percent_cap)
IsWithin adjust_ma cmd caps settings =
    (caps.tempo ≡ true) × (d : ℤ) × (cmd.delta ≡ some d) × IsStep tempo_delta_cap d
IsWithin v cmd caps settings = Unit {0}

-- The level maximum is on the scale, whatever the device and the session say.
pub level_max_for_bounds :
    (caps : Capabilities) (settings : Settings)
    → (pos 0 ≤ℤ level_max_for caps settings) × (level_max_for caps settings ≤ℤ level_scale_max)
unfolding level_max_for
level_max_for_bounds caps settings = ground arith

IsLevel-iff :
    (caps : Capabilities) (settings : Settings) (n : ℤ)
    → ((pos 0 ≤ℤ n) × (n ≤ℤ level_max_for caps settings)) ↔ IsLevel caps settings n
unfolding level_max_for
IsLevel-iff caps settings n = (λ h. ground arith, λ h. ground arith)

between_iff :
    (lo hi : ℤ) (o : Option ℤ)
    → (between lo hi o ≡ true) ↔ ((n : ℤ) × (o ≡ some n) × (lo ≤ℤ n) × (n ≤ℤ hi))
unfolding between
between_iff lo hi none = (λ h. cc, λ h. cc h.1)
between_iff lo hi (some n) = (λ h. (n, refl, ground arith, ground arith), λ h. ground (arith, h.1))

is_step_iff :
    (cap : ℕ) (o : Option ℤ) → (is_step cap o ≡ true) ↔ ((d : ℤ) × (o ≡ some d) × IsStep cap d)
unfolding is_step
is_step_iff cap none = (λ h. cc, λ h. cc h.1)
is_step_iff cap (some n) = (
  λ h. (n, refl, ground (arith, eq_ℤ_iff n (pos 0))),
  λ h. ground (arith, h.1, (eq_ℤ_iff n (pos 0)).0),
)

allows_mode_cons :
    (n m : ℤ) (ns : List ℤ)
    → (allows_mode ns m ≡ none) ↔ Memᴰ m ns
    → (allows_mode (n ∷ ns) m ≡ none) ↔ Memᴰ m (n ∷ ns)
unfolding allows_mode
allows_mode_cons n m ns ih = (found, there)
  where
    found : allows_mode (n ∷ ns) m ≡ none → Memᴰ m (n ∷ ns)
    found h = elim (Bool-cases (eq_ℤ n m)) [
      | inl e ↦ Memᴰ.head (sym ((eq_ℤ_iff n m).0 e))
      | inr e ↦ Memᴰ.tail (ih.0 (ground arith))
    ]

    there : Memᴰ m (n ∷ ns) → allows_mode (n ∷ ns) m ≡ none
    there (Memᴰ.head e) = rw ((eq_ℤ_iff n m).1 (sym e))
    there (Memᴰ.tail h) = ground (arith, ih.1 h)

allows_mode_iff : (modes : List ℤ) (m : ℤ) → (allows_mode modes m ≡ none) ↔ Memᴰ m modes
unfolding allows_mode
allows_mode_iff [] m = (λ h. cc, λ h. elim h [ ])
allows_mode_iff (n ∷ ns) m = allows_mode_cons n m ns (allows_mode_iff ns m)

check_mode_iff :
    (modes : List ℤ) (o : Option ℤ)
    → (check_mode modes o ≡ none) ↔ ((m : ℤ) × (o ≡ some m) × Memᴰ m modes)
check_mode_iff modes none = (λ h. cc, λ h. cc h.1)
check_mode_iff modes (some m) = (
  λ h. (m, refl, (allows_mode_iff modes m).0 h),
  λ h. ground (arith, h.1, (allows_mode_iff modes h.0).1 h.2),
)

if_none : (b : Bool) (e : CapsError) → ((if b then none else some e) ≡ none) ↔ (b ≡ true)
if_none true e = (λ h. refl, λ h. refl)
if_none false e = (λ h. cc, λ h. cc)

if_tempo :
    (t : Bool) (o : Option CapsError)
    → ((if not t then some no_tempo else o) ≡ none) ↔ ((t ≡ true) × (o ≡ none))
if_tempo true o = (λ h. (refl, h), λ h. h.1)
if_tempo false o = (λ h. cc, λ h. cc)

-- CheckCaps lets a command through exactly if it is within the caps of the device, the session and
-- the connector.
pub check_caps_iff :
    (cmd : Command) (caps : Capabilities) (settings : Settings)
    → (check_caps cmd caps settings ≡ none) ↔ IsWithin cmd.verb cmd caps settings
unfolding check_caps
check_caps_iff cmd caps settings = at cmd.verb
  where
    at : (v : Verb) → (check_verb v cmd caps settings ≡ none) ↔ IsWithin v cmd caps settings
    at set_mode = check_mode_iff caps.modes cmd.mode
    at set_level = (
      λ h.
          let (n, e, lo, hi) =
            (between_iff (pos 0) (level_max_for caps settings) cmd.level).0
              ((if_none _ level_out_of_range).0 h) in
          (n, e, (IsLevel-iff caps settings n).0 (lo, hi)),
      λ h.
          let (lo, hi) = (IsLevel-iff caps settings h.0).1 h.2 in
          (if_none _ level_out_of_range).1
            ((between_iff (pos 0) (level_max_for caps settings) cmd.level).1 (h.0, h.1, lo, hi)),
    )
    at adjust_level = (
      λ h. (is_step_iff level_delta_cap cmd.delta).0 ((if_none _ delta_out_of_range).0 h),
      λ h. (if_none _ delta_out_of_range).1 ((is_step_iff level_delta_cap cmd.delta).1 h),
    )
    at set_ma = (
      λ h.
          let (t, b) = (if_tempo caps.tempo _).0 h in
          let (n, e, lo, hi) =
            (between_iff (pos 0) tempo_percent_cap cmd.percent).0
              ((if_none _ percent_out_of_range).0 b) in
          (t, n, e, lo, hi),
      λ (t, n, e, lo, hi). (if_tempo caps.tempo _).1 (
        t,
        (if_none _ percent_out_of_range).1
            ((between_iff (pos 0) tempo_percent_cap cmd.percent).1 (n, e, lo, hi)),
      ),
    )
    at adjust_ma = (
      λ h.
          let (t, b) = (if_tempo caps.tempo _).0 h in
          let (d, e, k) =
            (is_step_iff tempo_delta_cap cmd.delta).0 ((if_none _ delta_out_of_range).0 b) in
          (t, d, e, k),
      λ (t, d, e, k). (if_tempo caps.tempo _).1 (
        t,
        (if_none _ delta_out_of_range).1 ((is_step_iff tempo_delta_cap cmd.delta).1 (d, e, k)),
      ),
    )
    at status = (λ _. tt, λ _. refl)
    at release = (λ _. tt, λ _. refl)
    at (unsupported s) = (λ _. tt, λ _. refl)
