-- ===== src/Estim/Caps.antt =====
-- internal/estim/estim.go: what the service may ask of a device, and the caps that the connector
-- holds it to. A number of the service is an integer; a string is its bytes where the program does
-- not know it.
use masseuse_camlink.Prelude.{
  same_text, is_empty, ℕ, zero, suc, Bool, true, false, ◌&&◌, ◌||◌, not, Option, none, some, List,
  [], ◌∷◌, if◌then◌else◌, ℤ, pos, negsuc, ltb_ℤ, eq_ℤ, min_ℤ, max_ℤ,
}

-- The power range of a session's settings: a string, two of which the connector arms in.
pub data PowerMode : Type 0 where
  normal high : PowerMode
  other : List ℕ → PowerMode

unfoldable pub same_mode : PowerMode → PowerMode → Bool
unfolding same_text
same_mode normal normal = true
same_mode high high = true
same_mode (other a) (other b) = same_text a b
same_mode _ _ = false

pub record Capabilities : Type 0 where
  pub level_max : ℤ
  pub modes : List ℤ
  pub tempo : Bool
  pub power_modes : List PowerMode
  pub level_max_default : ℤ

-- `HasPowerMode`.
unfoldable pub has_power_mode : PowerMode → List PowerMode → Bool
has_power_mode mode [] = false
has_power_mode mode (m ∷ ms) = same_mode m mode || has_power_mode mode ms

pub record Settings : Type 0 where
  pub power_mode : PowerMode
  pub level_max : ℤ

abbrev pub default_level_cap : ℤ
default_level_cap = pos 85

abbrev pub level_scale_max : ℤ
level_scale_max = pos 99

abbrev pub default_settings : Settings
default_settings = record { power_mode = high; level_max = default_level_cap }

unfoldable pub default_settings_for : Capabilities → Settings
default_settings_for caps = record {
  power_mode =
      if (ltb_ℤ (pos 0) caps.level_max || not (is_empty caps.power_modes))
        && not (has_power_mode high caps.power_modes)
      then normal
      else high;
  level_max =
      if ltb_ℤ (pos 0) caps.level_max_default then caps.level_max_default else default_level_cap;
}

pub data SettingsError : Type 0 where
  bad_power_mode bad_level_max : SettingsError

abbrev pub is_armable : PowerMode → Bool
is_armable (other m) = false
is_armable m = true

-- `Settings.Validate`.
unfoldable pub validate : Settings → Option SettingsError
validate s =
    if not (is_armable s.power_mode)
    then some bad_power_mode
    else if ltb_ℤ s.level_max (pos 0) || ltb_ℤ level_scale_max s.level_max
    then some bad_level_max
    else none

-- `==` on two Settings.
abbrev pub same_settings : Settings → Settings → Bool
same_settings a b = same_mode a.power_mode b.power_mode && eq_ℤ a.level_max b.level_max

-- `LevelMaxFor`: no command sets a level past it.
unfoldable pub level_max_for : Capabilities → Settings → ℤ
level_max_for caps settings =
    max_ℤ (pos 0) (min_ℤ (min_ℤ caps.level_max settings.level_max) level_scale_max)

pub data Verb : Type 0 where
  status release set_mode set_level adjust_level set_ma adjust_ma : Verb
  unsupported : List ℕ → Verb

pub record Command : Type 0 where
  pub verb : Verb
  pub mode : Option ℤ
  pub level : Option ℤ
  pub delta : Option ℤ
  pub percent : Option ℤ

pub data CapsError : Type 0 where
  needs_mode mode_not_allowed level_out_of_range delta_out_of_range no_tempo percent_out_of_range :
      CapsError

-- Whether an integer is given and lies between two others.
unfoldable pub between : ℤ → ℤ → Option ℤ → Bool
between lo hi none = false
between lo hi (some n) = not (ltb_ℤ n lo || ltb_ℤ hi n)

abbrev pub neg : ℕ → ℤ
neg zero = pos 0
neg (suc n) = negsuc n

-- A step up or down: given, not zero, at most `cap` either way.
unfoldable pub is_step : ℕ → Option ℤ → Bool
is_step cap none = false
is_step cap (some d) = not (eq_ℤ d (pos 0) || ltb_ℤ d (neg cap) || ltb_ℤ (pos cap) d)

unfoldable pub allows_mode : List ℤ → ℤ → Option CapsError
allows_mode [] m = some mode_not_allowed
allows_mode (n ∷ ns) m = let rest = allows_mode ns m in if eq_ℤ n m then none else rest

abbrev pub check_mode : List ℤ → Option ℤ → Option CapsError
check_mode modes none = some needs_mode
check_mode modes (some m) = allows_mode modes m

abbrev pub level_delta_cap : ℕ
level_delta_cap = 5

abbrev pub tempo_delta_cap : ℕ
tempo_delta_cap = 10

abbrev pub tempo_percent_cap : ℤ
tempo_percent_cap = pos 100

-- The switch of `CheckCaps` on a command's verb and arguments.
unfoldable pub check_verb : Verb → Command → Capabilities → Settings → Option CapsError
unfolding level_max_for
check_verb set_mode cmd caps settings = check_mode caps.modes cmd.mode
check_verb set_level cmd caps settings =
    if between (pos 0) (level_max_for caps settings) cmd.level
    then none
    else some level_out_of_range
check_verb adjust_level cmd caps settings =
    if is_step level_delta_cap cmd.delta then none else some delta_out_of_range
check_verb set_ma cmd caps settings =
    if not caps.tempo
    then some no_tempo
    else if between (pos 0) tempo_percent_cap cmd.percent
    then none
    else some percent_out_of_range
check_verb adjust_ma cmd caps settings =
    if not caps.tempo
    then some no_tempo
    else if is_step tempo_delta_cap cmd.delta
    then none
    else some delta_out_of_range
check_verb v cmd caps settings = none

-- `CheckCaps`: nil, or why the command is refused.
unfoldable pub check_caps : Command → Capabilities → Settings → Option CapsError
unfolding check_verb
check_caps cmd caps settings = check_verb cmd.verb cmd caps settings
