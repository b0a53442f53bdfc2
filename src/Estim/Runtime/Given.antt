-- ===== src/Estim/Runtime/Given.antt =====
-- internal/estim/runtime.go, `Execute`: what a command that acts on the device comes to.
use masseuse_camlink.Prelude.{
  ℕ, ◌≤◌, ◌<◌, ◌≤ℤ◌, ℤ, pos, inl, inr, sym, ◌∙◌, Bool, true, false, Option, none, some, ◌∷◌, ◌≡◌,
  ◌⊎◌, refl, arith,
}
use masseuse_camlink.Estim.Caps
use masseuse_camlink.Estim.Caps.{
  Capabilities, Settings, default_settings_for, level_max_for, level_scale_max, Verb, status,
  Command, CapsError, check_caps, validate,
}
use masseuse_camlink.Estim.Within.{IsLevel, IsWithin, check_caps_iff}
use masseuse_camlink.Estim.Runtime.Actuation.{actuate, execute_on, execute}
use masseuse_camlink.Estim.Runtime.State.{
  Device, executed, Runtime, Io, not_armed, refused, is_armed, settings_of,
}

-- The device is held ready: the window is open and the latch is not set.
abbrev pub IsReady : ℕ → Runtime → Type 0
IsReady now r = (r.cancel ≡ false) × (t : ℕ) × (r.arm_deadline ≡ some t) × (now < t)

abbrev pub IsShut : ℕ → Runtime → Type 0
IsShut now r =
    (r.cancel ≡ true) ⊎ (r.arm_deadline ≡ none) ⊎ ((t : ℕ) × (r.arm_deadline ≡ some t) × (t ≤ now))

-- The settings in force: the session's own, or without them those that the capabilities last told
-- give.
abbrev pub InForce : Runtime → Settings → Type 0
InForce r s =
    (r.settings ≡ some s)
    ⊎ ((r.settings ≡ none)
        × (s.power_mode ≡ (default_settings_for r.last.caps).power_mode)
        × ((pos 1 ≤ℤ r.last.caps.level_max_default) × (s.level_max ≡ r.last.caps.level_max_default)
            ⊎ (r.last.caps.level_max_default ≤ℤ pos 0) × (s.level_max ≡ pos 85)))

-- The greatest level that neither the device, nor the session, nor the scale rules out.
abbrev pub IsTop : Capabilities → Settings → ℤ → Type 0
IsTop caps s n =
    IsLevel caps s n
    × ((n ≡ caps.level_max)
        ⊎ (n ≡ s.level_max)
        ⊎ (n ≡ level_scale_max)
        ⊎ (n ≡ pos 0) × ((caps.level_max ≤ℤ pos 0) ⊎ (s.level_max ≤ℤ pos 0)))

-- The outcomes of a command that acts on the device: it is given to the device, once and with the
-- greatest level; the device is not ready; the caps refuse the command.
abbrev pub Actuated : Io → Command → Device → Runtime → Settings → Type 0
Actuated io cmd d r s =
    (IsReady io.now r
      × IsWithin cmd.verb cmd d.caps s
      × (n : ℤ) × IsTop d.caps s n
      × ((execute io cmd r).0.calls ≡ executed cmd n ∷ r.calls))
    ⊎ (IsShut io.now r × (execute io cmd r ≡ (r, some not_armed)))
    ⊎ (IsReady io.now r
        × ¬ IsWithin cmd.verb cmd d.caps s
        × (e : CapsError) × (check_caps cmd d.caps s ≡ some e)
        × (execute io cmd r ≡ (r, some (refused e))))

settings_of-InForce : (r : Runtime) → InForce r (settings_of r)
settings_of-InForce r = split r.settings refl
  where
    split : (o : Option Settings) → r.settings ≡ o → InForce r (settings_of r)
    split (some s) e = inl (rw e refl)
    split none e = inr (e, rw e refl, unfold default_settings_for in ground (arith, e))

level_max_for-IsTop : (caps : Capabilities) (s : Settings) → IsTop caps s (level_max_for caps s)
unfolding level_max_for
level_max_for-IsTop caps s = ground arith

is_armed-IsReady :
    (now : ℕ) (d : Device) (r : Runtime)
    → r.device ≡ some d
    → (is_armed now r ≡ true) × IsReady now r ⊎ (is_armed now r ≡ false) × IsShut now r
is_armed-IsReady now d r h = split r.arm_deadline refl
  where
    split :
        (o : Option ℕ)
        → r.arm_deadline ≡ o
        → (is_armed now r ≡ true) × IsReady now r ⊎ (is_armed now r ≡ false) × IsShut now r
    split none e = ground (arith, e, h)
    split (some t) e = ground (arith, e, h)

abbrev pub acts : Verb → Bool
acts status = false
acts Caps.release = false
acts v = true

execute_on-acts :
    (v : Verb) (io : Io) (cmd : Command) (d : Device) (r : Runtime)
    → acts v ≡ true
    → execute_on v io cmd d r ≡ actuate io cmd d r
execute_on-acts v io cmd d r h = ground arith

actuated :
    (io : Io) (cmd : Command) (d : Device) (r : Runtime)
    → acts cmd.verb ≡ true
    → r.device ≡ some d
    → execute io cmd r ≡ actuate io cmd d r
unfolding execute
actuated io cmd d r a h = ground (arith, execute_on-acts cmd.verb io cmd d r a)

-- A command that acts on the device held (any but status and release), under the session's
-- settings, or without them under the defaults of the capabilities last told: while the latch is
-- not set and the window is open, a command within the caps is given to the device, once, with the
-- greatest level that the device, the settings and the scale allow, and one outside them changes
-- nothing and returns why; otherwise nothing changes and the error says that the device is not
-- armed.
pub execute-Actuated :
    (io : Io) (cmd : Command) (d : Device) (r : Runtime)
    → acts cmd.verb ≡ true
    → r.device ≡ some d
    → (s : Settings) × InForce r s × Actuated io cmd d r s
execute-Actuated io cmd d r a h = (
  settings_of r,
  settings_of-InForce r,
  elim (is_armed-IsReady io.now d r h) [
    | inr (n, shut) ↦ inr (inl (shut, ground (arith, n, actuated io cmd d r a h)))
    | inl (y, ready) ↦ given y ready (check_caps cmd d.caps (settings_of r)) refl
  ],
)
  where
    given :
        is_armed io.now r ≡ true
        → IsReady io.now r
        → (o : Option CapsError) → check_caps cmd d.caps (settings_of r) ≡ o
        → Actuated io cmd d r (settings_of r)
    given y ready none e = inl (
      ready,
      (check_caps_iff cmd d.caps (settings_of r)).0 e,
      level_max_for d.caps (settings_of r),
      level_max_for-IsTop d.caps (settings_of r),
      ground (arith, e, y, ready, actuated io cmd d r a h),
    )
    given y ready (some x) e = inr (
        inr (
          ready,
          λ w. cc (sym e ∙ (check_caps_iff cmd d.caps (settings_of r)).1 w),
          x,
          e,
          ground (arith, e, y, ready, actuated io cmd d r a h),
        ))
