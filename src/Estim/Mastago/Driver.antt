-- ===== src/Estim/Mastago/Driver.antt =====
-- internal/estim/mastago/driver.go, `Execute`, `Arm`, `RenewArm` and `Close`: what the runtime calls.
use masseuse_camlink.Prelude.{
  ℕ, ◌+◌, ◌-◌, ◌*◌, ◌^◌, ◌/◌, Bool, ◌||◌, Option, none, some, List, ltb, leb, if◌then◌else◌, ℤ, pos,
  negsuc, pos_part, neg_part, leb_ℤ, ltb_ℤ, codes, same_text, min_ℤ, max_ℤ,
}
use masseuse_camlink.Estim.Caps
use masseuse_camlink.Estim.Caps.{Command, Verb, between, is_step, level_delta_cap}
use masseuse_camlink.Estim.Mastago.Codec.{level_max, timer_min_s, mode_allowed}
use masseuse_camlink.Estim.Mastago.Device.{Device, Fault, not_allowed}
use masseuse_camlink.Estim.Mastago.Exchange.{Done, Action, try, raise}
use masseuse_camlink.Estim.Mastago.Commands.{level, set_mode, set_timer}
use masseuse_camlink.Estim.Mastago.Ramp.{Ended, release, ramp}

-- `Result`, beside the error: none is an unset field.
pub record Executed : Type 0 where
  pub mode : Option ℤ
  pub previous_level : Option ℤ
  pub level : Option ℤ
  pub fault : Option Fault

abbrev pub executed : Option Fault → Device → Executed × Device
executed e d = (record { mode = none; previous_level = none; level = none; fault = e }, d)

-- The sum of two ints of 64 bits, the second of which is small.
signed : ℕ → ℕ → ℤ
signed up down = if leb down up then pos (up - down) else negsuc (down - up - 1)

unfoldable pub add_int : ℤ → ℤ → ℤ
unfolding signed
add_int a b =
    let up = pos_part a + pos_part b in
    let down = neg_part a + neg_part b in
    if leb (2 ^ 63 + down) up
    then signed up (down + 2 ^ 64)
    else if ltb (up + 2 ^ 63) down
    then signed (up + 2 ^ 64) down
    else signed up down

abbrev pub ramped : Option ℤ → Option ℤ → Ended × Device → Executed × Device
ramped m before r =
    (record { mode = m; previous_level = before; level = some r.0.level; fault = r.0.fault }, r.1)

abbrev pub top_level : ℤ → ℤ
top_level cap = max_ℤ (pos 0) (min_ℤ cap level_max)

-- `window`, in nanoseconds: at most half an hour.
abbrev pub max_window : ℕ
max_window = 30 * 60 * 10 ^ 9

unfoldable pub window_of : ℤ → ℕ
window_of w = if leb_ℤ w (pos 0) || ltb_ℤ (pos max_window) w then max_window else pos_part w

module _ (parse_volts : List ℕ → Option ℕ) where
  unfoldable pub ramp_with : Option ℤ → Option ℤ → ℤ → Device → Executed × Device
  ramp_with m before target d = ramped m before (ramp parse_volts target d)

  -- After the mode is set: the intensity the session had is brought back.
  unfoldable pub bring_back : ℤ → ℤ → ℤ → Device → Executed × Device
  unfolding ramp_with
  bring_back m before top =
      if ltb_ℤ (pos 0) before then ramp_with (some m) none (min_ℤ before top) else λ d.
      (record { mode = some m; previous_level = none; level = none; fault = none }, d)

  unfoldable pub execute_mode : Option ℤ → ℤ → Device → Executed × Device
  unfolding bring_back
  execute_mode none top = executed (some not_allowed)
  execute_mode (some m) top =
      if mode_allowed m
      then try (level parse_volts) (λ e. executed (some e))
          (λ before.
            try (set_mode parse_volts m) (λ e. executed (some e)) (λ a. bring_back m before top))
      else executed (some not_allowed)

  unfoldable pub execute_level : Option ℤ → ℤ → Device → Executed × Device
  unfolding ramp_with
  execute_level none top = executed (some not_allowed)
  execute_level (some n) top =
      if between (pos 0) top (some n) then ramp_with none none n else executed (some not_allowed)

  unfoldable pub execute_delta : Option ℤ → ℤ → Device → Executed × Device
  unfolding add_int ramp_with
  execute_delta none top = executed (some not_allowed)
  execute_delta (some delta) top =
      if is_step level_delta_cap (some delta)
      then try (level parse_volts) (λ e. executed (some e))
          (λ current.
            ramp_with none (some current) (max_ℤ (pos 0) (min_ℤ (add_int current delta) top)))
      else executed (some not_allowed)

  unfoldable pub execute_verb : Verb → Command → ℤ → Device → Executed × Device
  unfolding execute_mode execute_level execute_delta
  execute_verb Caps.set_mode cmd top = execute_mode cmd.mode top
  execute_verb Caps.set_level cmd top = execute_level cmd.level top
  execute_verb Caps.adjust_level cmd top = execute_delta cmd.delta top
  execute_verb v cmd top = executed (some not_allowed)

  -- `Execute`, given the cap of the runtime.
  unfoldable pub execute : Command → ℤ → Device → Executed × Device
  unfolding execute_verb
  execute cmd cap = execute_verb cmd.verb cmd (top_level cap)

  -- `Arm`, given the driver's window in nanoseconds; and `RenewArm`, given the whole seconds until the
  -- end of the window.
  unfoldable pub arm : List ℕ → ℤ → Action Done
  unfolding set_timer window_of same_text
  arm power window =
      if same_text power (codes "normal") || same_text power (codes "high")
      then set_timer parse_volts (pos (window_of window / 10 ^ 9))
      else raise not_allowed

  unfoldable pub renew_arm : ℤ → Action Done
  unfolding set_timer
  renew_arm seconds = set_timer parse_volts (max_ℤ timer_min_s seconds)

  -- `Device.Close`: whether the outputs are to be restored, and the error of the connection's own end.
  unfoldable pub close : Bool → Option Fault → Device → Option Fault × Device
  unfolding release
  close restore ending d = elim d.link_err [
    | some e ↦ (ending, d)
    | none ↦
        if restore
        then try (release parse_volts) (λ e d'. (some e, d')) (λ a d'. (ending, d')) d
        else (ending, d)
  ]
