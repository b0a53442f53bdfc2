-- ===== src/Estim/Runtime/Actuation.antt =====
-- internal/estim/runtime.go, `Runtime`: arming, and the commands.
use masseuse_camlink.Prelude.{
  ℕ, ◌+◌, Bool, true, false, ◌||◌, not, Option, none, some, ltb, if◌then◌else◌,
}
use masseuse_camlink.Estim.Caps.{
  Capabilities, Settings, PowerMode, level_max_for, Verb, status, set_mode, Command, CapsError,
  check_caps,
}
use masseuse_camlink.Estim.Caps
use masseuse_camlink.Estim.Runtime.State.{
  renew_slack, Fault, good, bad, Device, released, armed, executed, renewed, Runtime, Io, Failure,
  not_connected, not_armed, latched, refused, device_fault, call, is_held, arm_window, is_armed,
  settings_of, clear_arm,
}

-- A failed `Arm`.
abbrev pub arm_failed : Fault → Runtime → Runtime × Option Failure
arm_failed f r = (record (clear_arm r) { cancel = true }, some (device_fault f))

-- `Arm` of a device that is held.
abbrev pub arm_held : Io → Runtime → Runtime × Option Failure
arm_held io r =
    let mode : PowerMode = (settings_of r).power_mode in
    let s : Runtime = call released (record r { cancel = false }) in
    let t : Runtime = call (armed mode) s in
    elim io.release [
      | some f ↦ arm_failed f s
      | none ↦ elim io.arm [
        | some f ↦ arm_failed f t
        | none ↦ elim (io.reading 0) [
          | bad f ↦ arm_failed f t
          | good st ↦ (
            record t {
              last_status = some st;
              arm_deadline = some (io.later + arm_window r);
              renewed_until = some (io.later + arm_window r);
            },
            none,
          )
        ]
      ]
    ]

unfoldable pub arm : Io → Runtime → Runtime × Option Failure
arm io r = if is_held r.device then arm_held io r else (r, some not_connected)

-- `ExtendArm`: false when there is nothing to renew.
unfoldable pub extend_arm : Io → Runtime → Runtime × Bool
extend_arm io r =
    if is_armed io.now r
    then (record r { arm_deadline = some (io.now + arm_window r) }, true)
    else (r, false)

abbrev pub can_renew : Option Device → Bool
can_renew none = false
can_renew (some d) = d.renews

-- Whether the window is less than `renew_slack` ahead of the device's own countdown.
abbrev pub is_close : ℕ → Option ℕ → Bool
is_close deadline none = false
is_close deadline (some u) = ltb deadline (u + renew_slack)

abbrev pub renewed_to : Io → ℕ → Runtime → Runtime
renewed_to io deadline r = elim io.renew [
  | some f ↦ call (renewed deadline) r
  | none ↦
      if is_armed io.later r
      then record (call (renewed deadline) r) { renewed_until = some deadline }
      else call (renewed deadline) r
]

-- `RenewDeviceArm`.
unfoldable pub renew_device_arm : Io → Runtime → Runtime
renew_device_arm io r = if not (is_armed io.now r) then r else elim r.arm_deadline [
  | none ↦ r
  | some deadline ↦
      if is_close deadline r.renewed_until || not (can_renew r.device)
      then r
      else renewed_to io deadline r
]

-- The full reading that ends a command.
abbrev pub then_read : Io → Runtime → Runtime × Option Failure
then_read io r = elim (io.reading 0) [
  | good st ↦ (record r { last_status = some st }, none)
  | bad f ↦ (r, some (device_fault f))
]

-- The verb `release` of `Execute`.
abbrev pub execute_release : Io → Runtime → Runtime × Option Failure
execute_release io r =
    let s : Runtime = call released (clear_arm r) in
    elim io.release [ some f ↦ (s, some (device_fault f)) | none ↦ then_read io s ]

-- The other verbs of `Execute`, on the device `d`.
abbrev pub actuate : Io → Command → Device → Runtime → Runtime × Option Failure
actuate io cmd d r =
    let s : Runtime = call (executed cmd (level_max_for d.caps (settings_of r))) r in
    if not (is_armed io.now r)
    then (r, some not_armed)
    else if r.cancel
    then (r, some latched)
    else elim (check_caps cmd d.caps (settings_of r)) [
      | some e ↦ (r, some (refused e))
      | none ↦ elim io.execute [ some f ↦ (s, some (device_fault f)) | none ↦ then_read io s ]
    ]

abbrev pub execute_on : Verb → Io → Command → Device → Runtime → Runtime × Option Failure
execute_on status io cmd d r = then_read io r
execute_on Caps.release io cmd d r = execute_release io r
execute_on v io cmd d r = actuate io cmd d r

-- `Execute`: its error; the state holds the status it returns.
unfoldable pub execute : Io → Command → Runtime → Runtime × Option Failure
execute io cmd r = elim r.device [
  | none ↦ (r, some not_connected)
  | some d ↦ execute_on cmd.verb io cmd d r
]
