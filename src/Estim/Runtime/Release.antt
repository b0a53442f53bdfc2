-- ===== src/Estim/Runtime/Release.antt =====
-- internal/estim/runtime.go, `Runtime`: taking a device, and letting it go. An operation runs as a
-- whole, as the source holds `dev` for it. The driver is not modelled: `Io` says what it answers.
use masseuse_camlink.Prelude.{
  ℕ, zero, suc, Bool, true, false, ◌&&◌, ◌||◌, not, Option, none, some, [], ◌-◌, ltb, if◌then◌else◌,
  ℤ, pos, ltb_ℤ,
}
use masseuse_camlink.Estim.Caps.{Settings, validate, same_mode, same_settings}
use masseuse_camlink.Estim.Runtime.State.{
  health_tries_released, health_tries_armed, Status, Fault, Answer, good, bad, Device, released,
  closed, Runtime, Io, Failure, no_way, invalid, device_fault, call, is_held, is_armed, settings_of,
  status_of, clear_arm, request_cancel, take_text, loss_reason,
}

-- `fault`: the device is forgotten, and every field of the status that safety rests on is null.
unfoldable pub fault : Fault → Runtime → Runtime
fault f r = record (clear_arm r) {
  cancel = true;
  device = none;
  last_error = take_text 300 f.text;
  last = record (r.last) { reason = some (loss_reason f) };
  last_status = some (record {
    connected = false;
    port = (status_of r).port;
    mode = (status_of r).mode;
    level_a = none;
    level_b = none;
    power = (status_of r).power;
    adc_override = none;
    ma_pot_override = none;
    error = some (take_text 300 f.text);
    battery_percent = none;
    level_ma = none;
    ma_min = none;
    ma_max = none;
    ma_percent = none;
    routine = none;
    outputting = none;
    load_detected = none;
    timer_remaining_s = none;
  });
}

-- A release or the reading after it failed, in `Release`.
unfoldable pub give_up : Io → Fault → Runtime → Runtime × Option Failure
unfolding fault
give_up io f r =
    if io.ctx_ended
    then (r, some (device_fault f))
    else (call (closed false) (fault f r), some (device_fault f))

-- `Release` of a device that is held: the latch first, then the outputs.
unfoldable pub release_held : Io → Runtime → Runtime × Option Failure
unfolding request_cancel give_up
release_held io r =
    let s : Runtime = call released (clear_arm (request_cancel r)) in
    elim io.release [
      | some f ↦ give_up io f s
      | none ↦ elim (io.reading 0) [
        | good st ↦ (record s { last_status = some st }, none)
        | bad f ↦ give_up io f s
      ]
    ]

unfoldable pub release : Io → Runtime → Runtime × Option Failure
unfolding release_held request_cancel
release io r = if is_held r.device then release_held io r else (clear_arm (request_cancel r), none)

abbrev pub level_now : Option Status → ℤ
level_now none = pos 0
level_now (some st) = elim st.level_a [ none ↦ pos 0 | some n ↦ n ]

-- Whether `SetSettings` applies a change as it is.
abbrev pub applies_silently : ℕ → Settings → Runtime → Bool
applies_silently now s r =
    let prev : Settings = settings_of r in
    (same_settings prev s || not (is_armed now r))
    || (same_mode prev.power_mode s.power_mode && not (ltb_ℤ s.level_max (level_now r.last_status)))

-- `SetSettings`: whether it released the device, and its error.
unfoldable pub set_settings : Io → Settings → Runtime → Runtime × Bool × Option Failure
unfolding release
set_settings io s r =
    let t : Runtime = record r { settings = some s } in
    let u : Runtime × Option Failure = release io t in
    elim (validate s) [
      | some e ↦ (r, false, some invalid)
      | none ↦ if applies_silently io.now s r then (t, false, none) else (u.0, true, u.1)
    ]

-- What `Open` does once a device is found.
abbrev pub opened : Io → Device → Runtime → Runtime × Option Failure
opened io d r =
    let gone : Runtime = call (closed true) (call released r) in
    elim io.release [
      | some f ↦ (gone, some (device_fault f))
      | none ↦ elim (io.reading 0) [
        | bad f ↦ (gone, some (device_fault f))
        | good st ↦ (
          record (call released r) {
            device = some d;
            last_status = some st;
            last_error = [];
            last = record {
              kind = d.kind;
              label = d.label;
              id = d.port;
              caps = d.caps;
              held = d.held;
              reason = none;
            };
          },
          none,
        )
      ]
    ]

-- `Open`, with what `Connect` answers if there is one.
unfoldable pub open_device : Io → Option (Answer Device) → Runtime → Runtime × Option Failure
open_device io found r = if is_held r.device then (r, none) else elim found [
  | none ↦ (r, some no_way)
  | some a ↦ elim a [ bad f ↦ (r, some (device_fault f)) | good d ↦ opened io d r ]
]

abbrev pub zeroed : Status → Status
zeroed st = record st {
  connected = false;
  level_a = some (pos 0);
  level_b = some (pos 0);
  adc_override = some false;
  ma_pot_override = some false;
}

abbrev pub zero_status : Option Status → Option Status
zero_status none = none
zero_status (some st) = some (zeroed st)

-- `Close`.
unfoldable pub close : Io → Runtime → Runtime × Option Failure
unfolding request_cancel
close io r = if not (is_held r.device) then (request_cancel r, none) else (
  record (call (closed true) (clear_arm (request_cancel r))) {
    device = none;
    last_status = zero_status r.last_status;
  },
  elim io.close [ none ↦ none | some f ↦ some (device_fault f) ],
)

-- The readings of `HealthCheck`, from attempt `k` on with `n` left after it.
unfoldable pub read_tries : ℕ → ℕ → Io → Answer Status
read_tries zero k io = io.reading k
read_tries (suc n) k io =
    let rest = read_tries n (suc k) io in
    elim (io.reading k) [ good st ↦ good st | bad f ↦ if io.ctx_ended then bad f else rest ]

abbrev pub tries : ℕ → Runtime → ℕ
tries now r = if is_armed now r then health_tries_armed else health_tries_released

-- `HealthCheck`: whether a device is held afterwards.
unfoldable pub health_check : Io → Runtime → Runtime × Bool
unfolding fault read_tries
health_check io r =
    if not (is_held r.device) then (r, false) else elim (read_tries (tries io.now r - 1) 0 io) [
      | good st ↦ (record r { last_status = some st }, true)
      | bad f ↦
          if io.ctx_ended
          then (r, true)
          else (call (closed false) (call released (fault f r)), false)
    ]

-- `ReleaseIfArmExpired`: whether the window has run out.
unfoldable pub release_if_arm_expired : Io → Runtime → Runtime × Bool
unfolding release
release_if_arm_expired io r = elim r.arm_deadline [
  | none ↦ (r, false)
  | some d ↦ if ltb io.now d then (r, false) else ((release io r).0, true)
]
