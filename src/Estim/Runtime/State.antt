-- ===== src/Estim/Runtime/State.antt =====
-- internal/estim/runtime.go, `Runtime`: the state of one device, held fail-closed, and its readers.
-- Instants are nanoseconds of the monotonic clock; `none` is the zero time. A window of 0 stands for
-- every one that is not positive.
use masseuse_camlink.Prelude.{
  ℕ, zero, suc, ◌==◌, Bool, true, false, ◌&&◌, ◌||◌, not, Option, none, some, List, [], ◌∷◌, ltb,
  if◌then◌else◌, ℤ, pos, codes,
}
use masseuse_camlink.Estim.Caps.{
  PowerMode, Capabilities, Settings, default_settings_for, Command, CapsError,
}

-- Durations in nanoseconds: 30 minutes and 1 minute.
abbrev pub max_arm_window : ℕ
max_arm_window = 1_800_000_000_000

abbrev pub renew_slack : ℕ
renew_slack = 60_000_000_000

-- Readings that a released device is given, and an armed one.
abbrev pub health_tries_released : ℕ
health_tries_released = 3

abbrev pub health_tries_armed : ℕ
health_tries_armed = 2

-- A reading. `none` is null; `routine` stands for the `RoutineState`.
pub record Status : Type 0 where
  pub connected : Bool
  pub port : Option (List ℕ)
  pub mode : Option ℤ
  pub level_a : Option ℤ
  pub level_b : Option ℤ
  pub power : Option (List ℕ)
  pub adc_override : Option Bool
  pub ma_pot_override : Option Bool
  pub error : Option (List ℕ)
  pub battery_percent : Option ℤ
  pub level_ma : Option ℤ
  pub ma_min : Option ℤ
  pub ma_max : Option ℤ
  pub ma_percent : Option ℤ
  pub routine : Option (List ℕ)
  pub outputting : Option Bool
  pub load_detected : Option Bool
  pub timer_remaining_s : Option ℤ

abbrev pub disconnected_status : Status
disconnected_status = record {
  connected = false;
  port = none;
  mode = none;
  level_a = some (pos 0);
  level_b = some (pos 0);
  power = none;
  adc_override = some false;
  ma_pot_override = some false;
  error = none;
  battery_percent = none;
  level_ma = none;
  ma_min = none;
  ma_max = none;
  ma_percent = none;
  routine = none;
  outputting = none;
  load_detected = none;
  timer_remaining_s = none;
}

-- A driver's error: its text, and the reason code of a LossError with one.
pub record Fault : Type 0 where
  pub text : List ℕ
  pub loss : Option (List ℕ)

pub data Answer {ℓ} (A : Type ℓ) : Type ℓ where
  good : A → Answer A
  bad : Fault → Answer A

-- What is known of a device that is held.
pub record Device : Type 0 where
  pub kind : List ℕ
  pub label : List ℕ
  pub port : List ℕ
  pub caps : Capabilities
  pub held : Bool
  -- It is an ArmRenewer.
  pub renews : Bool

-- The descriptor that the service is told, less its `Connected`.
pub record Descriptor : Type 0 where
  pub kind : List ℕ
  pub label : List ℕ
  pub id : List ℕ
  pub caps : Capabilities
  pub held : Bool
  pub reason : Option (List ℕ)

abbrev pub no_caps : Capabilities
no_caps = record {
  level_max = pos 0;
  modes = [];
  tempo = false;
  power_modes = [];
  level_max_default = pos 0;
}

-- Calls of the driver that act on the device.
pub data Call : Type 0 where
  released : Call
  armed : PowerMode → Call
  executed : Command → ℤ → Call
  renewed : ℕ → Call
  closed : Bool → Call

pub record Runtime : Type 0 where
  pub window : ℕ  -- ArmWindow
  pub device : Option Device
  pub cancel : Bool
  pub arm_deadline : Option ℕ
  pub renewed_until : Option ℕ
  pub last_status : Option Status
  pub last_error : List ℕ
  pub last : Descriptor
  pub settings : Option Settings
  -- Telemetry statistics.
  pub frames : ℕ
  pub gaps : ℕ
  pub read_errors : ℕ
  -- The driver's calls so far, newest first.
  pub calls : List Call

-- What one operation meets: the time when it looks first, and after its calls of the driver; whether
-- its context has ended; the driver's errors; and the answers to its successive full readings.
pub record Io : Type 0 where
  pub now : ℕ
  pub later : ℕ
  pub ctx_ended : Bool
  pub release : Option Fault
  pub arm : Option Fault
  pub execute : Option Fault
  pub renew : Option Fault
  pub close : Option Fault
  pub reading : ℕ → Answer Status

pub data Failure : Type 0 where
  not_connected not_armed latched no_way invalid no_choosing still_armed : Failure
  refused : CapsError → Failure
  device_fault : Fault → Failure

abbrev pub call : Call → Runtime → Runtime
call c r = record r { calls = c ∷ r.calls }

abbrev pub is_held : Option Device → Bool
is_held none = false
is_held (some d) = true

-- `window`.
abbrev pub arm_window : Runtime → ℕ
arm_window r = if r.window == 0 || ltb max_arm_window r.window then max_arm_window else r.window

abbrev pub is_before : ℕ → Option ℕ → Bool
is_before now none = false
is_before now (some d) = ltb now d

-- `armedLocked`.
abbrev pub is_armed : ℕ → Runtime → Bool
is_armed now r = is_held r.device && is_before now r.arm_deadline && not r.cancel

-- `settingsLocked`.
abbrev pub settings_of : Runtime → Settings
settings_of r = elim r.settings [ none ↦ default_settings_for r.last.caps | some s ↦ s ]

-- `LastStatus`.
abbrev pub status_of : Runtime → Status
status_of r = elim r.last_status [ none ↦ disconnected_status | some s ↦ s ]

abbrev pub clear_arm : Runtime → Runtime
clear_arm r = record r { arm_deadline = none; renewed_until = none }

unfoldable pub request_cancel : Runtime → Runtime
request_cancel r = record r { cancel = true }

unfoldable pub reset_settings : Runtime → Runtime
reset_settings r = record r { settings = none }

-- A string cut to 300 bytes.
abbrev pub take_text : ℕ → List ℕ → List ℕ
take_text zero s = []
take_text (suc n) [] = []
take_text (suc n) (c ∷ s) = c ∷ take_text n s

-- The code of a device that stopped answering.
abbrev pub loss_reason : Fault → List ℕ
loss_reason f = elim f.loss [ none ↦ codes "stopped_answering" | some code ↦ code ]
