-- ===== src/Estim/Runtime/Events.antt =====
-- internal/estim/runtime.go: a `Runtime` under any sequence of operations, those of its owner and
-- those that `Run` makes on its ticks.
use masseuse_camlink.Prelude.{ℕ, Bool, true, false, Option, none, some, List, [], ◌∷◌, ◌≡◌, ℤ}
use masseuse_camlink.Estim.Caps.{Capabilities, Settings, level_max_for, Command}
use masseuse_camlink.Estim.Within.{IsWithin}
use masseuse_camlink.Estim.Runtime.State.{
  Answer, Device, Call, released, armed, executed, renewed, closed, Runtime, Io, is_held,
  request_cancel, reset_settings, no_caps,
}
use masseuse_camlink.Estim.Runtime.Release.{
  release, set_settings, open_device, close, health_check, release_if_arm_expired,
}
use masseuse_camlink.Estim.Runtime.Actuation.{arm, extend_arm, renew_device_arm, execute}
use masseuse_camlink.Estim.Runtime.Telemetry.{sample}
use masseuse_camlink.Estim.Runtime.Select.{Strings, select_unit}

pub data Event : Type 0 where
  cancels resets : Event
  opens : Io → Option (Answer Device) → Event
  arms extends renews releases expires checks closes : Io → Event
  sets : Io → Settings → Event
  runs : Io → Command → Event
  samples : Bool → Answer (List ℕ) → Event
  selects : Strings → Io → Io → Option (Answer Device) → List ℕ → Event

unfoldable pub step : Event → Runtime → Runtime
step cancels r = request_cancel r
step resets r = reset_settings r
step (opens io found) r = (open_device io found r).0
step (arms io) r = (arm io r).0
step (extends io) r = (extend_arm io r).0
step (renews io) r = renew_device_arm io r
step (releases io) r = (release io r).0
step (expires io) r = (release_if_arm_expired io r).0
step (checks io) r = (health_check io r).0
step (closes io) r = (close io r).0
step (sets io s) r = (set_settings io s r).0
step (runs io cmd) r = (execute io cmd r).0
step (samples busy a) r = (sample busy a r).0
step (selects names io next found unit) r = (select_unit names io next found unit r).0

unfoldable pub run : List Event → Runtime → Runtime
run [] r = r
run (e ∷ es) r = run es (step e r)

-- A runtime before any device, with its `ArmWindow`.
abbrev pub fresh : ℕ → Runtime
fresh window = record {
  window = window;
  device = none;
  cancel = false;
  arm_deadline = none;
  renewed_until = none;
  last_status = none;
  last_error = [];
  last = record { kind = []; label = []; id = []; caps = no_caps; held = false; reason = none };
  settings = none;
  frames = 0;
  gaps = 0;
  read_errors = 0;
  calls = [];
}

-- Whether the calls so far, newest first, leave the device armed: it has been armed, and neither
-- released nor closed since.
abbrev pub powered : List Call → Bool
powered [] = false
powered (released ∷ cs) = false
powered (armed mode ∷ cs) = true
powered (executed cmd n ∷ cs) = powered cs
powered (renewed t ∷ cs) = powered cs
powered (closed restore ∷ cs) = false

-- A command that the caps of some device and some session allow, under their level maximum.
abbrev pub IsAllowed : Command → ℤ → Type 0
IsAllowed cmd n =
    (caps : Capabilities) × (settings : Settings) × IsWithin cmd.verb cmd caps settings
    × (n ≡ level_max_for caps settings)

-- Every command and every renewal reached a device that was armed, and every command was allowed.
abbrev pub IsSafe : List Call → Type 0
IsSafe [] = Unit
IsSafe (released ∷ cs) = IsSafe cs
IsSafe (armed mode ∷ cs) = IsSafe cs
IsSafe (executed cmd n ∷ cs) = (powered cs ≡ true) × IsAllowed cmd n × IsSafe cs
IsSafe (renewed t ∷ cs) = (powered cs ≡ true) × IsSafe cs
IsSafe (closed restore ∷ cs) = IsSafe cs

abbrev pub is_set : Option ℕ → Bool
is_set none = false
is_set (some t) = true

-- The calls were safe; under an open window the device is armed; and only a device that is held has
-- an open window.
pub record Inv (r : Runtime) : Type 0 where
  pub safe : IsSafe r.calls
  pub armed_if : is_set r.arm_deadline ≡ true → powered r.calls ≡ true
  pub held_if : is_set r.arm_deadline ≡ true → is_held r.device ≡ true
