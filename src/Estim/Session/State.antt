-- ===== src/Estim/Session/State.antt =====
-- internal/estim/session.go, `Session`: its state, its messages, and what it queues. Instants are
-- nanoseconds. Error texts of the Runtime are its `Failure`s, and the goroutines that a message has
-- started and that have not run yet are `tasks`.
use masseuse_camlink.Prelude.{
  ℕ, Bool, false, ◌&&◌, ◌||◌, Option, none, some, List, [], ◌∷◌, ◌++◌, if◌then◌else◌, same_text,
  is_empty,
}
use masseuse_camlink.Estim.Caps.{Capabilities, Settings, Command}
use masseuse_camlink.Estim.Runtime.State.{
  Status, Descriptor, Runtime, Failure, is_armed, settings_of, status_of,
}
use masseuse_camlink.Estim.Runtime.Telemetry.{Ring, Sampled}
use masseuse_camlink.Estim.Session.Outbox.{Queued, trim}

abbrev pub ack_stale : ℕ
ack_stale = 15_000_000_000

abbrev pub telemetry_max_batch : ℕ
telemetry_max_batch = 32

-- `commandId`, which may be anything.
pub data CommandId : Type 0 where
  text json : List ℕ → CommandId

-- A command of the service: parsed, or why not.
pub data Parsed : Type 0 where
  parsed : Command → Parsed
  unparsed : List ℕ → Parsed

-- `device_ack.code`.
pub data Nack : Type 0 where
  busy no_session session_mismatch malformed : Nack

-- The `device` report; `units` are the units in reach, opaque, where some have been listed.
pub record Report : Type 0 where
  pub kind : List ℕ
  pub label : List ℕ
  pub connected : Bool
  pub caps : Capabilities
  pub id : Option (List ℕ)
  pub held : Bool
  pub reason : Option (List ℕ)
  pub units : Option (List (List ℕ))

-- The messages to the service.
pub data Message : Type 0 where
  device : Report → Message
  device_status : Status → Message
  arm_state : Bool → Option ℕ → Message
  device_settings : Settings → Message
  device_telemetry : List Sampled → Message
  heartbeat : Message
  detached : List ℕ → Message
  nack : CommandId → Nack → Status → Message
  bad_command : CommandId → List ℕ → Status → Message
  ack : List ℕ → Status → Message
  failed : List ℕ → Failure → Status → Message

pub data Task : Type 0 where
  arms : List ℕ → Task
  runs : List ℕ → CommandId → Parsed → Task
  applies : List ℕ → Settings → Task

pub record Session : Type 0 where
  pub runtime : Runtime
  pub telemetry : Ring Sampled
  pub session_id : List ℕ
  pub attached : Bool
  pub last_ack : ℕ
  pub busy : Bool
  pub arming : Bool
  pub last_deferral : Option Failure
  pub outbox : List (Queued Message)
  pub tasks : List Task

-- `queue`.
unfoldable pub queue : List ℕ → Bool → Message → Session → Session
queue sid telemetry m s = record s {
  outbox =
      trim (s.outbox ++ (record { session_id = sid; message = m; telemetry = telemetry }) ∷ []);
}

-- `ArmedUntil`.
abbrev pub armed_until : ℕ → Runtime → Option ℕ
armed_until now r = if is_armed now r then r.arm_deadline else none

-- `queueRuntimeState`.
abbrev pub queue_runtime_state : ℕ → List ℕ → Session → Session
queue_runtime_state now sid s =
    queue sid false (arm_state (is_armed now s.runtime) (armed_until now s.runtime))
      (queue sid false (device_status (status_of s.runtime)) s)

-- `queueSettings`.
abbrev pub queue_settings : List ℕ → Session → Session
queue_settings sid s = queue sid false (device_settings (settings_of s.runtime)) s

-- `queueNack`.
abbrev pub queue_nack : List ℕ → CommandId → Nack → Session → Session
queue_nack sid cid code s = queue sid false (nack cid code (status_of s.runtime)) s

abbrev pub unless_empty : List ℕ → Option (List ℕ)
unless_empty s = if is_empty s then none else some s

abbrev pub or_empty : Option (List ℕ) → List ℕ
or_empty none = []
or_empty (some s) = s

-- `deviceMessage`, of a descriptor and of whether it says that the device is connected.
unfoldable pub device_message : Descriptor → Bool → Option (List (List ℕ)) → Option Message
device_message d connected units =
    if is_empty d.kind
    then none
    else some (
        device (record {
          kind = d.kind;
          label = d.label;
          connected = connected;
          caps = d.caps;
          id = unless_empty d.id;
          held = d.held;
          reason = if connected then none else unless_empty (or_empty d.reason);
          units = units;
        }))

abbrev pub is_mine : List ℕ → Session → Bool
is_mine sid s = s.attached && (is_empty sid || same_text sid s.session_id)
