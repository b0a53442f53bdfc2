-- ===== src/Estim/Session/Handle.antt =====
-- internal/estim/session.go, `Session`: attaching, detaching, arming, and the service's messages.
use masseuse_camlink.Prelude.{
  ℕ, ◌-◌, Bool, true, false, ◌&&◌, ◌||◌, not, Option, none, some, List, [], ◌∷◌, ◌++◌, ltb,
  if◌then◌else◌, same_text, is_empty, codes,
}
use masseuse_camlink.Estim.Caps.{Verb, Settings, Command}
use masseuse_camlink.Estim.Caps
use masseuse_camlink.Estim.Runtime.State.{
  Descriptor, Runtime, Io, not_connected, Answer, Device, is_held, is_armed, request_cancel,
  reset_settings,
}
use masseuse_camlink.Estim.Runtime.Release.{release}
use masseuse_camlink.Estim.Runtime.Actuation.{extend_arm}
use masseuse_camlink.Estim.Runtime.Telemetry.{Ring, Sampled, drain}
use masseuse_camlink.Estim.Runtime.Select.{Strings, select_unit}
use masseuse_camlink.Estim.Session.State.{
  ack_stale, telemetry_max_batch, CommandId, Parsed, parsed, unparsed, busy, no_session,
  session_mismatch, Message, device_telemetry, heartbeat, detached, Task, arms, runs, applies,
  Session, queue, queue_runtime_state, queue_settings, queue_nack, device_message, is_mine,
}

-- What a message meets: what its call of the Runtime does, and what `Select` does if there is one.
pub record Selection : Type 0 where
  pub names : Strings
  pub closing : Io
  pub opening : Io
  pub found : Option (Answer Device)

pub data Control : Type 0 where
  companion_attached : List ℕ → Control
  -- `none`: settings that do not parse.
  device_settings : List ℕ → Option Settings → Control
  device_command : List ℕ → CommandId → Parsed → Control
  device_select : List ℕ → Control

-- A message of the service; `ignored` is every other one, and what does not parse.
pub data Inbound : Type 0 where
  heartbeat_ack ignored : Inbound
  control : Control → Inbound
  detach_for : List ℕ → Inbound

-- `detach`.
unfoldable pub detach : Io → List ℕ → Bool → Session → Session
detach io reason tell s =
    let t : Session = record s {
      attached = false;
      runtime = reset_settings (release io (request_cancel s.runtime)).0;
    } in
    if s.attached && tell then queue s.session_id false (detached reason) t else t

-- `autoArm`: the arming is a task.
unfoldable pub auto_arm : ℕ → Session → Session
auto_arm now s =
    if (not s.attached || s.arming) || is_armed now s.runtime
    then s
    else if not (is_held s.runtime.device)
    then record s { last_deferral = some not_connected }
    else record s { arming = true; tasks = s.tasks ++ arms s.session_id ∷ [] }

-- `renewArm`.
unfoldable pub renew_arm : Io → Session → Session
unfolding auto_arm
renew_arm io s =
    let r : Runtime × Bool = extend_arm io s.runtime in
    if r.1 then record s { runtime = r.0 } else auto_arm io.now s

-- `heartbeat`.
unfoldable pub tick : Io → Session → Session
unfolding detach
tick io s =
    if not s.attached
    then s
    else if ltb ack_stale (io.now - s.last_ack)
    then detach io (codes "server_heartbeat_stale") true s
    else queue_runtime_state io.now s.session_id (queue s.session_id false heartbeat s)

abbrev pub send_telemetry : Ring Sampled × List Sampled → Session → Session
send_telemetry (ring, []) s = s
send_telemetry (ring, f ∷ fs) s =
    queue s.session_id true (device_telemetry (f ∷ fs)) (record s { telemetry = ring })

-- `telemetryTick`.
unfoldable pub telemetry_tick : Session → Session
telemetry_tick s =
    if s.attached then send_telemetry (drain telemetry_max_batch s.telemetry) s else s

abbrev pub queue_some : Option Message → Session → Session
queue_some none s = s
queue_some (some m) s = queue [] false m s

-- `DeviceChanged`.
unfoldable pub device_changed : ℕ → Descriptor → Bool → Option (List (List ℕ)) → Session → Session
unfolding auto_arm device_message
device_changed now d connected units s =
    let t : Session = queue_some (device_message d connected units) s in
    if not s.attached
    then t
    else if connected
    then auto_arm now (queue_runtime_state now s.session_id t)
    else queue_runtime_state now s.session_id t

-- `UnitsChanged`.
unfoldable pub units_changed : Option (List (List ℕ)) → Session → Session
unfolding device_message
units_changed units s =
    queue_some (device_message s.runtime.last (is_held s.runtime.device) units) s

-- `companion_attached` for a session id that is usable.
unfoldable pub attach : ℕ → List ℕ → Session → Session
unfolding auto_arm
attach now sid s =
    let fresh = not s.attached || not (same_text s.session_id sid) in
    let t : Session = record s {
      session_id = sid;
      attached = true;
      last_ack = now;
      runtime = if fresh then reset_settings s.runtime else s.runtime;
    } in
    auto_arm now (queue_settings sid (queue_runtime_state now sid t))

abbrev pub is_release_verb : Verb → Bool
is_release_verb Caps.release = true
is_release_verb v = false

abbrev pub is_release : Parsed → Bool
is_release (parsed cmd) = is_release_verb cmd.verb
is_release (unparsed e) = false

-- Whether a message for the session `sid`, in an envelope for `envelope`, is not for the attached one.
abbrev pub is_other : List ℕ → List ℕ → Session → Bool
is_other envelope sid s =
    not (same_text sid s.session_id)
    || (not (is_empty envelope) && not (same_text envelope s.session_id))

abbrev pub spawn : Task → Session → Session
spawn t s = record s { tasks = s.tasks ++ t ∷ [] }

-- `device_command` while a session is attached.
unfoldable pub take_command : List ℕ → List ℕ → CommandId → Parsed → Session → Session
take_command envelope sid cid p s =
    if is_other envelope sid s && not (is_release p)
    then queue_nack s.session_id cid session_mismatch s
    else if is_release p
    then spawn (runs s.session_id cid p) (record s { runtime = request_cancel s.runtime })
    else if s.busy
    then queue_nack s.session_id cid busy s
    else spawn (runs s.session_id cid p) (record s { busy = true })

-- `device_settings` while a session is attached.
unfoldable pub take_settings : List ℕ → List ℕ → Option Settings → Session → Session
take_settings envelope sid settings s = if is_other envelope sid s then s else elim settings [
  | none ↦ queue_settings s.session_id s
  | some st ↦ spawn (applies s.session_id st) s
]

abbrev pub select : Option Selection → List ℕ → Session → Session
select none id s = s
select (some c) id s =
    if is_empty id
    then s
    else record s { runtime = (select_unit c.names c.closing c.opening c.found id s.runtime).0 }

abbrev pub attach_control : ℕ → List ℕ → List ℕ → Session → Session
attach_control now envelope sid s =
    let id = if is_empty sid then envelope else sid in
    if is_empty id || (not (is_empty envelope) && not (same_text id envelope))
    then s
    else attach now id s

-- `handleControl`.
unfoldable pub handle_control : ℕ → Option Selection → List ℕ → Control → Session → Session
unfolding attach take_command take_settings
handle_control now choose envelope (companion_attached sid) s = attach_control now envelope sid s
handle_control now choose envelope (device_settings sid settings) s =
    if s.attached then take_settings envelope sid settings s else s
handle_control now choose envelope (device_command sid cid p) s =
    if s.attached then take_command envelope sid cid p s else queue_nack envelope cid no_session s
handle_control now choose envelope (device_select id) s = select choose id s

abbrev pub or_default : List ℕ → List ℕ
or_default reason = if is_empty reason then codes "service_detached" else reason

-- `Handle`.
unfoldable pub handle : Io → Option Selection → List ℕ → Inbound → Session → Session
unfolding handle_control detach renew_arm
handle io choose sid heartbeat_ack s =
    let t : Session = record s { last_ack = io.now } in if is_mine sid s then renew_arm io t else t
handle io choose sid (control c) s = handle_control io.now choose sid c s
handle io choose sid (detach_for reason) s =
    if is_mine sid s then detach io (or_default reason) false s else s
handle io choose sid ignored s = s
