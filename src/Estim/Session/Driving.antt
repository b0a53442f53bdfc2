-- ===== src/Estim/Session/Driving.antt =====
-- internal/estim/session.go: what a `Session` does to its Runtime.
use masseuse_camlink.Prelude.{
  ℕ, ◌≡◌, refl, ap, ◌∙◌, Bool, true, false, ◌&&◌, not, Option, none, some, List, [], ◌∷◌, ◌++◌,
  ◌||◌, ◌-◌, ltb, same_text, is_empty, if◌then◌else◌, if_keeps, option_keeps,
}
use masseuse_camlink.Estim.Caps.{Settings}
use masseuse_camlink.Estim.Runtime.State.{
  Runtime, Io, is_armed, is_held, Descriptor, request_cancel, reset_settings,
}
use masseuse_camlink.Estim.Runtime.Release.{release}
use masseuse_camlink.Estim.Runtime.Actuation.{extend_arm}
use masseuse_camlink.Estim.Runtime.Events.{
  Event, cancels, resets, arms, extends, releases, runs, sets, selects, fresh, IsSafe,
}
use masseuse_camlink.Estim.Runtime.Events
use masseuse_camlink.Estim.Runtime.Telemetry.{Ring, Sampled}
use masseuse_camlink.Estim.Session.State.{
  Session, CommandId, Parsed, Message, queue, queue_runtime_state, queue_settings,
}
use masseuse_camlink.Estim.Session.State.{ack_stale, device_message, is_mine}
use masseuse_camlink.Estim.Session.Handle.{
  Selection, Control, companion_attached, device_settings, device_command, device_select, Inbound,
  heartbeat_ack, ignored, control, detach_for, handle, tick, telemetry_tick, device_changed, detach,
  select, is_other, auto_arm, renew_arm, attach, take_command, take_settings, handle_control,
  send_telemetry, queue_some, is_release,
}

-- A run of the Runtime's operations leads from the first to the second.
abbrev pub Leads : Runtime → Runtime → Type 0
Leads r r' = (es : List Event) × (Events.run es r ≡ r')

pub run-append :
    (es fs : List Event) (r : Runtime) → Events.run (es ++ fs) r ≡ Events.run fs (Events.run es r)
unfolding Events.run
run-append [] fs r = refl
run-append (e ∷ es) fs r = run-append es fs (Events.step e r)

pub stays : (r : Runtime) → Leads r r
unfolding Events.run
stays r = ([], refl)

pub by_one : (e : Event) (r : Runtime) → Leads r (Events.step e r)
unfolding Events.run
by_one e r = (e ∷ [], refl)

pub follow : (r s t : Runtime) → Leads r s → Leads s t → Leads r t
follow r s t (es, h) (fs, k) = (es ++ fs, run-append es fs r ∙ ap (Events.run fs) h ∙ k)

pub and : (e : Event) (r s : Runtime) → Leads r s → Leads r (Events.step e s)
and e r s h = follow r s (Events.step e s) h (by_one e s)

-- The session's Runtime is one that a run from `r` leads to.
abbrev pub From : Runtime → Session → Type 0
From r s = Leads r s.runtime

pub queue-From :
    (sid : List ℕ) (telemetry : Bool) (m : Message) (r : Runtime) (s : Session)
    → From r s
    → From r (queue sid telemetry m s)
unfolding queue
queue-From sid telemetry m r s h = h

pub queue_some-From :
    (m : Option Message) (r : Runtime) (s : Session) → From r s → From r (queue_some m s)
unfolding queue
queue_some-From none r s h = h
queue_some-From (some m) r s h = h

pub auto_arm-From : (now : ℕ) (r : Runtime) (s : Session) → From r s → From r (auto_arm now s)
unfolding auto_arm
auto_arm-From now r s h =
    if_keeps (From r) ((not s.attached || s.arming) || is_armed now s.runtime) (λ _. h)
      (λ _. if_keeps (From r) (not (is_held s.runtime.device)) (λ _. h) (λ _. h))

pub detach-From :
    (io : Io) (reason : List ℕ) (tell : Bool) (r : Runtime) (s : Session)
    → From r s
    → From r (detach io reason tell s)
unfolding detach queue Events.step
detach-From io reason tell r s h =
    let k : Leads r (reset_settings (release io (request_cancel s.runtime)).0) =
      and resets r _ (and (releases io) r _ (and cancels r s.runtime h)) in
    if_keeps (From r) (s.attached && tell) (λ _. k) (λ _. k)

renew_arm-From : (io : Io) (r : Runtime) (s : Session) → From r s → From r (renew_arm io s)
unfolding renew_arm Events.step
renew_arm-From io r s h =
    if_keeps (From r) (extend_arm io s.runtime).1 (λ _. and (extends io) r s.runtime h)
      (λ _. auto_arm-From io.now r s h)

pub tick-From : (io : Io) (r : Runtime) (s : Session) → From r s → From r (tick io s)
unfolding tick queue
tick-From io r s h =
    if_keeps (From r) (not s.attached) (λ _. h)
      (λ _.
        if_keeps (From r) (ltb ack_stale (io.now - s.last_ack)) (λ _. detach-From io _ true r s h)
          (λ _. h))

send_telemetry-From :
    (d : Ring Sampled × List Sampled) (r : Runtime) (s : Session)
    → From r s
    → From r (send_telemetry d s)
unfolding queue
send_telemetry-From (ring, []) r s h = h
send_telemetry-From (ring, f ∷ fs) r s h = h

pub telemetry_tick-From : (r : Runtime) (s : Session) → From r s → From r (telemetry_tick s)
unfolding telemetry_tick
telemetry_tick-From r s h = if_keeps (From r) s.attached (λ _. send_telemetry-From _ r s h) (λ _. h)

pub device_changed-From :
    (now : ℕ) (d : Descriptor) (connected : Bool) (units : Option (List (List ℕ))) (r : Runtime)
    (s : Session)
    → From r s
    → From r (device_changed now d connected units s)
unfolding device_changed queue
device_changed-From now d connected units r s h =
    let m = device_message d connected units in
    let k : From r (queue_some m s) = queue_some-From m r s h in
    if_keeps (From r) (not s.attached) (λ _. k)
      (λ _.
        if_keeps (From r) connected
          (λ _. auto_arm-From now r (queue_runtime_state now s.session_id (queue_some m s)) k)
          (λ _. k))

attach-From :
    (now : ℕ) (sid : List ℕ) (r : Runtime) (s : Session) → From r s → From r (attach now sid s)
unfolding attach Events.step queue
attach-From now sid r s h =
    let fresh = not s.attached || not (same_text s.session_id sid) in
    let t : Session = record s {
      session_id = sid;
      attached = true;
      last_ack = now;
      runtime = if fresh then reset_settings s.runtime else s.runtime;
    } in
    auto_arm-From now r (queue_settings sid (queue_runtime_state now sid t))
      (if_keeps (Leads r) fresh (λ _. and resets r s.runtime h) (λ _. h))

take_command-From :
    (envelope sid : List ℕ) (cid : CommandId) (p : Parsed) (r : Runtime) (s : Session)
    → From r s
    → From r (take_command envelope sid cid p s)
unfolding take_command queue Events.step
take_command-From envelope sid cid p r s h =
    if_keeps (From r) (is_other envelope sid s && not (is_release p)) (λ _. h)
      (λ _.
        if_keeps (From r) (is_release p) (λ _. and cancels r s.runtime h)
          (λ _. if_keeps (From r) s.busy (λ _. h) (λ _. h)))

take_settings-From :
    (envelope sid : List ℕ) (settings : Option Settings) (r : Runtime) (s : Session)
    → From r s
    → From r (take_settings envelope sid settings s)
unfolding take_settings queue
take_settings-From envelope sid settings r s h =
    if_keeps (From r) (is_other envelope sid s) (λ _. h)
      (λ _. option_keeps (From r) settings (λ _. h) (λ st _. h))

select-From :
    (choose : Option Selection) (id : List ℕ) (r : Runtime) (s : Session)
    → From r s
    → From r (select choose id s)
unfolding Events.step
select-From none id r s h = h
select-From (some c) id r s h =
    if_keeps (From r) (is_empty id) (λ _. h)
      (λ _. and (selects c.names c.closing c.opening c.found id) r s.runtime h)

handle_control-From :
    (now : ℕ) (choose : Option Selection) (envelope : List ℕ) (c : Control) (r : Runtime)
    (s : Session)
    → From r s
    → From r (handle_control now choose envelope c s)
unfolding handle_control queue
handle_control-From now choose envelope (companion_attached sid) r s h =
    if_keeps (From r)
      (is_empty (if is_empty sid then envelope else sid)
        || (not (is_empty envelope)
            && not (same_text (if is_empty sid then envelope else sid) envelope)))
      (λ _. h) (λ _. attach-From now _ r s h)
handle_control-From now choose envelope (device_settings sid settings) r s h =
    if_keeps (From r) s.attached (λ _. take_settings-From envelope sid settings r s h) (λ _. h)
handle_control-From now choose envelope (device_command sid cid p) r s h =
    if_keeps (From r) s.attached (λ _. take_command-From envelope sid cid p r s h) (λ _. h)
handle_control-From now choose envelope (device_select id) r s h = select-From choose id r s h

pub handle-From :
    (io : Io) (choose : Option Selection) (sid : List ℕ) (m : Inbound) (r : Runtime) (s : Session)
    → From r s
    → From r (handle io choose sid m s)
unfolding handle
handle-From io choose sid heartbeat_ack r s h =
    if_keeps (From r) (is_mine sid s) (λ _. renew_arm-From io r (record s { last_ack = io.now }) h)
      (λ _. h)
handle-From io choose sid (control c) r s h = handle_control-From io.now choose sid c r s h
handle-From io choose sid (detach_for reason) r s h =
    if_keeps (From r) (is_mine sid s) (λ _. detach-From io _ false r s h) (λ _. h)
handle-From io choose sid ignored r s h = h
