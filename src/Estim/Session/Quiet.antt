-- ===== src/Estim/Session/Quiet.antt =====
-- internal/estim/session.go: what happens when the service goes quiet.
use masseuse_camlink.Prelude.{
  ℕ, ◌≡◌, refl, ◌∙◌, Bool, true, false, not, Option, none, some, List, [], ◌∷◌, if_keeps,
  option_keeps, arith, codes,
}
use masseuse_camlink.Estim.Caps.{Settings}
use masseuse_camlink.Estim.Runtime.State.{Io, Descriptor, is_held}
use masseuse_camlink.Estim.Runtime.Release.{set_settings}
use masseuse_camlink.Estim.Runtime.Telemetry.{Ring, Sampled}
use masseuse_camlink.Estim.Session.State.{
  Session, Task, arms, runs, applies, CommandId, text, json, Parsed, parsed, unparsed, Message,
  queue, queue_runtime_state, queue_settings, device_message,
}
use masseuse_camlink.Estim.Session.Handle.{
  Selection, companion_attached, device_settings, device_command, device_select, Inbound,
  heartbeat_ack, ignored, control, detach_for, handle, tick, telemetry_tick, device_changed,
  units_changed, detach, select, or_default, auto_arm, take_command, take_settings, handle_control,
  send_telemetry, queue_some,
}
use masseuse_camlink.Estim.Session.Tasks.{
  run_some, run_task, run_arm, apply_settings, run_command, run_execute, pick,
}
use masseuse_camlink.Estim.Session.Flush.{
  Messages, Sent, sent, refused, session_gone, send_failed, send_next,
}
use masseuse_camlink.Estim.Session.Steps.{
  Step, handles, ticks, ticks_telemetry, flushes, offers, changes, lists, detaches, proceeds, sends,
  operates, session_step,
}

-- Not an acknowledgment of a heartbeat, and no attachment.
abbrev pub IsQuietMessage : Inbound → Type 0
IsQuietMessage heartbeat_ack = ⊥
IsQuietMessage (control (companion_attached sid)) = ⊥
IsQuietMessage m = Unit

abbrev pub IsQuiet : Step → Type 0
IsQuiet (handles io choose sid m) = IsQuietMessage m
IsQuiet e = Unit

detach-last_ack :
    (io : Io) (reason : List ℕ) (tell : Bool) (s : Session)
    → (detach io reason tell s).last_ack ≡ s.last_ack
unfolding detach queue
detach-last_ack io reason tell s = ground arith

auto_arm-last_ack : (now : ℕ) (s : Session) → (auto_arm now s).last_ack ≡ s.last_ack
unfolding auto_arm
auto_arm-last_ack now s = ground arith

tick-last_ack : (io : Io) (s : Session) → (tick io s).last_ack ≡ s.last_ack
unfolding tick queue
tick-last_ack io s = ground (arith, detach-last_ack io (codes "server_heartbeat_stale") true s)

send_telemetry-last_ack :
    (d : Ring Sampled × List Sampled) (s : Session) → (send_telemetry d s).last_ack ≡ s.last_ack
unfolding queue
send_telemetry-last_ack (ring, []) s = refl
send_telemetry-last_ack (ring, f ∷ fs) s = refl

telemetry_tick-last_ack : (s : Session) → (telemetry_tick s).last_ack ≡ s.last_ack
unfolding telemetry_tick
telemetry_tick-last_ack s =
    if_keeps (λ (t : Session). t.last_ack ≡ s.last_ack) s.attached
      (λ _. send_telemetry-last_ack _ s) (λ _. refl)

queue_some-last_ack : (m : Option Message) (s : Session) → (queue_some m s).last_ack ≡ s.last_ack
unfolding queue
queue_some-last_ack none s = refl
queue_some-last_ack (some m) s = refl

device_changed-last_ack :
    (now : ℕ) (d : Descriptor) (connected : Bool) (units : Option (List (List ℕ))) (s : Session)
    → (device_changed now d connected units s).last_ack ≡ s.last_ack
unfolding device_changed queue
device_changed-last_ack now d connected units s =
    let t : Session = queue_some (device_message d connected units) s in
    let h : t.last_ack ≡ s.last_ack = queue_some-last_ack (device_message d connected units) s in
    if_keeps (λ (u : Session). u.last_ack ≡ s.last_ack) (not s.attached) (λ _. h)
      (λ _.
        if_keeps (λ (u : Session). u.last_ack ≡ s.last_ack) connected
          (λ _. auto_arm-last_ack now (queue_runtime_state now s.session_id t) ∙ h) (λ _. h))

take_command-last_ack :
    (envelope sid : List ℕ) (cid : CommandId) (p : Parsed) (s : Session)
    → (take_command envelope sid cid p s).last_ack ≡ s.last_ack
unfolding take_command queue
take_command-last_ack envelope sid cid p s = ground arith

take_settings-last_ack :
    (envelope sid : List ℕ) (settings : Option Settings) (s : Session)
    → (take_settings envelope sid settings s).last_ack ≡ s.last_ack
unfolding take_settings queue
take_settings-last_ack envelope sid settings s = ground arith

select-last_ack :
    (choose : Option Selection) (id : List ℕ) (s : Session)
    → (select choose id s).last_ack ≡ s.last_ack
select-last_ack none id s = refl
select-last_ack (some c) id s = ground arith

handle-last_ack :
    (io : Io) (choose : Option Selection) (sid : List ℕ) (m : Inbound)
    → IsQuietMessage m
    → (s : Session) → (handle io choose sid m s).last_ack ≡ s.last_ack
unfolding handle handle_control queue
handle-last_ack io choose sid heartbeat_ack q s = absurd q
handle-last_ack io choose sid (control (companion_attached id)) q s = absurd q
handle-last_ack io choose sid (control (device_settings id settings)) q s =
    ground (arith, take_settings-last_ack sid id settings s)
handle-last_ack io choose sid (control (device_command id cid p)) q s =
    ground (arith, take_command-last_ack sid id cid p s)
handle-last_ack io choose sid (control (device_select id)) q s = select-last_ack choose id s
handle-last_ack io choose sid (detach_for reason) q s =
    ground (arith, detach-last_ack io (or_default reason) false s)
handle-last_ack io choose sid ignored q s = refl

run_task-last_ack :
    (io next : Io) (t : Task) (s : Session) → (run_task io next t s).last_ack ≡ s.last_ack
unfolding run_task run_command run_execute run_arm apply_settings queue
run_task-last_ack io next (arms sid) s = ground arith
run_task-last_ack io next (runs sid (text cid) (parsed cmd)) s = ground arith
run_task-last_ack io next (runs sid (json cid) (parsed cmd)) s = ground arith
run_task-last_ack io next (runs sid (text cid) (unparsed e)) s = refl
run_task-last_ack io next (runs sid (json cid) (unparsed e)) s = refl
run_task-last_ack io next (applies sid settings) s =
    let t : Session = record s { runtime = (set_settings io settings s.runtime).0 } in
    ground
      (arith, auto_arm-last_ack io.later (queue_runtime_state io.later sid (queue_settings sid t)))

pub session_step-last_ack :
    (e : Step) → IsQuiet e → (s : Session) → (session_step e s).last_ack ≡ s.last_ack
unfolding session_step units_changed run_some
session_step-last_ack (handles io choose sid m) q s = handle-last_ack io choose sid m q s
session_step-last_ack (ticks io) q s = tick-last_ack io s
session_step-last_ack ticks_telemetry q s = telemetry_tick-last_ack s
session_step-last_ack flushes q s = refl
session_step-last_ack (offers f) q s = refl
session_step-last_ack (changes now d connected units) q s =
    device_changed-last_ack now d connected units s
session_step-last_ack (lists units) q s =
    queue_some-last_ack (device_message s.runtime.last (is_held s.runtime.device) units) s
session_step-last_ack (detaches io reason) q s = detach-last_ack io reason true s
session_step-last_ack (proceeds io next n) q s =
    option_keeps (λ (t : Session). t.last_ack ≡ s.last_ack) (pick n s.tasks) (λ _. refl)
      (λ p _. run_task-last_ack io next p.0 (record s { tasks = p.1 }))
session_step-last_ack (sends io answer) q s = refl
session_step-last_ack (operates e) q s = refl

pub send_next-last_ack :
    (io : Io) (answer : Sent) (pending : Messages) (s : Session)
    → (send_next io answer pending s).0.last_ack ≡ s.last_ack
unfolding send_next
send_next-last_ack io answer [] s = refl
send_next-last_ack io sent (q ∷ qs) s = refl
send_next-last_ack io refused (q ∷ qs) s = refl
send_next-last_ack io (send_failed ended) (q ∷ qs) s = ground arith
send_next-last_ack io (session_gone ended) (q ∷ qs) s =
    ground (arith, detach-last_ack io (codes "session_unbound") false s)
