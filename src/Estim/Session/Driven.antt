-- ===== src/Estim/Session/Driven.antt =====
-- internal/estim/session.go: what the tasks of a `Session` and its steps do to its Runtime.
use masseuse_camlink.Prelude.{
  ℕ, subst, Bool, true, false, Option, List, [], ◌∷◌, is_empty, if_keeps, option_keeps,
}
use masseuse_camlink.Estim.Caps.{Settings, Command}
use masseuse_camlink.Estim.Runtime.State.{Runtime, Io, is_held}
use masseuse_camlink.Estim.Runtime.Release.{set_settings}
use masseuse_camlink.Estim.Runtime.Actuation.{arm, execute}
use masseuse_camlink.Estim.Runtime.Events.{
  Event, cancels, resets, arms, extends, releases, runs, sets, selects, fresh, IsSafe,
}
use masseuse_camlink.Estim.Runtime.Events
use masseuse_camlink.Estim.Runtime.Safety.{run_fresh-IsSafe}
use masseuse_camlink.Estim.Session.State.{
  Session, Task, CommandId, text, json, Parsed, parsed, unparsed, Message, queue,
  queue_runtime_state, queue_settings,
}
use masseuse_camlink.Estim.Session.State
use masseuse_camlink.Estim.Session.State.{ack_stale, device_message, is_mine}
use masseuse_camlink.Estim.Session.Handle.{units_changed, is_release}
use masseuse_camlink.Estim.Session.Tasks.{
  run_some, run_task, run_arm, apply_settings, run_command, run_execute, run_parsed, pick,
  is_attached,
}
use masseuse_camlink.Estim.Session.Flush.{
  Messages, Sent, sent, refused, session_gone, send_failed, give_up, begin_flush, send_next,
}
use masseuse_camlink.Estim.Session.Steps.{
  Step, handles, ticks, ticks_telemetry, flushes, offers, changes, lists, detaches, proceeds, sends,
  operates, session_step, run, new_system,
}
use masseuse_camlink.Estim.Session.Keeping.{run_keeps}
use masseuse_camlink.Estim.Session.Driving.{
  Leads, From, stays, and, auto_arm-From, detach-From, tick-From, telemetry_tick-From,
  device_changed-From, queue_some-From, handle-From,
}

run_arm-From :
    (io : Io) (sid : List ℕ) (r : Runtime) (s : Session) → From r s → From r (run_arm io sid s)
unfolding run_arm queue Events.step
run_arm-From io sid r s h =
    let k : Leads r (arm io s.runtime).0 = and (arms io) r s.runtime h in
    if_keeps (From r) (is_attached sid s) (λ _. k) (λ _. k)

apply_settings-From :
    (io : Io) (sid : List ℕ) (settings : Settings) (r : Runtime) (s : Session)
    → From r s
    → From r (apply_settings io sid settings s)
unfolding apply_settings queue Events.step
apply_settings-From io sid settings r s h =
    let k : Leads r (set_settings io settings s.runtime).0 = and (sets io settings) r s.runtime h in
    let t : Session = record s { runtime = (set_settings io settings s.runtime).0 } in
    if_keeps (From r) (is_attached sid s)
      (λ _.
        if_keeps (From r) (set_settings io settings s.runtime).1
          (λ _.
            auto_arm-From io.later r (queue_runtime_state io.later sid (queue_settings sid t)) k)
          (λ _. k))
      (λ _. k)

run_execute-From :
    (io next : Io) (sid cid : List ℕ) (cmd : Command) (r : Runtime) (s : Session)
    → From r s
    → From r (run_execute io next sid cid cmd s)
unfolding run_execute queue Events.step
run_execute-From io next sid cid cmd r s h =
    let k : Leads r (execute io cmd s.runtime).0 = and (runs io cmd) r s.runtime h in
    option_keeps (From r) (execute io cmd s.runtime).1 (λ _. k) (λ e _. and (releases next) r _ k)

run_parsed-From :
    (io next : Io) (sid : List ℕ) (cid : CommandId) (p : Parsed) (r : Runtime) (s : Session)
    → From r s
    → From r (run_parsed io next sid cid p s)
unfolding queue Events.step
run_parsed-From io next sid (text cid) (parsed cmd) r s h =
    run_execute-From io next sid cid cmd r s h
run_parsed-From io next sid (json cid) (parsed cmd) r s h =
    if_keeps (From r) (is_release (parsed cmd)) (λ _. and (releases io) r s.runtime h) (λ _. h)
run_parsed-From io next sid (text cid) (unparsed e) r s h = h
run_parsed-From io next sid (json cid) (unparsed e) r s h = h

run_task-From :
    (io next : Io) (t : Task) (r : Runtime) (s : Session) → From r s → From r (run_task io next t s)
unfolding run_task run_command
run_task-From io next (State.arms sid) r s h = run_arm-From io sid r s h
run_task-From io next (State.runs sid cid p) r s h =
    let k : From r (run_parsed io next sid cid p s) = run_parsed-From io next sid cid p r s h in
    if_keeps (From r) (is_release p) (λ _. k) (λ _. k)
run_task-From io next (State.applies sid settings) r s h = apply_settings-From io sid settings r s h

run_some-From :
    (io next : Io) (n : ℕ) (r : Runtime) (s : Session) → From r s → From r (run_some io next n s)
unfolding run_some
run_some-From io next n r s h =
    option_keeps (From r) (pick n s.tasks) (λ _. h)
      (λ p _. run_task-From io next p.0 r (record s { tasks = p.1 }) h)

session_step-From : (e : Step) (r : Runtime) (s : Session) → From r s → From r (session_step e s)
unfolding session_step units_changed
session_step-From (handles io choose sid m) r s h = handle-From io choose sid m r s h
session_step-From (ticks io) r s h = tick-From io r s h
session_step-From ticks_telemetry r s h = telemetry_tick-From r s h
session_step-From flushes r s h = h
session_step-From (offers f) r s h = h
session_step-From (changes now d connected units) r s h =
    device_changed-From now d connected units r s h
session_step-From (lists units) r s h =
    queue_some-From (device_message s.runtime.last (is_held s.runtime.device) units) r s h
session_step-From (detaches io reason) r s h = detach-From io reason true r s h
session_step-From (proceeds io next n) r s h = run_some-From io next n r s h
session_step-From (sends io answer) r s h = h
session_step-From (operates e) r s h = and e r s.runtime h

give_up-From :
    (ended : Bool) (pending : Messages) (r : Runtime) (s : Session)
    → From r s
    → From r (give_up ended pending s).0
give_up-From true pending r s h = h
give_up-From false pending r s h = h

send_next-From :
    (io : Io) (answer : Sent) (pending : Messages) (r : Runtime) (s : Session)
    → From r s
    → From r (send_next io answer pending s).0
unfolding send_next
send_next-From io answer [] r s h = h
send_next-From io sent (q ∷ qs) r s h = h
send_next-From io refused (q ∷ qs) r s h = h
send_next-From io (send_failed ended) (q ∷ qs) r s h = give_up-From ended (q ∷ qs) r s h
send_next-From io (session_gone ended) (q ∷ qs) r s h =
    if_keeps (λ (p : Session × Option Messages). From r p.0) (is_empty q.session_id)
      (λ _. give_up-From ended (q ∷ qs) r s h)
      (λ _.
        if_keeps (From r) (is_attached q.session_id s) (λ _. detach-From io _ false r s h) (λ _. h))

-- In any run of a session since its start, with the service's messages, the goroutines, the sending
-- and the Runtime's own operations in any order, the Runtime is one that a run of its own
-- operations leads to; and in the driver's calls each command and each renewal comes after an
-- arming with no release and no close between them, each command within caps.
pub run-IsSafe :
    (window : ℕ) (es : List Step)
    → Leads (fresh window) (run es (new_system window)).session.runtime
      × IsSafe (run es (new_system window)).session.runtime.calls
unfolding begin_flush
run-IsSafe window es =
    let r = fresh window in
    let k : Leads r (run es (new_system window)).session.runtime =
      run_keeps (From r) (λ e s. session_step-From e r s) (λ s h. h)
        (λ io answer pending s. send_next-From io answer pending r s) es (new_system window)
        (stays r) in
    (k, subst (λ (t : Runtime). IsSafe t.calls) k.1 (run_fresh-IsSafe window k.0))
