-- ===== src/Estim/Session/Single.antt =====
-- internal/estim/session.go: any run of a `Session` keeps its bounds.
use masseuse_camlink.Prelude.{
  ℕ, zero, suc, ◌+◌, ◌≡◌, refl, subst, Bool, true, false, not, Option, none, some, List, [], ◌∷◌,
  if◌then◌else◌, if_keeps, option_keeps, arith, is_empty,
}
use masseuse_camlink.Estim.Caps.{Settings, Command}
use masseuse_camlink.Estim.Runtime.State.{Io, is_held}
use masseuse_camlink.Estim.Runtime.Release.{set_settings}
use masseuse_camlink.Estim.Runtime.Actuation.{execute}
use masseuse_camlink.Estim.Session.Trimmed.{trim_bounds}
use masseuse_camlink.Estim.Session.State.{
  Session, Task, arms, runs, applies, CommandId, text, json, Parsed, parsed, unparsed, queue,
  queue_runtime_state, queue_settings, device_message,
}
use masseuse_camlink.Estim.Session.Handle.{units_changed, is_release}
use masseuse_camlink.Estim.Session.Tasks.{
  run_some, run_task, run_arm, apply_settings, run_command, run_execute, run_parsed, pick,
  is_attached,
}
use masseuse_camlink.Estim.Session.Flush.{
  Messages, Sent, sent, refused, session_gone, send_failed, give_up, begin_flush, send_next,
}
use masseuse_camlink.Estim.Session.Steps.{
  Step, handles, ticks, ticks_telemetry, flushes, offers, changes, lists, detaches, proceeds, sends,
  operates, session_step, run, new_system,
}
use masseuse_camlink.Estim.Session.Keeping.{run_keeps}
use masseuse_camlink.Estim.Session.Orderly.{
  bit, is_command, is_arming, count, IsOrderlyBut, IsOrderly, queue_some-IsOrderly,
  auto_arm-IsOrderly, detach-IsOrderly,
}
use masseuse_camlink.Estim.Session.Handling.{
  handle-IsOrderly, tick-IsOrderly, telemetry_tick-IsOrderly, device_changed-IsOrderly,
}

abbrev pub Counts : (Task → Bool) → List Task → Option (Task × List Task) → Type 0
Counts p ts none = Unit
Counts p ts (some q) = count p q.1 + bit (p q.0) ≡ count p ts

pub pick-Counts : (p : Task → Bool) (n : ℕ) (ts : List Task) → Counts p ts (pick n ts)
unfolding count pick
pick-Counts p n [] = tt
pick-Counts p zero (t ∷ ts) = omega arith
pick-Counts p (suc n) (t ∷ ts) =
    option_keeps (Counts p (t ∷ ts)) (pick n ts) (λ _. tt)
      (λ q e.
        let k : count p q.1 + bit (p q.0) ≡ count p ts =
          subst (Counts p ts) e (pick-Counts p n ts) in
        omega (arith, k))

run_arm-IsOrderly :
    (io : Io) (sid : List ℕ) (s : Session) → IsOrderlyBut 0 1 s → IsOrderly (run_arm io sid s)
unfolding run_arm queue
run_arm-IsOrderly io sid s h =
    let k : count is_arming s.tasks + 0 ≡ 0 = ground (arith, h.2) in
    if_keeps IsOrderly (is_attached sid s) (λ _. (trim_bounds _, h.1, k)) (λ _. (h.0, h.1, k))

apply_settings-IsOrderly :
    (io : Io) (sid : List ℕ) (settings : Settings) (s : Session)
    → IsOrderly s
    → IsOrderly (apply_settings io sid settings s)
unfolding apply_settings queue
apply_settings-IsOrderly io sid settings s h =
    let t : Session = record s { runtime = (set_settings io settings s.runtime).0 } in
    if_keeps IsOrderly (is_attached sid s)
      (λ _.
        if_keeps IsOrderly (set_settings io settings s.runtime).1
          (λ _.
            auto_arm-IsOrderly 0 0 io.later
              (queue_runtime_state io.later sid (queue_settings sid t)) (trim_bounds _, h.1, h.2))
          (λ _. (trim_bounds _, h.1, h.2)))
      (λ _. h)

run_execute-IsOrderly :
    (n : ℕ) (io next : Io) (sid cid : List ℕ) (cmd : Command) (s : Session)
    → IsOrderlyBut n 0 s
    → IsOrderlyBut n 0 (run_execute io next sid cid cmd s)
unfolding run_execute queue
run_execute-IsOrderly n io next sid cid cmd s h =
    option_keeps (IsOrderlyBut n 0) (execute io cmd s.runtime).1 (λ _. (trim_bounds _, h.1, h.2))
      (λ e _. (trim_bounds _, h.1, h.2))

run_parsed-IsOrderly :
    (n : ℕ) (io next : Io) (sid : List ℕ) (cid : CommandId) (p : Parsed) (s : Session)
    → IsOrderlyBut n 0 s
    → IsOrderlyBut n 0 (run_parsed io next sid cid p s)
unfolding queue
run_parsed-IsOrderly n io next sid (text cid) (parsed cmd) s h =
    run_execute-IsOrderly n io next sid cid cmd s h
run_parsed-IsOrderly n io next sid (json cid) (parsed cmd) s h =
    if_keeps (IsOrderlyBut n 0) (is_release (parsed cmd)) (λ _. (trim_bounds _, h.1, h.2))
      (λ _. (trim_bounds _, h.1, h.2))
run_parsed-IsOrderly n io next sid (text cid) (unparsed e) s h = (trim_bounds _, h.1, h.2)
run_parsed-IsOrderly n io next sid (json cid) (unparsed e) s h = (trim_bounds _, h.1, h.2)

finished :
    (b : Bool) (s : Session)
    → IsOrderlyBut (bit (not b)) 0 s
    → IsOrderly (if b then s else record s { busy = false })
finished true s h = h
finished false s h = (h.0, ground (arith, h.1), h.2)

run_task-IsOrderly :
    (io next : Io) (t : Task) (s : Session)
    → IsOrderlyBut (bit (is_command t)) (bit (is_arming t)) s
    → IsOrderly (run_task io next t s)
unfolding run_task run_command
run_task-IsOrderly io next (arms sid) s h = run_arm-IsOrderly io sid s h
run_task-IsOrderly io next (runs sid cid p) s h =
    finished (is_release p) (run_parsed io next sid cid p s)
      (run_parsed-IsOrderly (bit (not (is_release p))) io next sid cid p s h)
run_task-IsOrderly io next (applies sid settings) s h = apply_settings-IsOrderly io sid settings s h

run_some-IsOrderly :
    (io next : Io) (n : ℕ) (s : Session) → IsOrderly s → IsOrderly (run_some io next n s)
unfolding run_some
run_some-IsOrderly io next n s h =
    option_keeps IsOrderly (pick n s.tasks) (λ _. h)
      (λ q e.
        let a : count is_command q.1 + bit (is_command q.0) ≡ count is_command s.tasks =
          subst (Counts is_command s.tasks) e (pick-Counts is_command n s.tasks) in
        let b : count is_arming q.1 + bit (is_arming q.0) ≡ count is_arming s.tasks =
          subst (Counts is_arming s.tasks) e (pick-Counts is_arming n s.tasks) in
        run_task-IsOrderly io next q.0 (record s { tasks = q.1 })
          (h.0, omega (arith, a, h.1), omega (arith, b, h.2)))

session_step-IsOrderly : (e : Step) (s : Session) → IsOrderly s → IsOrderly (session_step e s)
unfolding session_step units_changed
session_step-IsOrderly (handles io choose sid m) s h = handle-IsOrderly 0 0 io choose sid m s h
session_step-IsOrderly (ticks io) s h = tick-IsOrderly 0 0 io s h
session_step-IsOrderly ticks_telemetry s h = telemetry_tick-IsOrderly 0 0 s h
session_step-IsOrderly flushes s h = h
session_step-IsOrderly (offers f) s h = h
session_step-IsOrderly (changes now d connected units) s h =
    device_changed-IsOrderly 0 0 now d connected units s h
session_step-IsOrderly (lists units) s h =
    queue_some-IsOrderly 0 0 (device_message s.runtime.last (is_held s.runtime.device) units) s h
session_step-IsOrderly (detaches io reason) s h = detach-IsOrderly 0 0 io reason true s h
session_step-IsOrderly (proceeds io next n) s h = run_some-IsOrderly io next n s h
session_step-IsOrderly (sends io answer) s h = h
session_step-IsOrderly (operates e) s h = h

give_up-IsOrderly :
    (ended : Bool) (pending : Messages) (s : Session)
    → IsOrderly s
    → IsOrderly (give_up ended pending s).0
give_up-IsOrderly true pending s h = h
give_up-IsOrderly false pending s h = (trim_bounds _, h.1, h.2)

send_next-IsOrderly :
    (io : Io) (answer : Sent) (pending : Messages) (s : Session)
    → IsOrderly s
    → IsOrderly (send_next io answer pending s).0
unfolding send_next
send_next-IsOrderly io answer [] s h = h
send_next-IsOrderly io sent (q ∷ qs) s h = h
send_next-IsOrderly io refused (q ∷ qs) s h = h
send_next-IsOrderly io (send_failed ended) (q ∷ qs) s h = give_up-IsOrderly ended (q ∷ qs) s h
send_next-IsOrderly io (session_gone ended) (q ∷ qs) s h =
    if_keeps (λ (p : Session × Option Messages). IsOrderly p.0) (is_empty q.session_id)
      (λ _. give_up-IsOrderly ended (q ∷ qs) s h)
      (λ _.
        if_keeps IsOrderly (is_attached q.session_id s) (λ _. detach-IsOrderly 0 0 io _ false s h)
          (λ _. h))

-- In any run of a session since its start the outbox has at most 64 messages; a command that is no
-- release waits or runs exactly if busy says so, and never two; and an arming exactly if arming
-- says so, and never two.
pub run-IsOrderly : (window : ℕ) (es : List Step) → IsOrderly (run es (new_system window)).session
unfolding begin_flush count
run-IsOrderly window es =
    run_keeps IsOrderly session_step-IsOrderly (λ s h. (omega arith, h.1, h.2)) send_next-IsOrderly
      es (new_system window) (omega arith, refl, refl)
