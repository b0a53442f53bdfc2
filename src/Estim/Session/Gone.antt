-- ===== src/Estim/Session/Gone.antt =====
-- internal/estim/session.go: a session that has been detached.
use masseuse_camlink.Prelude.{
  All, ℕ, ◌+◌, ◌≡◌, refl, subst, Bool, true, false, ◌&&◌, not, Option, none, some, List, [], ◌∷◌,
  if_keeps, option_keeps, arith, is_empty,
}
use masseuse_camlink.Estim.Caps.{Command}
use masseuse_camlink.Estim.Runtime.State.{Runtime, Io, is_held, reset_settings, request_cancel}
use masseuse_camlink.Estim.Runtime.Release.{set_settings}
use masseuse_camlink.Estim.Runtime.Actuation.{execute}
use masseuse_camlink.Estim.Session.State.{
  Session, Task, arms, runs, applies, CommandId, text, json, Parsed, parsed, unparsed, Message,
  queue, device_message, is_mine,
}
use masseuse_camlink.Estim.Session.Handle.{
  Selection, companion_attached, device_settings, device_command, device_select, Inbound,
  heartbeat_ack, ignored, control, detach_for, handle, tick, telemetry_tick, device_changed,
  units_changed, detach, handle_control, queue_some, is_release,
}
use masseuse_camlink.Estim.Session.Tasks.{
  run_some, run_task, apply_settings, run_command, run_execute, run_parsed, pick, is_attached,
}
use masseuse_camlink.Estim.Session.Flush.{
  Messages, Sent, sent, refused, session_gone, send_failed, give_up, begin_flush, send_next,
}
use masseuse_camlink.Estim.Session.Steps.{
  Step, handles, ticks, ticks_telemetry, flushes, offers, changes, lists, detaches, proceeds, sends,
  operates, session_step, run,
}
use masseuse_camlink.Estim.Session.Keeping.{run_keeps_under}
use masseuse_camlink.Estim.Session.Orderly.{bit, is_arming, count}
use masseuse_camlink.Estim.Runtime.Release.{release}
use masseuse_camlink.Estim.Runtime.Latch.{release-closed}
use masseuse_camlink.Estim.Runtime.Latch.{IsIdle, commands, step-IsIdle}
use masseuse_camlink.Estim.Runtime.Latch
use masseuse_camlink.Estim.Runtime.Events.{Event, cancels, resets, releases, sets, selects}
use masseuse_camlink.Estim.Runtime.Events
use masseuse_camlink.Estim.Session.Single.{Counts, pick-Counts}

-- No attachment, and no arming but the session's own.
abbrev pub IsUnattaching : Step → Type 0
IsUnattaching (handles io choose sid (control (companion_attached id))) = ⊥
IsUnattaching (operates e) = Latch.is_arming e ≡ false
IsUnattaching e = Unit

-- No session is attached and none is being armed, the latch is set, and the device has been given no
-- command since `n` of them.
abbrev pub IsGone : ℕ → Session → Type 0
IsGone n s = (s.attached ≡ false) × (count is_arming s.tasks ≡ 0) × IsIdle n s.runtime

module _ (n : ℕ) where
  by :
      (e : Event) (r : Runtime)
      → Latch.is_arming e ≡ false
      → IsIdle n r
      → IsIdle n (Events.step e r)
  by = step-IsIdle n

  detach-IsGone :
      (io : Io) (reason : List ℕ) (tell : Bool) (s : Session)
      → count is_arming s.tasks ≡ 0
      → commands s.runtime.calls ≡ n
      → IsGone n (detach io reason tell s)
  unfolding detach queue Events.step request_cancel
  detach-IsGone io reason tell s h k =
      let r : IsIdle n (reset_settings (release io (request_cancel s.runtime)).0) =
        by resets (release io (request_cancel s.runtime)).0 refl
          (by (releases io) (request_cancel s.runtime) refl (refl, k)) in
      if_keeps (IsGone n) (s.attached && tell) (λ _. (refl, h, r)) (λ _. (refl, h, r))

  queue_some-IsGone : (m : Option Message) (s : Session) → IsGone n s → IsGone n (queue_some m s)
  unfolding queue
  queue_some-IsGone none s h = h
  queue_some-IsGone (some m) s h = h

  handle-IsGone :
      (io : Io) (choose : Option Selection) (sid : List ℕ) (m : Inbound)
      → IsUnattaching (handles io choose sid m)
      → (s : Session) → IsGone n s
      → IsGone n (handle io choose sid m s)
  unfolding handle handle_control queue Events.step
  handle-IsGone io choose sid heartbeat_ack q s h =
      if_keeps (IsGone n) (is_mine sid s) (λ e. absurd (ground (arith, h.0))) (λ _. h)
  handle-IsGone io choose sid (control (companion_attached id)) q s h = absurd q
  handle-IsGone io choose sid (control (device_settings id settings)) q s h =
      if_keeps (IsGone n) s.attached (λ e. absurd (ground (arith, h.0))) (λ _. h)
  handle-IsGone io choose sid (control (device_command id cid p)) q s h =
      if_keeps (IsGone n) s.attached (λ e. absurd (ground (arith, h.0))) (λ _. h)
  handle-IsGone io none sid (control (device_select id)) q s h = h
  handle-IsGone io (some c) sid (control (device_select id)) q s h =
      if_keeps (IsGone n) (is_empty id) (λ _. h)
        (λ _. (h.0, h.1, by (selects c.names c.closing c.opening c.found id) s.runtime refl h.2))
  handle-IsGone io choose sid (detach_for reason) q s h =
      if_keeps (IsGone n) (is_mine sid s) (λ e. absurd (ground (arith, h.0))) (λ _. h)
  handle-IsGone io choose sid ignored q s h = h

  run_execute-IsGone :
      (io next : Io) (sid cid : List ℕ) (cmd : Command) (s : Session)
      → IsGone n s
      → IsGone n (run_execute io next sid cid cmd s)
  unfolding run_execute queue Events.step
  run_execute-IsGone io next sid cid cmd s h =
      let k : IsIdle n (execute io cmd s.runtime).0 = by (Events.runs io cmd) s.runtime refl h.2 in
      option_keeps (IsGone n) (execute io cmd s.runtime).1 (λ _. (h.0, h.1, k))
        (λ e _. (h.0, h.1, by (releases next) (execute io cmd s.runtime).0 refl k))

  run_parsed-IsGone :
      (io next : Io) (sid : List ℕ) (cid : CommandId) (p : Parsed) (s : Session)
      → IsGone n s
      → IsGone n (run_parsed io next sid cid p s)
  unfolding queue Events.step
  run_parsed-IsGone io next sid (text cid) (parsed cmd) s h =
      run_execute-IsGone io next sid cid cmd s h
  run_parsed-IsGone io next sid (json cid) (parsed cmd) s h =
      if_keeps (IsGone n) (is_release (parsed cmd))
        (λ _. (h.0, h.1, by (releases io) s.runtime refl h.2)) (λ _. h)
  run_parsed-IsGone io next sid (text cid) (unparsed e) s h = h
  run_parsed-IsGone io next sid (json cid) (unparsed e) s h = h

  run_task-IsGone :
      (io next : Io) (t : Task) (s : Session)
      → bit (is_arming t) ≡ 0
      → IsGone n s
      → IsGone n (run_task io next t s)
  unfolding run_task run_command apply_settings queue Events.step
  run_task-IsGone io next (arms sid) s e h = absurd (omega (arith, e))
  run_task-IsGone io next (runs sid cid p) s e h =
      let k : IsGone n (run_parsed io next sid cid p s) = run_parsed-IsGone io next sid cid p s h in
      if_keeps (IsGone n) (is_release p) (λ _. k) (λ _. k)
  run_task-IsGone io next (applies sid settings) s e h =
      let k : IsIdle n (set_settings io settings s.runtime).0 =
        by (sets io settings) s.runtime refl h.2 in
      if_keeps (IsGone n) (is_attached sid s) (λ a. absurd (ground (arith, h.0)))
        (λ _. (h.0, h.1, k))

  run_some-IsGone :
      (io next : Io) (m : ℕ) (s : Session) → IsGone n s → IsGone n (run_some io next m s)
  unfolding run_some
  run_some-IsGone io next m s h =
      option_keeps (IsGone n) (pick m s.tasks) (λ _. h)
        (λ q e.
          let b : count is_arming q.1 + bit (is_arming q.0) ≡ count is_arming s.tasks =
            subst (Counts is_arming s.tasks) e (pick-Counts is_arming m s.tasks) in
          run_task-IsGone io next q.0 (record s { tasks = q.1 }) (omega (arith, b, h.1))
            (h.0, omega (arith, b, h.1), h.2))

  session_step-IsGone :
      (e : Step) → IsUnattaching e → (s : Session) → IsGone n s → IsGone n (session_step e s)
  unfolding session_step units_changed tick telemetry_tick device_changed queue
  session_step-IsGone (handles io choose sid m) q s h = handle-IsGone io choose sid m q s h
  session_step-IsGone (ticks io) q s h =
      if_keeps (IsGone n) (not s.attached) (λ _. h) (λ e. absurd (ground (arith, h.0)))
  session_step-IsGone ticks_telemetry q s h =
      if_keeps (IsGone n) s.attached (λ e. absurd (ground (arith, h.0))) (λ _. h)
  session_step-IsGone flushes q s h = h
  session_step-IsGone (offers f) q s h = h
  session_step-IsGone (changes now d connected units) q s h =
      if_keeps (IsGone n) (not s.attached)
        (λ _. queue_some-IsGone (device_message d connected units) s h)
        (λ e. absurd (ground (arith, h.0)))
  session_step-IsGone (lists units) q s h =
      queue_some-IsGone (device_message s.runtime.last (is_held s.runtime.device) units) s h
  session_step-IsGone (detaches io reason) q s h = detach-IsGone io reason true s h.1 h.2.1
  session_step-IsGone (proceeds io next m) q s h = run_some-IsGone io next m s h
  session_step-IsGone (sends io answer) q s h = h
  session_step-IsGone (operates e) q s h = (h.0, h.1, by e s.runtime q h.2)

  give_up-IsGone :
      (ended : Bool) (pending : Messages) (s : Session)
      → IsGone n s
      → IsGone n (give_up ended pending s).0
  give_up-IsGone true pending s h = h
  give_up-IsGone false pending s h = h

  send_next-IsGone :
      (io : Io) (answer : Sent) (pending : Messages) (s : Session)
      → IsGone n s
      → IsGone n (send_next io answer pending s).0
  unfolding send_next
  send_next-IsGone io answer [] s h = h
  send_next-IsGone io sent (q ∷ qs) s h = h
  send_next-IsGone io refused (q ∷ qs) s h = h
  send_next-IsGone io (send_failed ended) (q ∷ qs) s h = give_up-IsGone ended (q ∷ qs) s h
  send_next-IsGone io (session_gone ended) (q ∷ qs) s h =
      if_keeps (λ (p : Session × Option Messages). IsGone n p.0) (is_empty q.session_id)
        (λ _. give_up-IsGone ended (q ∷ qs) s h)
        (λ _.
          if_keeps (IsGone n) (is_attached q.session_id s) (λ e. absurd (ground (arith, h.0)))
            (λ _. h))

-- After a detach with no goroutine waiting to arm, until the next companion_attached and unless the
-- program itself arms: whatever messages, goroutines, ticks and device events follow, no session is
-- attached, the latch stays set and the device is given no command.
pub run-detached :
    (io : Io) (reason : List ℕ) (tell : Bool) (s : Session) (pending : Option Messages)
    (es : List Step)
    → count is_arming s.tasks ≡ 0
    → All IsUnattaching es
    → let t = (run es (record { session = detach io reason tell s; pending = pending })).session in
      (t.attached ≡ false)
      × (t.runtime.cancel ≡ true)
      × (commands t.runtime.calls ≡ commands s.runtime.calls)
unfolding begin_flush
run-detached io reason tell s pending es h q =
    let n = commands s.runtime.calls in
    let k =
      run_keeps_under IsUnattaching (IsGone n) (session_step-IsGone n) (λ t g. g)
        (send_next-IsGone n) es q (record { session = detach io reason tell s; pending = pending })
        (detach-IsGone n io reason tell s h refl) in
    (k.0, k.2.0, k.2.1)
