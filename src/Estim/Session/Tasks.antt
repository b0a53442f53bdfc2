-- ===== src/Estim/Session/Tasks.antt =====
-- internal/estim/session.go, `Session`: the goroutines that messages start. A task runs as a whole.
use masseuse_camlink.Prelude.{
  ℕ, zero, suc, Bool, false, ◌&&◌, Option, none, some, List, [], ◌∷◌, if◌then◌else◌, same_text,
  codes,
}
use masseuse_camlink.Estim.Caps.{Settings, Command}
use masseuse_camlink.Estim.Runtime.State.{Runtime, Io, Failure, status_of, take_text}
use masseuse_camlink.Estim.Runtime.Release.{release, set_settings}
use masseuse_camlink.Estim.Runtime.Actuation.{arm, execute}
use masseuse_camlink.Estim.Session.State.{
  CommandId, text, json, Parsed, parsed, unparsed, bad_command, ack, failed, Task, arms, runs,
  applies, Session, queue, queue_runtime_state, queue_settings,
}
use masseuse_camlink.Estim.Session.Handle.{auto_arm, is_release}

abbrev pub is_attached : List ℕ → Session → Bool
is_attached sid s = s.attached && same_text s.session_id sid

abbrev pub if_attached : (Session → Session) → List ℕ → Session → Session
if_attached f sid s = if is_attached sid s then f s else s

-- The goroutine of `autoArm`.
unfoldable pub run_arm : Io → List ℕ → Session → Session
run_arm io sid s =
    let r : Runtime × Option Failure = arm io s.runtime in
    if_attached (queue_runtime_state io.later sid) sid
      (record s { runtime = r.0; arming = false; last_deferral = r.1 })

-- `applySettings`.
unfoldable pub apply_settings : Io → List ℕ → Settings → Session → Session
unfolding auto_arm
apply_settings io sid settings s =
    let r : Runtime × Bool × Option Failure = set_settings io settings s.runtime in
    if_attached
      (λ t.
        if r.1
        then auto_arm io.later (queue_runtime_state io.later sid (queue_settings sid t))
        else queue_settings sid t)
      sid (record s { runtime = r.0 })

abbrev pub release_now : Io → List ℕ → Session → Session
release_now io sid s =
    queue_runtime_state io.later sid (record s { runtime = (release io s.runtime).0 })

abbrev pub malformed_text : List ℕ
malformed_text = codes "malformed command"

-- `Execute`, and what follows it: `next` is what the release after a failure meets.
unfoldable pub run_execute : Io → Io → List ℕ → List ℕ → Command → Session → Session
run_execute io next sid cid cmd s =
    let r : Runtime × Option Failure = execute io cmd s.runtime in
    let u : Runtime = (release next r.0).0 in
    elim r.1 [
      | none ↦
          queue_runtime_state io.later sid
            (queue sid false (ack cid (status_of r.0)) (record s { runtime = r.0 }))
      | some e ↦
          queue_runtime_state next.later sid
            (queue sid false (failed cid e (status_of u)) (record s { runtime = u }))
    ]

abbrev pub refuse : List ℕ → CommandId → List ℕ → Session → Session
refuse sid cid why s = queue sid false (bad_command cid (take_text 300 why) (status_of s.runtime)) s

abbrev pub run_parsed : Io → Io → List ℕ → CommandId → Parsed → Session → Session
run_parsed io next sid (text cid) (parsed cmd) s = run_execute io next sid cid cmd s
run_parsed io next sid (json cid) (parsed cmd) s =
    if is_release (parsed cmd) then release_now io sid s else refuse sid (json cid) malformed_text s
run_parsed io next sid cid (unparsed e) s = refuse sid cid e s

-- `runCommand`: a command that is no release frees the way for the next.
unfoldable pub run_command : Io → Io → List ℕ → CommandId → Parsed → Session → Session
unfolding run_execute
run_command io next sid cid p s =
    let t : Session = run_parsed io next sid cid p s in
    if is_release p then t else record t { busy = false }

unfoldable pub run_task : Io → Io → Task → Session → Session
unfolding run_arm apply_settings run_command
run_task io next (arms sid) s = run_arm io sid s
run_task io next (runs sid cid p) s = run_command io next sid cid p s
run_task io next (applies sid settings) s = apply_settings io sid settings s

-- The task at a position, with those before and after it.
unfoldable pub pick : ℕ → List Task → Option (Task × List Task)
pick n [] = none
pick zero (t ∷ ts) = some (t, ts)
pick (suc n) (t ∷ ts) = elim (pick n ts) [ none ↦ none | some p ↦ some (p.0, t ∷ p.1) ]

-- Some goroutine runs.
unfoldable pub run_some : Io → Io → ℕ → Session → Session
unfolding run_task pick
run_some io next n s = elim (pick n s.tasks) [
  | none ↦ s
  | some p ↦ run_task io next p.0 (record s { tasks = p.1 })
]
