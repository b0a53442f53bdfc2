-- ===== src/Estim/Runtime/Window.antt =====
-- internal/estim/runtime.go: the arm window.
use masseuse_camlink.Prelude.{
  ℕ, ◌+◌, ◌≤◌, Bool, Option, none, some, List, [], ◌∷◌, ◌≡◌, refl, arith, if_keeps, option_keeps,
  All,
}
use masseuse_camlink.Estim.Caps
use masseuse_camlink.Estim.Caps.{
  Capabilities, Settings, default_settings_for, level_max_for, level_scale_max, Verb, status,
  Command, CapsError, check_caps, validate,
}
use masseuse_camlink.Estim.Runtime.Release.{
  fault, give_up, release_held, release, set_settings, open_device, close, health_check,
  release_if_arm_expired,
}
use masseuse_camlink.Estim.Runtime.Actuation.{
  arm, extend_arm, renew_device_arm, execute_on, execute,
}
use masseuse_camlink.Estim.Runtime.Telemetry.{sample}
use masseuse_camlink.Estim.Runtime.Select.{Strings, select_unit, is_other, let_go}
use masseuse_camlink.Estim.Runtime.Events.{
  Event, cancels, resets, opens, arms, extends, renews, releases, expires, checks, closes, sets,
  runs, samples, selects, step, run, fresh,
}
use masseuse_camlink.Estim.Runtime.Latch.{commands}
use masseuse_camlink.Estim.Runtime.State.{
  Answer, max_arm_window, Device, Runtime, Io, Failure, arm_window, is_armed, request_cancel,
  reset_settings,
}

-- The window is closed, or closes at most `max_arm_window` after `t`.
abbrev pub ClosesBy : ℕ → Option ℕ → Type 0
ClosesBy t none = Unit
ClosesBy t (some d) = d ≤ t + max_arm_window

-- The times that an event looks at are at most `t`.
abbrev pub IsBy : ℕ → Event → Type 0
IsBy t (arms io) = io.later ≤ t
IsBy t (extends io) = io.now ≤ t
IsBy t e = Unit

arm_window_le : (r : Runtime) → arm_window r ≤ max_arm_window
arm_window_le r = ground arith

module _ (t : ℕ) (r : Runtime) where
  release-ClosesBy : (io : Io) → ClosesBy t (release io r).0.arm_deadline
  unfolding release release_held request_cancel give_up fault
  release-ClosesBy io = ground arith

  arm-ClosesBy :
      (io : Io) → io.later ≤ t → ClosesBy t r.arm_deadline → ClosesBy t (arm io r).0.arm_deadline
  unfolding arm
  arm-ClosesBy io h v = ground (arith, arm_window_le r)

  extend-ClosesBy :
      (io : Io)
      → io.now ≤ t
      → ClosesBy t r.arm_deadline
      → ClosesBy t (extend_arm io r).0.arm_deadline
  unfolding extend_arm
  extend-ClosesBy io h v = ground (arith, arm_window_le r)

  execute-ClosesBy :
      (io : Io) (cmd : Command)
      → ClosesBy t r.arm_deadline
      → ClosesBy t (execute io cmd r).0.arm_deadline
  unfolding execute
  execute-ClosesBy io cmd v =
      option_keeps (λ (u : Runtime × Option Failure). ClosesBy t u.0.arm_deadline) r.device (λ _. v)
        (λ d _. on d cmd.verb)
    where
      on : (d : Device) (verb : Verb) → ClosesBy t (execute_on verb io cmd d r).0.arm_deadline
      on d status = ground arith
      on d Caps.release = ground arith
      on d _ = ground arith

sample-ClosesBy :
    (t : ℕ) (busy : Bool) (a : Answer (List ℕ)) (r : Runtime)
    → ClosesBy t r.arm_deadline
    → ClosesBy t (sample busy a r).0.arm_deadline
unfolding sample
sample-ClosesBy t busy a r v = ground arith

close-ClosesBy :
    (t : ℕ) (io : Io) (r : Runtime)
    → ClosesBy t r.arm_deadline
    → ClosesBy t (close io r).0.arm_deadline
unfolding close request_cancel
close-ClosesBy t io r v = ground arith

open-ClosesBy :
    (t : ℕ) (io : Io) (found : Option (Answer Device)) (r : Runtime)
    → ClosesBy t r.arm_deadline
    → ClosesBy t (open_device io found r).0.arm_deadline
unfolding open_device
open-ClosesBy t io found r v = ground arith

select-ClosesBy :
    (t : ℕ) (names : Strings) (io next : Io) (found : Option (Answer Device)) (unit : List ℕ)
    (r : Runtime)
    → ClosesBy t r.arm_deadline
    → ClosesBy t (select_unit names io next found unit r).0.arm_deadline
unfolding select_unit
select-ClosesBy t names io next found unit r v =
    if_keeps (λ (u : Runtime × Option Failure). ClosesBy t u.0.arm_deadline) (is_armed io.now r)
      (λ _. v)
      λ _.
        if_keeps (λ (u : Runtime × Option Failure). ClosesBy t u.0.arm_deadline)
          (is_other names r.device unit)
          (λ _. open-ClosesBy t next found _ (close-ClosesBy t io (let_go r) v))
          (λ _. open-ClosesBy t next found r v)

step-ClosesBy :
    (t : ℕ) (e : Event) (r : Runtime)
    → IsBy t e
    → ClosesBy t r.arm_deadline
    → ClosesBy t (step e r).arm_deadline
unfolding step request_cancel reset_settings open_device close health_check fault
    release_if_arm_expired set_settings renew_device_arm
step-ClosesBy t cancels r h v = v
step-ClosesBy t resets r h v = v
step-ClosesBy t (opens io found) r h v = open-ClosesBy t io found r v
step-ClosesBy t (arms io) r h v = arm-ClosesBy t r io h v
step-ClosesBy t (extends io) r h v = extend-ClosesBy t r io h v
step-ClosesBy t (renews io) r h v = ground arith
step-ClosesBy t (releases io) r h v = release-ClosesBy t r io
step-ClosesBy t (expires io) r h v = ground (arith, release-ClosesBy t r io)
step-ClosesBy t (checks io) r h v = ground arith
step-ClosesBy t (closes io) r h v = close-ClosesBy t io r v
step-ClosesBy t (sets io s) r h v =
    ground (arith, release-ClosesBy t (record r { settings = some s }) io)
step-ClosesBy t (runs io cmd) r h v = execute-ClosesBy t r io cmd v
step-ClosesBy t (samples busy a) r h v = sample-ClosesBy t busy a r v
step-ClosesBy t (selects names io next found unit) r h v =
    select-ClosesBy t names io next found unit r v

run-ClosesBy :
    (t : ℕ) (es : List Event) (r : Runtime)
    → All (IsBy t) es
    → ClosesBy t r.arm_deadline
    → ClosesBy t (run es r).arm_deadline
unfolding run
run-ClosesBy t [] r h v = v
run-ClosesBy t (e ∷ es) r h v = run-ClosesBy t es (step e r) h.1 (step-ClosesBy t e r h.0 v)

-- A command given when the window is over does not reach the device.
execute_late :
    (t : ℕ) (io : Io) (cmd : Command) (r : Runtime)
    → ClosesBy t r.arm_deadline
    → t + max_arm_window ≤ io.now
    → commands (execute io cmd r).0.calls ≡ commands r.calls
unfolding execute
execute_late t io cmd r v h =
    option_keeps (λ (u : Runtime × Option Failure). commands u.0.calls ≡ commands r.calls) r.device
      (λ _. refl) (λ d _. on d cmd.verb)
  where
    on :
        (d : Device) (verb : Verb)
        → commands (execute_on verb io cmd d r).0.calls ≡ commands r.calls
    on d status = ground arith
    on d Caps.release = ground arith
    on d _ = ground arith

-- If every Arm and ExtendArm of a run since the start took place by t, a command that is given 30
-- minutes after t or later does not reach the device, whatever ArmWindow is set to.
pub run-execute_late :
    (window t : ℕ) (es : List Event) (io : Io) (cmd : Command)
    → All (IsBy t) es
    → t + max_arm_window ≤ io.now
    → commands (execute io cmd (run es (fresh window))).0.calls
      ≡ commands (run es (fresh window)).calls
run-execute_late window t es io cmd h late =
    execute_late t io cmd (run es (fresh window)) (run-ClosesBy t es (fresh window) h tt) late
