-- ===== src/Estim/Runtime/Safety.antt =====
-- internal/estim/runtime.go: the calls that the driver is given over any run.
use masseuse_camlink.Prelude.{
  ℕ, ◌+◌, Bool, true, ◌||◌, not, Option, some, List, [], ◌∷◌, ◌≡◌, refl, ◌∙◌, arith, if_keeps,
  option_keeps,
}
use masseuse_camlink.Estim.Caps.{
  Capabilities, Settings, PowerMode, level_max_for, Verb, status, set_mode, Command, CapsError,
  check_caps, validate,
}
use masseuse_camlink.Estim.Caps
use masseuse_camlink.Estim.Within.{check_caps_iff}
use masseuse_camlink.Estim.Runtime.Actuation.{
  arm, extend_arm, is_close, can_renew, renew_device_arm, then_read, execute_release, actuate,
  execute_on, execute,
}
use masseuse_camlink.Estim.Runtime.Telemetry.{Sampled, sample}
use masseuse_camlink.Estim.Runtime.Select.{Strings, select_unit, is_other, let_go}
use masseuse_camlink.Estim.Runtime.Events.{
  Event, cancels, resets, opens, arms, extends, renews, releases, expires, checks, closes, sets,
  runs, samples, selects, step, run, fresh, powered, IsSafe, is_set, Inv,
}
use masseuse_camlink.Estim.Runtime.State.{
  Answer, Device, Call, executed, renewed, Runtime, Io, call, is_held, is_armed, settings_of,
  request_cancel, reset_settings,
}
use masseuse_camlink.Estim.Runtime.Unarmed.{
  Kept, unarmed, answer_keeps, Result, release-Inv, same-Inv, set_settings-Inv, open_device-Inv,
  close-Inv, health_check-Inv, expired-Inv,
}

arm-Inv : (io : Io) (r : Runtime) → Inv r → Inv (arm io r).0
unfolding arm
arm-Inv io r v =
    if_keeps (Kept {A = Result}) (is_held r.device)
      (λ h.
        option_keeps (Kept {A = Result}) io.release
          (λ _.
            option_keeps (Kept {A = Result}) io.arm
              (λ _.
                answer_keeps (Kept {A = Result}) (io.reading 0)
                  (λ st. record { safe = v.safe; armed_if = λ _. refl; held_if = λ _. h })
                  (λ f. unarmed _ v.safe refl))
              (λ f _. unarmed _ v.safe refl))
          (λ f _. unarmed _ v.safe refl))
      (λ _. v)

-- An armed runtime has a window.
is_armed-window : (now : ℕ) (r : Runtime) → is_armed now r ≡ true → is_set r.arm_deadline ≡ true
is_armed-window now r h = ground arith

extend_arm-Inv : (io : Io) (r : Runtime) → Inv r → Inv (extend_arm io r).0
unfolding extend_arm
extend_arm-Inv io r v =
    if_keeps (Kept {A = Bool}) (is_armed io.now r)
      (λ h. record {
        safe = v.safe;
        armed_if = λ _. v.armed_if (is_armed-window _ r h);
        held_if = λ _. v.held_if (is_armed-window _ r h);
      })
      (λ _. v)

-- A call of an armed device that leaves it armed.
called-Inv :
    (c : Call) (r : Runtime)
    → Inv r
    → IsSafe (c ∷ r.calls)
    → powered (c ∷ r.calls) ≡ powered r.calls
    → Inv (call c r)
called-Inv c r v s e = record { safe = s; armed_if = λ h. e ∙ v.armed_if h; held_if = v.held_if }

renew-Inv : (io : Io) (r : Runtime) → Inv r → Inv (renew_device_arm io r)
unfolding renew_device_arm
renew-Inv io r v =
    if_keeps Inv (not (is_armed io.now r)) (λ _. v)
      λ h.
        option_keeps Inv r.arm_deadline (λ _. v)
          λ d _.
            let p : powered r.calls ≡ true = v.armed_if (is_armed-window io.now r (ground arith)) in
            let w : Inv (call (renewed d) r) = called-Inv (renewed d) r v (p, v.safe) refl in
            if_keeps Inv (is_close d r.renewed_until || not (can_renew r.device)) (λ _. v)
              λ _.
                option_keeps Inv io.renew
                  (λ _.
                    if_keeps Inv (is_armed io.later r)
                      (λ _. same-Inv (call (renewed d) r) _ w refl refl refl) (λ _. w))
                  (λ f _. w)

then_read-Inv : (io : Io) (r : Runtime) → Inv r → Inv (then_read io r).0
then_read-Inv io r v =
    answer_keeps (Kept {A = Result}) (io.reading 0)
      (λ st. same-Inv r (record r { last_status = some st }) v refl refl refl) (λ f. v)

execute_release-Inv : (io : Io) (r : Runtime) → Inv r → Inv (execute_release io r).0
execute_release-Inv io r v =
    option_keeps (Kept {A = Result}) io.release (λ _. then_read-Inv io _ (unarmed _ v.safe refl))
      (λ f _. unarmed _ v.safe refl)

actuate-Inv :
    (io : Io) (cmd : Command) (d : Device) (r : Runtime) → Inv r → Inv (actuate io cmd d r).0
actuate-Inv io cmd d r v =
    if_keeps (Kept {A = Result}) (not (is_armed io.now r)) (λ _. v)
      λ h.
        if_keeps (Kept {A = Result}) r.cancel (λ _. v)
          λ _.
            option_keeps (Kept {A = Result}) (check_caps cmd d.caps (settings_of r))
              (λ e.
                let p : powered r.calls ≡ true =
                  v.armed_if (is_armed-window io.now r (ground arith)) in
                let within = (check_caps_iff cmd d.caps (settings_of r)).0 e in
                let w =
                  called-Inv (executed cmd (level_max_for d.caps (settings_of r))) r v
                    (p, (d.caps, settings_of r, within, refl), v.safe) refl in
                option_keeps (Kept {A = Result}) io.execute (λ _. then_read-Inv io _ w) (λ f _. w))
              (λ e _. v)

execute-Inv : (io : Io) (cmd : Command) (r : Runtime) → Inv r → Inv (execute io cmd r).0
unfolding execute
execute-Inv io cmd r v = option_keeps (Kept {A = Result}) r.device (λ _. v) (λ d _. on d cmd.verb)
  where
    on : (d : Device) (verb : Verb) → Inv (execute_on verb io cmd d r).0
    on d status = then_read-Inv io r v
    on d Caps.release = execute_release-Inv io r v
    on d _ = actuate-Inv io cmd d r v

sample-Inv : (busy : Bool) (a : Answer (List ℕ)) (r : Runtime) → Inv r → Inv (sample busy a r).0
unfolding sample
sample-Inv busy a r v =
    if_keeps (Kept {A = Sampled}) (not (is_held r.device)) (λ _. same-Inv r _ v refl refl refl)
      λ _.
        if_keeps (Kept {A = Sampled}) busy (λ _. same-Inv r _ v refl refl refl)
          λ _.
            answer_keeps (Kept {A = Sampled}) a
              (λ readings. same-Inv r (record r { frames = r.frames + 1 }) v refl refl refl)
              (λ f.
                same-Inv r (record r { read_errors = r.read_errors + 1; gaps = r.gaps + 1 }) v refl
                  refl refl)

select-Inv :
    (names : Strings) (io next : Io) (found : Option (Answer Device)) (unit : List ℕ) (r : Runtime)
    → Inv r
    → Inv (select_unit names io next found unit r).0
unfolding select_unit
select-Inv names io next found unit r v =
    if_keeps (Kept {A = Result}) (is_armed io.now r) (λ _. v)
      λ _.
        if_keeps (Kept {A = Result}) (is_other names r.device unit)
          (λ _.
            open_device-Inv next found _
              (close-Inv io (let_go r) (same-Inv r (let_go r) v refl refl refl)))
          (λ _. open_device-Inv next found r v)

pub step-Inv : (e : Event) (r : Runtime) → Inv r → Inv (step e r)
unfolding step request_cancel reset_settings
step-Inv cancels r v = same-Inv r _ v refl refl refl
step-Inv resets r v = same-Inv r _ v refl refl refl
step-Inv (opens io found) r v = open_device-Inv io found r v
step-Inv (arms io) r v = arm-Inv io r v
step-Inv (extends io) r v = extend_arm-Inv io r v
step-Inv (renews io) r v = renew-Inv io r v
step-Inv (releases io) r v = release-Inv io r v
step-Inv (expires io) r v = expired-Inv io r v
step-Inv (checks io) r v = health_check-Inv io r v
step-Inv (closes io) r v = close-Inv io r v
step-Inv (sets io s) r v = set_settings-Inv io s r v
step-Inv (runs io cmd) r v = execute-Inv io cmd r v
step-Inv (samples busy a) r v = sample-Inv busy a r v
step-Inv (selects names io next found unit) r v = select-Inv names io next found unit r v

pub run-Inv : (es : List Event) (r : Runtime) → Inv r → Inv (run es r)
unfolding run
run-Inv [] r v = v
run-Inv (e ∷ es) r v = run-Inv es (step e r) (step-Inv e r v)

-- In the driver's calls of any run from the start, each command and each renewal comes after an
-- arming with no release and no close between them, and each command is within the caps and has the
-- level maximum of some capabilities and settings.
pub run_fresh-IsSafe : (window : ℕ) (es : List Event) → IsSafe (run es (fresh window)).calls
run_fresh-IsSafe window es = (run-Inv es (fresh window) (unarmed _ tt refl)).safe
