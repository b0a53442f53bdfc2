-- ===== src/Estim/Runtime/Latch.antt =====
-- internal/estim/runtime.go: the cancellation latch, and what sets it.
use masseuse_camlink.Prelude.{
  ℕ, suc, Bool, true, false, Option, none, some, List, [], ◌∷◌, ◌≡◌, ◌⊎◌, inl, inr, ap, ◌∙◌, refl,
  arith, if_keeps, option_keeps, All, codes,
}
use masseuse_camlink.Estim.Caps
use masseuse_camlink.Estim.Caps.{
  Settings, level_max_for, Verb, status, Command, check_caps, validate,
}
use masseuse_camlink.Estim.Runtime.Release.{
  fault, give_up, release_held, release, set_settings, open_device, close, read_tries, health_check,
  release_if_arm_expired,
}
use masseuse_camlink.Estim.Runtime.Actuation.{extend_arm, renew_device_arm, execute_on, execute}
use masseuse_camlink.Estim.Runtime.Telemetry.{sample}
use masseuse_camlink.Estim.Runtime.Select.{Strings, select_unit, is_other, let_go}
use masseuse_camlink.Estim.Runtime.Events.{
  Event, cancels, resets, opens, arms, extends, renews, releases, expires, checks, closes, sets,
  runs, samples, selects, step, run,
}
use masseuse_camlink.Estim.Runtime.State.{
  Fault, Answer, good, bad, Device, Call, released, armed, executed, renewed, closed, Runtime, Io,
  Failure, device_fault, is_held, is_armed, status_of, request_cancel, reset_settings, loss_reason,
}

-- The commands among the calls.
abbrev pub commands : List Call → ℕ
commands [] = 0
commands (released ∷ cs) = commands cs
commands (armed mode ∷ cs) = commands cs
commands (executed cmd n ∷ cs) = suc (commands cs)
commands (renewed t ∷ cs) = commands cs
commands (closed restore ∷ cs) = commands cs

abbrev pub is_arming : Event → Bool
is_arming (arms io) = true
is_arming e = false

-- The latch is set, and the device has been given no command since `n` of them.
abbrev pub IsIdle : ℕ → Runtime → Type 0
IsIdle n r = (r.cancel ≡ true) × (commands r.calls ≡ n)

release-IsIdle : (n : ℕ) (io : Io) (r : Runtime) → commands r.calls ≡ n → IsIdle n (release io r).0
unfolding release release_held request_cancel give_up fault
release-IsIdle n io r h = ground arith

open-IsIdle :
    (n : ℕ) (io : Io) (found : Option (Answer Device)) (r : Runtime)
    → IsIdle n r
    → IsIdle n (open_device io found r).0
unfolding open_device
open-IsIdle n io found r h = ground arith

close-IsIdle : (n : ℕ) (io : Io) (r : Runtime) → IsIdle n r → IsIdle n (close io r).0
unfolding close request_cancel
close-IsIdle n io r h = ground arith

check-IsIdle : (n : ℕ) (io : Io) (r : Runtime) → IsIdle n r → IsIdle n (health_check io r).0
unfolding health_check fault
check-IsIdle n io r h = ground arith

extend-IsIdle : (n : ℕ) (io : Io) (r : Runtime) → IsIdle n r → IsIdle n (extend_arm io r).0
unfolding extend_arm
extend-IsIdle n io r h = ground arith

renew-IsIdle : (n : ℕ) (io : Io) (r : Runtime) → IsIdle n r → IsIdle n (renew_device_arm io r)
unfolding renew_device_arm
renew-IsIdle n io r h = ground arith

expire-IsIdle :
    (n : ℕ) (io : Io) (r : Runtime) → IsIdle n r → IsIdle n (release_if_arm_expired io r).0
unfolding release_if_arm_expired
expire-IsIdle n io r h = ground (arith, release-IsIdle n io r h.1)

sets-IsIdle :
    (n : ℕ) (io : Io) (s : Settings) (r : Runtime) → IsIdle n r → IsIdle n (set_settings io s r).0
unfolding set_settings
sets-IsIdle n io s r h = ground (arith, release-IsIdle n io (record r { settings = some s }) h.1)

execute-IsIdle :
    (n : ℕ) (io : Io) (cmd : Command) (r : Runtime) → IsIdle n r → IsIdle n (execute io cmd r).0
unfolding execute
execute-IsIdle n io cmd r h =
    option_keeps (λ (t : Runtime × Option Failure). IsIdle n t.0) r.device (λ _. h)
      (λ d _. on d cmd.verb)
  where
    on : (d : Device) (verb : Verb) → IsIdle n (execute_on verb io cmd d r).0
    on d status = ground arith
    on d Caps.release = ground arith
    on d _ = ground arith

sample-IsIdle :
    (n : ℕ) (busy : Bool) (a : Answer (List ℕ)) (r : Runtime)
    → IsIdle n r
    → IsIdle n (sample busy a r).0
unfolding sample
sample-IsIdle n busy a r h = ground arith

select-IsIdle :
    (n : ℕ) (names : Strings) (io next : Io) (found : Option (Answer Device)) (unit : List ℕ)
    (r : Runtime)
    → IsIdle n r
    → IsIdle n (select_unit names io next found unit r).0
unfolding select_unit
select-IsIdle n names io next found unit r h =
    if_keeps (λ (t : Runtime × Option Failure). IsIdle n t.0) (is_armed io.now r) (λ _. h)
      λ _.
        if_keeps (λ (t : Runtime × Option Failure). IsIdle n t.0) (is_other names r.device unit)
          (λ _. open-IsIdle n next found _ (close-IsIdle n io (let_go r) h))
          (λ _. open-IsIdle n next found r h)

pub step-IsIdle :
    (n : ℕ) (e : Event) (r : Runtime) → is_arming e ≡ false → IsIdle n r → IsIdle n (step e r)
unfolding step request_cancel reset_settings
step-IsIdle n cancels r k h = (refl, h.1)
step-IsIdle n resets r k h = h
step-IsIdle n (opens io found) r k h = open-IsIdle n io found r h
step-IsIdle n (arms io) r k h = cc
step-IsIdle n (extends io) r k h = extend-IsIdle n io r h
step-IsIdle n (renews io) r k h = renew-IsIdle n io r h
step-IsIdle n (releases io) r k h = release-IsIdle n io r h.1
step-IsIdle n (expires io) r k h = expire-IsIdle n io r h
step-IsIdle n (checks io) r k h = check-IsIdle n io r h
step-IsIdle n (closes io) r k h = close-IsIdle n io r h
step-IsIdle n (sets io s) r k h = sets-IsIdle n io s r h
step-IsIdle n (runs io cmd) r k h = execute-IsIdle n io cmd r h
step-IsIdle n (samples busy a) r k h = sample-IsIdle n busy a r h
step-IsIdle n (selects names io next found unit) r k h =
    select-IsIdle n names io next found unit r h

run-IsIdle :
    (n : ℕ) (es : List Event) (r : Runtime)
    → All (λ e. is_arming e ≡ false) es
    → IsIdle n r
    → IsIdle n (run es r)
unfolding run
run-IsIdle n [] r k h = h
run-IsIdle n (e ∷ es) r k h = run-IsIdle n es (step e r) k.1 (step-IsIdle n e r k.0 h)

-- After RequestCancel, until the next Arm, whatever else is called and whatever the device answers:
-- the latch stays set and the device is given no command.
pub run-cancelled :
    (es : List Event) (r : Runtime)
    → All (λ e. is_arming e ≡ false) es
    → ((run es (request_cancel r)).cancel ≡ true)
      × (commands (run es (request_cancel r)).calls ≡ commands r.calls)
unfolding request_cancel
run-cancelled es r h = run-IsIdle (commands r.calls) es (record r { cancel = true }) h (refl, refl)

-- An answer that is an error.
abbrev pub IsBad {ℓ} : {A : Type ℓ} → Answer A → Type 0
IsBad (good a) = ⊥
IsBad (bad f) = Unit

-- Release sets the latch and closes the window on every branch; and a device that was held is
-- released, after which it is either kept or closed without restore and forgotten.
pub release-closed :
    (io : Io) (r : Runtime)
    → ((release io r).0.cancel ≡ true)
      × ((release io r).0.arm_deadline ≡ none)
      × ((r.device ≡ none) × ((release io r).0.calls ≡ r.calls)
          ⊎ ((release io r).0.device ≡ r.device) × ((release io r).0.calls ≡ released ∷ r.calls)
          ⊎ ((release io r).0.device ≡ none)
            × ((release io r).0.calls ≡ closed false ∷ released ∷ r.calls))
unfolding release release_held request_cancel give_up fault
release-closed io r = ground arith

reason_of :
    (f : Fault)
    → (f.loss ≡ none) × (loss_reason f ≡ codes "stopped_answering")
      ⊎ ((code : List ℕ) × (f.loss ≡ some code) × (loss_reason f ≡ code))
reason_of f = split f.loss refl
  where
    split :
        (o : Option (List ℕ))
        → f.loss ≡ o
        → (f.loss ≡ none) × (loss_reason f ≡ codes "stopped_answering")
          ⊎ ((code : List ℕ) × (f.loss ≡ some code) × (loss_reason f ≡ code))
    split none e = inl (e, rw e refl)
    split (some code) e = inr (code, e, rw e refl)

-- Nothing is known of the device any more, and the report gives a reason.
abbrev IsUnknown : Runtime → List ℕ → Type 0
IsUnknown r why =
    (r.device ≡ none)
    × ((status_of r).level_a ≡ none)
    × ((status_of r).level_b ≡ none)
    × ((status_of r).adc_override ≡ none)
    × ((status_of r).ma_pot_override ≡ none)
    × (r.last.reason ≡ some why)

release-IsUnknown :
    (io : Io) (r : Runtime) (f : Fault)
    → io.ctx_ended ≡ false
    → (release io r).1 ≡ some (device_fault f)
    → IsUnknown (release io r).0 (loss_reason f)
unfolding release release_held request_cancel give_up fault
release-IsUnknown io r f h e = ground arith

-- A Release that fails with its context alive forgets the device; the levels and overrides of its
-- status are unknown, and the report gives the reason code of the fault, or of a fault without one
-- that the device stopped answering.
pub release-failed :
    (io : Io) (r : Runtime) (f : Fault)
    → io.ctx_ended ≡ false
    → (release io r).1 ≡ some (device_fault f)
    → ((release io r).0.device ≡ none)
      × ((status_of (release io r).0).level_a ≡ none)
      × ((status_of (release io r).0).level_b ≡ none)
      × ((status_of (release io r).0).adc_override ≡ none)
      × ((status_of (release io r).0).ma_pot_override ≡ none)
      × ((f.loss ≡ none) × ((release io r).0.last.reason ≡ some (codes "stopped_answering"))
          ⊎ ((code : List ℕ) × (f.loss ≡ some code) × ((release io r).0.last.reason ≡ some code)))
release-failed io r f h e =
    let (d, a, b, o, m, why) = release-IsUnknown io r f h e in
    (
      d,
      a,
      b,
      o,
      m,
      elim (reason_of f) [
        | inl (n, k) ↦ inl (n, why ∙ ap some k)
        | inr (code, c, k) ↦ inr (code, c, why ∙ ap some k)
      ],
    )

-- HealthCheck loses a device that was held only if its context is alive and every reading that it
-- takes fails, which are two of an armed device and three of a released one. Then it is released
-- and closed without restore, the latch is set, the window is closed and no device is held.
pub health_check-lost :
    (io : Io) (r : Runtime)
    → is_held r.device ≡ true
    → (health_check io r).1 ≡ false
    → (io.ctx_ended ≡ false)
      × IsBad (io.reading 0)
      × IsBad (io.reading 1)
      × ((is_armed io.now r ≡ true) ⊎ IsBad (io.reading 2))
      × ((health_check io r).0.device ≡ none)
      × ((health_check io r).0.calls ≡ closed false ∷ released ∷ r.calls)
      × ((health_check io r).0.cancel ≡ true)
      × ((health_check io r).0.arm_deadline ≡ none)
unfolding health_check fault read_tries
health_check-lost io r d h = ground arith

-- The command release closes the window of a device that is held, and leaves the latch as it is.
pub execute-release_latch :
    (io : Io) (cmd : Command) (r : Runtime)
    → cmd.verb ≡ Caps.release
    → is_held r.device ≡ true
    → ((execute io cmd r).0.arm_deadline ≡ none) × ((execute io cmd r).0.cancel ≡ r.cancel)
unfolding execute
execute-release_latch io cmd r e h = ground arith
