-- ===== src/Estim/Runtime/Unarmed.antt =====
-- internal/estim/runtime.go: the invariant of a runtime across taking a device and letting it go.
use masseuse_camlink.Prelude.{
  Bool, true, false, not, Option, none, some, ltb, ◌≡◌, refl, sym, subst, arith, if_keeps,
  option_keeps,
}
use masseuse_camlink.Estim.Caps.{Settings, validate}
use masseuse_camlink.Estim.Runtime.Release.{
  fault, give_up, release_held, release, set_settings, applies_silently, opened, open_device, close,
  read_tries, health_check, release_if_arm_expired,
}
use masseuse_camlink.Estim.Runtime.Events.{IsSafe, Inv}
use masseuse_camlink.Estim.Runtime.State.{
  Fault, Answer, good, bad, Device, Runtime, Io, Failure, is_held, request_cancel,
}

abbrev pub Kept {ℓ} : {A : Type ℓ} → Runtime × A → Type 0
Kept t = Inv t.0

-- A runtime with no window.
pub unarmed : (r : Runtime) → IsSafe r.calls → r.arm_deadline ≡ none → Inv r
unarmed r h e = record { safe = h; armed_if = λ k. ground arith; held_if = λ k. ground arith }

pub fault-Inv : (f : Fault) (r : Runtime) → IsSafe r.calls → Inv (fault f r)
unfolding fault
fault-Inv f r h = unarmed _ h refl

pub give_up-Inv :
    (io : Io) (f : Fault) (r : Runtime)
    → IsSafe r.calls
    → r.arm_deadline ≡ none
    → Inv (give_up io f r).0
unfolding give_up fault
give_up-Inv io f r h e =
    if_keeps (Kept {A = Option Failure}) io.ctx_ended (λ _. unarmed r h e) (λ _. unarmed _ h refl)

-- The same for a case split on an answer.
pub answer_keeps {ℓ κ μ} :
    {A : Type ℓ} {B : Type κ} (P : B → Type μ) (a : Answer A) {g : A → B} {b : Fault → B}
    → ((x : A) → P (g x))
    → ((f : Fault) → P (b f))
    → P (elim a as (λ _. B) [ good x ↦ g x | bad f ↦ b f ])
answer_keeps P (good x) p q = p x
answer_keeps P (bad f) p q = q f

abbrev pub Result : Type 0
Result = Option Failure

pub release-Inv : (io : Io) (r : Runtime) → Inv r → Inv (release io r).0
unfolding release release_held request_cancel
release-Inv io r v =
    if_keeps (Kept {A = Result}) (is_held r.device)
      (λ _.
        option_keeps (Kept {A = Result}) io.release
          (λ _.
            answer_keeps (Kept {A = Result}) (io.reading 0) (λ st. unarmed _ v.safe refl)
              (λ f. give_up-Inv io f _ v.safe refl))
          (λ f _. give_up-Inv io f _ v.safe refl))
      (λ _. unarmed _ v.safe refl)

-- What keeps the window, the device and the calls keeps the invariant.
pub same-Inv :
    (r s : Runtime)
    → Inv r
    → s.calls ≡ r.calls
    → s.arm_deadline ≡ r.arm_deadline
    → s.device ≡ r.device
    → Inv s
same-Inv r s v c a d = record {
  safe = subst IsSafe (sym c) v.safe;
  armed_if = λ h. ground (arith, v.armed_if);
  held_if = λ h. ground (arith, v.held_if);
}

abbrev pub KeptToo : Runtime × Bool × Option Failure → Type 0
KeptToo t = Inv t.0

pub set_settings-Inv : (io : Io) (s : Settings) (r : Runtime) → Inv r → Inv (set_settings io s r).0
unfolding set_settings
set_settings-Inv io s r v =
    let w : Inv (record r { settings = some s }) =
      same-Inv r (record r { settings = some s }) v refl refl refl in
    option_keeps KeptToo (validate s)
      (λ _. if_keeps KeptToo (applies_silently io.now s r) (λ _. w) (λ _. release-Inv io _ w))
      (λ e _. v)

-- A device is opened only where none is held, and then there is no window.
pub opened-Inv :
    (io : Io) (d : Device) (r : Runtime) → Inv r → is_held r.device ≡ false → Inv (opened io d r).0
opened-Inv io d r v h =
    let e : r.arm_deadline ≡ none = ground (arith, v.held_if) in
    option_keeps (Kept {A = Result}) io.release
      (λ _.
        answer_keeps (Kept {A = Result}) (io.reading 0) (λ st. unarmed _ v.safe e)
          (λ f. unarmed _ v.safe e))
      (λ f _. unarmed _ v.safe e)

pub open_device-Inv :
    (io : Io) (found : Option (Answer Device)) (r : Runtime)
    → Inv r
    → Inv (open_device io found r).0
unfolding open_device
open_device-Inv io found r v =
    if_keeps (Kept {A = Result}) (is_held r.device) (λ _. v)
      λ h.
        option_keeps (Kept {A = Result}) found (λ _. v)
          λ a _. answer_keeps (Kept {A = Result}) a (λ d. opened-Inv io d r v h) (λ f. v)

pub close-Inv : (io : Io) (r : Runtime) → Inv r → Inv (close io r).0
unfolding close request_cancel
close-Inv io r v =
    if_keeps (Kept {A = Result}) (not (is_held r.device))
      (λ _. same-Inv r (record r { cancel = true }) v refl refl refl) (λ _. unarmed _ v.safe refl)

pub health_check-Inv : (io : Io) (r : Runtime) → Inv r → Inv (health_check io r).0
unfolding health_check fault
health_check-Inv io r v =
    if_keeps (Kept {A = Bool}) (not (is_held r.device)) (λ _. v)
      λ _.
        answer_keeps (Kept {A = Bool}) (read_tries _ 0 io)
          (λ st. same-Inv r (record r { last_status = some st }) v refl refl refl)
          (λ f. if_keeps (Kept {A = Bool}) io.ctx_ended (λ _. v) (λ _. unarmed _ v.safe refl))

pub expired-Inv : (io : Io) (r : Runtime) → Inv r → Inv (release_if_arm_expired io r).0
unfolding release_if_arm_expired
expired-Inv io r v =
    option_keeps (Kept {A = Bool}) r.arm_deadline (λ _. v)
      λ d _. if_keeps (Kept {A = Bool}) (ltb io.now d) (λ _. v) (λ _. release-Inv io r v)
