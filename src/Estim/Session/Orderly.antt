-- ===== src/Estim/Session/Orderly.antt =====
-- internal/estim/session.go: the bounds that a `Session` keeps, on its outbox and on its goroutines.
use masseuse_camlink.Prelude.{
  ℕ, ◌+◌, ◌≡◌, ◌≤◌, ap, ◌∙◌, Bool, true, false, ◌&&◌, ◌||◌, not, Option, none, some, List, [], ◌∷◌,
  ◌++◌, length, if◌then◌else◌, if_keeps, arith,
}
use masseuse_camlink.Estim.Runtime.State.{Io, is_armed, is_held}
use masseuse_camlink.Estim.Session.Outbox.{max_outbox}
use masseuse_camlink.Estim.Session.Trimmed.{trim_bounds}
use masseuse_camlink.Estim.Session.State.{
  Session, Task, arms, runs, Message, queue, queue_runtime_state,
}
use masseuse_camlink.Estim.Session.Handle.{detach, auto_arm, queue_some, is_release}

abbrev pub bit : Bool → ℕ
bit b = if b then 1 else 0

abbrev pub is_command : Task → Bool
is_command (runs sid cid p) = not (is_release p)
is_command t = false

abbrev pub is_arming : Task → Bool
is_arming (arms sid) = true
is_arming t = false

unfoldable pub count : (Task → Bool) → List Task → ℕ
count p [] = 0
count p (t ∷ ts) = bit (p t) + count p ts

pub count-append :
    (p : Task → Bool) (ts : List Task) (t : Task) → count p (ts ++ t ∷ []) ≡ count p ts + bit (p t)
unfolding count
count-append p [] t = omega arith
count-append p (u ∷ ts) t = omega (arith, count-append p ts t)

-- The outbox is bounded; and besides `n` commands and `m` armings that run, one command at most
-- waits, that `busy` says, and one arming, that `arming` says.
abbrev pub IsOrderlyBut : ℕ → ℕ → Session → Type 0
IsOrderlyBut n m s =
    (length s.outbox ≤ max_outbox)
    × (count is_command s.tasks + n ≡ bit s.busy)
    × (count is_arming s.tasks + m ≡ bit s.arming)

abbrev pub IsOrderly : Session → Type 0
IsOrderly s = IsOrderlyBut 0 0 s

module _ (n m : ℕ) where
  pub queue-IsOrderly :
      (sid : List ℕ) (telemetry : Bool) (x : Message) (s : Session)
      → IsOrderlyBut n m s
      → IsOrderlyBut n m (queue sid telemetry x s)
  unfolding queue
  queue-IsOrderly sid telemetry x s h = (trim_bounds _, h.1, h.2)

  pub queue_some-IsOrderly :
      (x : Option Message) (s : Session) → IsOrderlyBut n m s → IsOrderlyBut n m (queue_some x s)
  queue_some-IsOrderly none s h = h
  queue_some-IsOrderly (some x) s h = queue-IsOrderly [] false x s h

  pub queue_runtime_state-IsOrderly :
      (now : ℕ) (sid : List ℕ) (s : Session)
      → IsOrderlyBut n m s
      → IsOrderlyBut n m (queue_runtime_state now sid s)
  queue_runtime_state-IsOrderly now sid s h =
      queue-IsOrderly sid false _ _ (queue-IsOrderly sid false _ s h)

  pub auto_arm-IsOrderly :
      (now : ℕ) (s : Session) → IsOrderlyBut n m s → IsOrderlyBut n m (auto_arm now s)
  unfolding auto_arm
  auto_arm-IsOrderly now s h =
      if_keeps (IsOrderlyBut n m) ((not s.attached || s.arming) || is_armed now s.runtime) (λ _. h)
        (λ e.
          if_keeps (IsOrderlyBut n m) (not (is_held s.runtime.device)) (λ _. h)
            (λ _. (
              h.0,
              omega (arith, count-append is_command s.tasks (arms s.session_id), h.1),
              let e' : s.arming ≡ false = ground arith in
                  let k : count is_arming s.tasks + m ≡ 0 = h.2 ∙ ap bit e' in
                  omega (arith, count-append is_arming s.tasks (arms s.session_id), k),
            )))

  pub detach-IsOrderly :
      (io : Io) (reason : List ℕ) (tell : Bool) (s : Session)
      → IsOrderlyBut n m s
      → IsOrderlyBut n m (detach io reason tell s)
  unfolding detach queue
  detach-IsOrderly io reason tell s h =
      if_keeps (IsOrderlyBut n m) (s.attached && tell) (λ _. (trim_bounds _, h.1, h.2)) (λ _. h)
