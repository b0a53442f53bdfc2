-- ===== src/Estim/Session/Stale.antt =====
-- internal/estim/session.go: what happens when the service goes quiet.
use masseuse_camlink.Prelude.{All, ◌⊎◌, ◌<◌, ◌+◌, ◌≡◌, refl, ◌∙◌, true, false, none, List, arith}
use masseuse_camlink.Estim.Runtime.State.{Io, reset_settings, request_cancel}
use masseuse_camlink.Estim.Session.State.{Session, queue, ack_stale}
use masseuse_camlink.Estim.Session.Handle.{tick, detach}
use masseuse_camlink.Estim.Session.Flush.{begin_flush}
use masseuse_camlink.Estim.Session.Steps.{System, Step, run}
use masseuse_camlink.Estim.Session.Keeping.{run_keeps_under}
use masseuse_camlink.Estim.Runtime.Latch.{release-closed}
use masseuse_camlink.Estim.Session.Quiet.{IsQuiet, session_step-last_ack, send_next-last_ack}

run-last_ack :
    (es : List Step)
    → All IsQuiet es
    → (y : System) → (run es y).session.last_ack ≡ y.session.last_ack
unfolding begin_flush
run-last_ack es q y =
    run_keeps_under IsQuiet (λ s. s.last_ack ≡ y.session.last_ack)
      (λ e k s h. session_step-last_ack e k s ∙ h) (λ s h. h)
      (λ io answer pending s h. send_next-last_ack io answer pending s ∙ h) es q y refl

-- What a tick does to a session whose last acknowledgment is stale.
pub tick_stale :
    (io : Io) (s : Session)
    → s.last_ack + ack_stale < io.now
    → ((tick io s).attached ≡ false)
      × ((s.attached ≡ false)
          ⊎ ((tick io s).runtime.cancel ≡ true)
            × ((tick io s).runtime.arm_deadline ≡ none)
            × ((tick io s).runtime.settings ≡ none))
unfolding tick detach queue reset_settings
tick_stale io s h = let k = release-closed io (request_cancel s.runtime) in ground (arith, k.0, k.1)

-- If the service goes quiet, with no heartbeat_ack and no companion_attached while anything else
-- happens, then the first heartbeat more than 15 seconds after the last acknowledgment leaves no
-- session attached; and if one still was attached, that heartbeat sets the latch, closes the arm
-- window and drops the session's settings.
pub quiet-detached :
    (es : List Step) (y : System) (io : Io)
    → All IsQuiet es
    → y.session.last_ack + ack_stale < io.now
    → let s = (run es y).session in
      ((tick io s).attached ≡ false)
      × ((s.attached ≡ false)
          ⊎ ((tick io s).runtime.cancel ≡ true)
            × ((tick io s).runtime.arm_deadline ≡ none)
            × ((tick io s).runtime.settings ≡ none))
quiet-detached es y io q h = tick_stale io (run es y).session (omega (arith, run-last_ack es q y))
