-- ===== src/Estim/Session/Keeping.antt =====
-- internal/estim/session.go: what every step of a `Session` keeps, any run keeps.
use masseuse_camlink.Prelude.{Option, none, some, List, [], ◌∷◌, All}
use masseuse_camlink.Estim.Runtime.State.{Io}
use masseuse_camlink.Estim.Session.State.{Session}
use masseuse_camlink.Estim.Session.Flush.{Messages, Sent, begin_flush, send_next}
use masseuse_camlink.Estim.Session.Steps.{
  System, Step, handles, ticks, ticks_telemetry, flushes, offers, changes, lists, detaches,
  proceeds, sends, operates, start_flush, flush_on, session_step, step, run,
}

module _ {κ μ} (Q : Step → Type μ) (P : Session → Type κ)
    (steps : (e : Step) → Q e → (s : Session) → P s → P (session_step e s))
    (begins : (s : Session) → P s → P (begin_flush s).0)
    (continues : (io : Io) (answer : Sent) (pending : Messages) (s : Session)
      → P s
      → P (send_next io answer pending s).0) where
  start_flush_keeps : (s : Session) (p : Option Messages) → P s → P (start_flush s p).session
  start_flush_keeps s none h = begins s h
  start_flush_keeps s (some pending) h = h

  flush_on_keeps :
      (io : Io) (answer : Sent) (s : Session) (p : Option Messages)
      → P s
      → P (flush_on io answer s p).session
  flush_on_keeps io answer s none h = h
  flush_on_keeps io answer s (some pending) h = continues io answer pending s h

  step_keeps : (e : Step) → Q e → (y : System) → P y.session → P (step e y).session
  unfolding step
  step_keeps flushes q y h = start_flush_keeps y.session y.pending h
  step_keeps (sends io answer) q y h = flush_on_keeps io answer y.session y.pending h
  step_keeps (handles io choose sid m) q y h = steps (handles io choose sid m) q y.session h
  step_keeps (ticks io) q y h = steps (ticks io) q y.session h
  step_keeps ticks_telemetry q y h = steps ticks_telemetry q y.session h
  step_keeps (offers f) q y h = steps (offers f) q y.session h
  step_keeps (changes now d connected units) q y h =
      steps (changes now d connected units) q y.session h
  step_keeps (lists units) q y h = steps (lists units) q y.session h
  step_keeps (detaches io reason) q y h = steps (detaches io reason) q y.session h
  step_keeps (proceeds io next n) q y h = steps (proceeds io next n) q y.session h
  step_keeps (operates e) q y h = steps (operates e) q y.session h

  pub run_keeps_under :
      (es : List Step) → All Q es → (y : System) → P y.session → P (run es y).session
  unfolding run
  run_keeps_under [] qs y h = h
  run_keeps_under (e ∷ es) (q, qs) y h = run_keeps_under es qs (step e y) (step_keeps e q y h)

abbrev Any : Step → Type 0
Any e = Unit

All-Any : (es : List Step) → All Any es
All-Any [] = tt
All-Any (e ∷ es) = (tt, All-Any es)

pub run_keeps {κ} :
    (P : Session → Type κ)
    → ((e : Step) (s : Session) → P s → P (session_step e s))
    → ((s : Session) → P s → P (begin_flush s).0)
    → ((io : Io) (answer : Sent) (pending : Messages) (s : Session)
        → P s
        → P (send_next io answer pending s).0)
    → (es : List Step) (y : System) → P y.session
    → P (run es y).session
run_keeps P steps begins continues es y h =
    run_keeps_under Any P (λ e _. steps e) begins continues es (All-Any es) y h
