-- ===== src/Mux/Runs.antt =====
-- internal/mux/mux.go: a session under any interleaving of its peer's frames and its owner's calls.
-- Each is one step: the source holds its locks for less, so that a run here is one of its runs.
use masseuse_camlink.Prelude.{
  ℕ, ◌≤◌, ◌≡◌, refl, Bool, Option, List, [], ◌∷◌, arith, if_keeps, length,
}
use masseuse_camlink.Frame.{Frame}
use masseuse_camlink.Mux.Stream.{Stream, Err, session_closed, Taken, bytes, ended, wait, read}
use masseuse_camlink.Mux.Session.{
  Session, Pending, accept_backlog, new, store, fail, reset_stream, accept_pending, refuse_pending,
  close_with_reason,
}
use masseuse_camlink.Mux.ReadLoop.{handle}
use masseuse_camlink.Mux.Calls.{
  Wake, Outcome, accept, accept_from, read_from, open_start, open_wait, write_to, close_write,
  close_stream,
}
use masseuse_camlink.Mux.Buffer.{read-IsBounded}
use masseuse_camlink.Mux.Invariant.{
  Inv, new-Inv, store-Inv, fail-Inv, close_with_reason-Inv, reset_stream-Inv, accept_pending-Inv,
  refuse_pending-Inv,
}
use masseuse_camlink.Mux.Steps.{
  accept-Inv, handle-Inv, open_start-Inv, open_wait-Inv, write_loop-Inv, close_write-Inv,
  close_stream-Inv,
}

pub data Event : Type 0 where
  -- The read loop: a frame, or the end of the stream.
  arrives : Frame → Event
  breaks : Err → Event
  -- Calls on the session, its pending OPENs and its streams.
  accepts_next : Bool → Event
  accepts_stream : Pending → Event
  refuses : Pending → List ℕ → Event
  opens : List ℕ → Event
  waits : Wake → ℕ → Event
  reads : ℕ → ℕ → Event
  writes : ℕ → List ℕ → Event
  closes_write closes : ℕ → Event
  resets : ℕ → List ℕ → Event
  ends : Event
  ends_with : List ℕ → Event

module _ (accepts : List Frame → Frame → Option ℕ) where
  pub step : Event → Session → Session
  step (arrives f) s = (handle accepts f s).0
  step (breaks e) s = fail e s
  step (accepts_next preferred) s = (accept preferred s).0
  step (accepts_stream p) s = (accept_pending accepts p s).0
  step (refuses p reason) s = (refuse_pending accepts p reason s).0
  step (opens target) s = (open_start accepts target s).0
  step (waits w r) s = (open_wait accepts w r s).0
  step (reads r n) s = (read_from r n s).0
  step (writes r p) s = (write_to accepts r p s).0
  step (closes_write r) s = (close_write accepts r s).0
  step (closes r) s = close_stream accepts r s
  step (resets r reason) s = reset_stream accepts r reason s
  step ends s = fail session_closed s
  step (ends_with reason) s = close_with_reason accepts reason s

  pub run : List Event → Session → Session
  run [] s = s
  run (e ∷ es) s = run es (step e s)

  accept_next-Inv : (preferred : Bool) (s : Session) → Inv s → Inv (accept preferred s).0
  unfolding accept
  accept_next-Inv preferred s v =
      if_keeps (λ (t : Session × Outcome Pending). Inv t.0) s.opener (λ _. v)
        (λ _. from s.accept v.backlog)
    where
      from : (l : List Pending) → length l ≤ accept_backlog → Inv (accept_from preferred l s).0
      from [] h = v
      from (p ∷ ps) h =
          if_keeps (λ (t : Session × Outcome Pending). Inv t.0) _ (λ _. v)
            (λ _. accept-Inv s ps (omega arith) v)

  read_keeps :
      (n : ℕ) (st : Stream) (b : List ℕ) (t : Stream)
      → read n st ≡ bytes b t
      → (t.id ≡ st.id) × (t.dead ≡ st.dead)
  unfolding read
  read_keeps n st b t e = ground arith

  read_from-Inv : (r n : ℕ) (s : Session) → Inv s → Inv (read_from r n s).0
  unfolding read_from
  read_from-Inv r n s v = at (read n (s.heap r)) refl
    where
      at :
          (t : Taken)
          → read n (s.heap r) ≡ t
          → Inv (
              (elim t as (λ _. Session × Outcome (List ℕ)) [
                | bytes b st ↦ (store r st s, Outcome.ok b)
                | ended e ↦ (s, Outcome.failed e)
                | wait ↦ (s, Outcome.blocked)
              ]).0)
      at (bytes b st) e =
          store-Inv s r st v (read-IsBounded n _ b st (v.bounded r) e).0 (read_keeps n _ b st e).0
            (read_keeps n _ b st e).1
      at (ended e) _ = v
      at wait _ = v

  pub step-Inv : (e : Event) (s : Session) → Inv s → Inv (step e s)
  unfolding step write_to
  step-Inv (arrives f) s v = handle-Inv accepts f s v
  step-Inv (breaks e) s v = fail-Inv s e v
  step-Inv (accepts_next preferred) s v = accept_next-Inv preferred s v
  step-Inv (accepts_stream p) s v = accept_pending-Inv accepts p s v
  step-Inv (refuses p reason) s v = refuse_pending-Inv accepts p reason s v
  step-Inv (opens target) s v = open_start-Inv accepts target s v
  step-Inv (waits w r) s v = open_wait-Inv accepts w r s v
  step-Inv (reads r n) s v = read_from-Inv r n s v
  step-Inv (writes r p) s v = write_loop-Inv accepts (length p) r 0 p s v
  step-Inv (closes_write r) s v = close_write-Inv accepts r s v
  step-Inv (closes r) s v = close_stream-Inv accepts r s v
  step-Inv (resets r reason) s v = reset_stream-Inv accepts r reason s v
  step-Inv ends s v = fail-Inv s session_closed v
  step-Inv (ends_with reason) s v = close_with_reason-Inv accepts reason s v

  pub run-Inv : (es : List Event) (s : Session) → Inv s → Inv (run es s)
  unfolding run
  run-Inv [] s v = v
  run-Inv (e ∷ es) s v = run-Inv es (step e s) (step-Inv e s v)

-- After any sequence of frames and calls since the session began: each stream counts at most 8 MiB,
-- and its count is the number of bytes queued; the map leads each id to a live stream with that id;
-- at most 16 OPENs wait; and the session has an error exactly if it has ended.
pub run-new-Inv :
    (accepts : List Frame → Frame → Option ℕ) (es : List Event) (opener : Bool)
    → Inv (run accepts es (new opener))
run-new-Inv accepts es opener = run-Inv accepts es (new opener) (new-Inv opener)
