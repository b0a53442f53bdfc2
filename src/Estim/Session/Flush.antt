-- ===== src/Estim/Session/Flush.antt =====
-- internal/estim/session.go, `Flush`: sending what is queued. Between its calls of `Send` others may
-- queue, so that it is a machine with a state of its own: what is still to be sent.
use masseuse_camlink.Prelude.{
  ℕ, Bool, false, Option, none, some, List, [], ◌∷◌, ◌++◌, if◌then◌else◌, same_text, is_empty,
  codes,
}
use masseuse_camlink.Estim.Runtime.State.{Io}
use masseuse_camlink.Estim.Session.Outbox.{Queued, trim}
use masseuse_camlink.Estim.Session.State.{Message, Session}
use masseuse_camlink.Estim.Session.Handle.{detach}
use masseuse_camlink.Estim.Session.Tasks.{is_attached}

-- What `Send` answers: nothing, that the messages are refused, that the session is no longer bound, or
-- any other error; and whether the context has ended since.
pub data Sent : Type 0 where
  sent refused : Sent
  session_gone send_failed : Bool → Sent

abbrev pub Messages : Type 0
Messages = List (Queued Message)

-- The messages at the front that are for one session, and the others.
unfoldable pub split_batch : List ℕ → Messages → Messages × Messages
split_batch sid [] = ([], [])
split_batch sid (q ∷ qs) =
    let rest = split_batch sid qs in
    if same_text q.session_id sid then (q ∷ rest.0, rest.1) else ([], q ∷ qs)

-- The batch and the rest of what is pending.
unfoldable pub next_batch : Messages → Messages × Messages
unfolding split_batch
next_batch [] = ([], [])
next_batch (q ∷ qs) = (q ∷ (split_batch q.session_id qs).0, (split_batch q.session_id qs).1)

abbrev pub sid_of : Messages → List ℕ
sid_of [] = []
sid_of (q ∷ qs) = q.session_id

-- `Flush` takes the whole outbox.
unfoldable pub begin_flush : Session → Session × Messages
begin_flush s = (record s { outbox = [] }, s.outbox)

-- What was not sent goes back.
abbrev pub put_back : Messages → Session → Session
put_back pending s = record s { outbox = trim (pending ++ s.outbox) }

abbrev pub give_up : Bool → Messages → Session → Session × Option Messages
give_up ended pending s = if ended then (s, none) else (put_back pending s, none)

-- One round of its loop, after a call of `Send` of the next batch: the session, and what is still to be
-- sent, `none` once it has returned.
unfoldable pub send_next : Io → Sent → Messages → Session → Session × Option Messages
unfolding next_batch detach
send_next io answer [] s = (s, none)
send_next io answer (q ∷ qs) s =
    let rest = (next_batch (q ∷ qs)).1 in
    let gone : Session =
      if is_attached q.session_id s then detach io (codes "session_unbound") false s else s in
    elim answer [
      | sent ↦ (s, some rest)
      | session_gone ended ↦
          if is_empty q.session_id then give_up ended (q ∷ qs) s else (gone, some rest)
      | refused ↦ (s, some rest)
      | send_failed ended ↦ give_up ended (q ∷ qs) s
    ]
