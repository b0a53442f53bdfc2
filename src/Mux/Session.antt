-- ===== src/Mux/Session.antt =====
-- internal/mux/mux.go, `Session`: the table of streams, what goes out, and how the session ends.
-- A stream object outlives its entry in the table, so streams live in a heap, named by the order of
-- their making, and the table maps stream ids to those names. Each method is one step. The
-- connection under the session is a parameter: `accepts` says of the frames sent so far and the next
-- one whether writing that one fails.
use masseuse_camlink.Prelude.{
  ℕ, ◌+◌, Bool, true, false, Option, none, some, List, [], ◌∷◌, ◌++◌, ◌==◌, if◌then◌else◌, codes,
  decimal,
}
use masseuse_camlink.Frame
use masseuse_camlink.Frame.{Frame}
use masseuse_camlink.Mux.Stream.{
  Stream, Err, session_closed, refused, reset, protocol, unwritable, io, new_stream, ignored,
  overflow, queued_as, enqueue, mark_dead,
}

-- How many unanswered OPENs may queue.
abbrev pub accept_backlog : ℕ
accept_backlog = 16

pub record Pending : Type 0 where
  pub target : List ℕ
  pub st : ℕ

pub record Session : Type 0 where
  pub opener : Bool
  pub heap : ℕ → Stream
  pub fresh : ℕ
  pub streams : List (ℕ × ℕ)
  pub next_id : ℕ
  pub err : Option Err
  pub accept : List Pending
  -- `closeOnce` has run: the channel `done` and the connection are closed.
  pub done : Bool
  pub sent : List Frame

unfoldable pub new : Bool → Session
unfolding new_stream
new opener = record {
  opener = opener;
  heap = λ _. new_stream 0;
  fresh = 0;
  streams = [];
  next_id = 1;
  err = none;
  accept = [];
  done = false;
  sent = [];
}

abbrev pub update : (ℕ → Stream) → ℕ → Stream → ℕ → Stream
update heap r st q = if r == q then st else heap q

abbrev pub store : ℕ → Stream → Session → Session
store r st s = record s { heap = update s.heap r st }

unfoldable pub find : ℕ → List (ℕ × ℕ) → Option ℕ
find id [] = none
find id ((k, r) ∷ m) = if k == id then some r else find id m

unfoldable pub delete : ℕ → List (ℕ × ℕ) → List (ℕ × ℕ)
delete id [] = []
delete id ((k, r) ∷ m) = let rest = delete id m in if k == id then rest else (k, r) ∷ rest

abbrev pub lookup : ℕ → Session → Option ℕ
lookup id s = find id s.streams

abbrev pub remove : ℕ → Session → Session
remove id s = record s { streams = delete id s.streams }

-- `newStream` and its entry in the map.
unfoldable pub insert : ℕ → Session → Session
insert id s = record s {
  heap = update s.heap s.fresh (new_stream id);
  fresh = s.fresh + 1;
  streams = (id, s.fresh) ∷ delete id s.streams;
}

unfoldable pub mark_all : Err → List (ℕ × ℕ) → (ℕ → Stream) → ℕ → Stream
mark_all e [] heap = heap
mark_all e ((k, r) ∷ m) heap = mark_all e m (update heap r (mark_dead e (heap r)))

unfoldable pub fail : Err → Session → Session
fail e s =
    if s.done
    then s
    else record s { err = some e; streams = []; heap = mark_all e s.streams s.heap; done = true }

abbrev pub kill : ℕ → Err → Session → Session
kill r e s = store r (mark_dead e (s.heap r)) s

abbrev pub frame : ℕ → ℕ → List ℕ → Frame
frame type id payload = record { type = type; stream = id; payload = payload }

abbrev pub busy : List ℕ
busy = codes "busy"

-- What the session says of an OPEN whose id is not acceptable.
abbrev pub bad_open : ℕ → List ℕ
bad_open id = codes "OPEN with stream id " ++ decimal 10 id

abbrev pub unexpected : ℕ → List ℕ
unexpected t =
    codes "unexpected "
    ++ (if t == Frame.type_challenge
        then codes "CHALLENGE"
        else if t == Frame.type_prove
        then codes "PROVE"
        else codes "READY")
    ++ codes " on a running session"

-- `Stream.peerClose`.
unfoldable pub peer_close : ℕ → Session → Session
peer_close r s =
    let st = s.heap r in
    let t = store r (record st { peer_closed = true }) s in
    if st.write_closed then remove st.id t else t

-- The frames that went out.
abbrev pub log_sent : Option Err → Frame → Session → Session
log_sent none f s = record s { sent = s.sent ++ f ∷ [] }
log_sent (some e) f s = s

module _ (accepts : List Frame → Frame → Option ℕ) where
  -- The error of `s.w.Write`: the frame cannot be encoded, or the connection fails.
  unfoldable pub write_error : Frame → Session → Option Err
  write_error f s = elim ((Frame.encode [] f).1) [
    | some e ↦ some (unwritable e)
    | none ↦ elim (accepts s.sent f) [ none ↦ none | some e ↦ some (io e) ]
  ]

  -- `s.w.Write`.
  unfoldable pub send : Frame → Session → Session × Option Err
  unfolding write_error
  send f s = (log_sent (write_error f s) f s, write_error f s)

  -- A write whose failure ends the session, `k` following a success.
  abbrev pub send_or_fail :
      Frame → Session → (Session → Session × Option Err) → Session × Option Err
  send_or_fail f s k = elim ((send f s).1) [
    | none ↦ k (send f s).0
    | some e ↦ (fail e (send f s).0, some e)
  ]

  unfoldable pub protocol_error : List ℕ → Session → Session
  protocol_error msg s = fail (protocol msg) (send (frame Frame.type_reset 0 msg) s).0

  unfoldable pub close_with_reason : List ℕ → Session → Session
  close_with_reason reason s = fail session_closed (send (frame Frame.type_reset 0 reason) s).0

  -- `Stream.Reset`.
  unfoldable pub reset_stream : ℕ → List ℕ → Session → Session
  reset_stream r reason s =
      let st = s.heap r in
      if st.dead
      then s
      else (send_or_fail (frame Frame.type_reset st.id reason)
          (kill r (reset reason) (remove st.id s)) (λ t. (t, none))).0

  -- `Stream.deliver`.
  unfoldable pub deliver : ℕ → List ℕ → Session → Session
  deliver r p s = elim (enqueue p (s.heap r)) [
    | ignored ↦ s
    | overflow ↦ reset_stream r (codes "receive buffer overflow") s
    | queued_as st ↦ store r st s
  ]

  -- `Pending.Accept`: the stream, or the error.
  unfoldable pub accept_pending : Pending → Session → Session × Option Err
  accept_pending p s = send_or_fail (frame Frame.type_accept (s.heap p.st).id []) s (λ t. (t, none))

  -- `Pending.Refuse`.
  unfoldable pub refuse_pending : Pending → List ℕ → Session → Session × Option Err
  refuse_pending p reason s =
      send_or_fail (frame Frame.type_refuse (s.heap p.st).id reason)
        (kill p.st (refused reason) (remove (s.heap p.st).id s)) (λ t. (t, none))
