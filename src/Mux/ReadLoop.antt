-- ===== src/Mux/ReadLoop.antt =====
-- internal/mux/mux.go, `readLoop`: what the session does with each frame of its peer.
use masseuse_camlink.Prelude.{
  ℕ, zero, suc, ◌%◌, Bool, true, false, ◌||◌, Option, none, some, List, [], ◌∷◌, ◌++◌, ltb, ◌==◌,
  if◌then◌else◌, is_some, length, codes,
}
use masseuse_camlink.Frame
use masseuse_camlink.Frame.{Frame, Source, ReadError, got, stopped}
use masseuse_camlink.Mux.Stream.{Err, session_closed, refused, reset, io, settle_open}
use masseuse_camlink.Mux.Session.{
  Session, Pending, accept_backlog, store, lookup, remove, insert, fail, kill, busy, bad_open,
  unexpected, protocol_error, deliver, peer_close, refuse_pending,
}

-- A frame's stream, if the table has it.
abbrev with_stream : ℕ → Session → (ℕ → Session) → Session
with_stream id s k = elim (lookup id s) [ none ↦ s | some r ↦ k r ]

-- An id that the peer may not open.
abbrev pub bad_id : Frame → Session → Bool
bad_id f s = f.stream == 0 || f.stream % 2 == 0 || is_some (lookup f.stream s)

-- A frame handled, and whether the loop goes on.
abbrev on : Session → Session × Bool
on s = (s, true)

abbrev off : Session → Session × Bool
off s = (s, false)

unfoldable pub on_answer : Option Err → Frame → Session → Session
on_answer e f s = with_stream f.stream s (λ r. store r (settle_open e (s.heap r)) s)

unfoldable pub on_reset : Frame → Session → Session × Bool
on_reset f s =
    if f.stream == 0
    then off (fail (reset f.payload) s)
    else on (with_stream f.stream s (λ r. kill r (reset f.payload) (remove f.stream s)))

-- A failed read ends the session: at an end of stream as closed, otherwise with the error, which
-- stands for the reader's here.
abbrev pub read_failure : (ReadError → ℕ) → ReadError → Err
read_failure code Frame.eof = session_closed
read_failure code e = io (code e)

module _ (accepts : List Frame → Frame → Option ℕ) where
  -- The new stream goes to whoever accepts, or is refused at once if the backlog is full.
  unfoldable pub offer : Pending → Session → Session
  offer p s =
      if ltb (length s.accept) accept_backlog
      then record s { accept = s.accept ++ p ∷ [] }
      else (refuse_pending accepts p busy s).0

  unfoldable pub on_open : Frame → Session → Session × Bool
  unfolding offer
  on_open f s =
      if s.opener
      then off (protocol_error accepts (codes "peer sent OPEN to the opener") s)
      else if bad_id f s
      then off (protocol_error accepts (bad_open f.stream) s)
      else on (offer (record { target = f.payload; st = s.fresh }) (insert f.stream s))

  -- The body of the loop for one frame that the reader gave, which has a defined type.
  unfoldable pub handle : Frame → Session → Session × Bool
  unfolding on_open on_answer on_reset
  handle f s =
      if f.type == Frame.type_open
      then on_open f s
      else if f.type == Frame.type_accept
      then on (on_answer none f s)
      else if f.type == Frame.type_refuse
      then on (on_answer (some (refused f.payload)) f s)
      else if f.type == Frame.type_data
      then on (with_stream f.stream s (λ r. deliver accepts r f.payload s))
      else if f.type == Frame.type_close
      then on (with_stream f.stream s (λ r. peer_close r s))
      else if f.type == Frame.type_reset
      then on_reset f s
      else off (protocol_error accepts (unexpected f.type) s)

  -- The loop, on fuel: the session, and whether the loop has returned.
  unfoldable pub read_loop : (ReadError → ℕ) → ℕ → Source → Session → Session × Bool
  read_loop code zero src s = (s, false)
  read_loop code (suc fuel) src s = elim (Frame.read src) [
    | stopped e ↦ (fail (read_failure code e) s, true)
    | got f rest ↦ elim ((handle f s).1) [
      | true ↦ read_loop code fuel rest (handle f s).0
      | false ↦ ((handle f s).0, true)
    ]
  ]
