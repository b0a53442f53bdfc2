-- ===== src/Mux/Calls.antt =====
-- internal/mux/mux.go: what the owner of a session and of its streams calls.
use masseuse_camlink.Prelude.{
  ℕ, zero, suc, ◌+◌, ◌%◌, ◌^◌, Bool, true, ◌||◌, ◌&&◌, not, Option, none, some, List, [], ◌∷◌,
  if◌then◌else◌, length, codes, min, take, drop,
}
use masseuse_camlink.Frame
use masseuse_camlink.Frame.{Frame}
use masseuse_camlink.Mux.Stream.{
  Err, stream_closed, not_opener, not_acceptor, closed_pipe, cancelled, bytes, ended, wait, read,
}
use masseuse_camlink.Mux.Session.{
  Session, Pending, store, remove, insert, fail, kill, frame, send, send_or_fail, reset_stream,
}

-- What a call that waits is woken by.
pub data Wake : Type 0 where
  by_opened by_death by_context : Wake

-- The result of a call: a value, or an error (which Go may leave nil).
pub data Outcome {ℓ} (A : Type ℓ) : Type ℓ where
  ok : A → Outcome A
  failed : Option Err → Outcome A
  blocked : Outcome A

-- `Session.Accept`, whose context has not ended: the next OPEN, or why there will be none. Where
-- both are ready the select may take either: `preferred` says which.
unfoldable pub accept_from : Bool → List Pending → Session → Session × Outcome Pending
accept_from preferred [] s = (s, if s.done then failed s.err else blocked)
accept_from preferred (p ∷ ps) s =
    if s.done && not preferred then (s, failed s.err) else (record s { accept = ps }, ok p)

unfoldable pub accept : Bool → Session → Session × Outcome Pending
unfolding accept_from
accept preferred s =
    if s.opener then (s, failed (some not_acceptor)) else accept_from preferred s.accept s

-- `Stream.Read` into a buffer of `n` bytes.
unfoldable pub read_from : ℕ → ℕ → Session → Session × Outcome (List ℕ)
read_from r n s = elim (read n (s.heap r)) [
  | bytes b st ↦ (store r st s, ok b)
  | ended e ↦ (s, failed e)
  | wait ↦ (s, blocked)
]

-- The next id is taken, and its stream is in the map.
abbrev pub registered : Session → Session
registered s = record (insert s.next_id s) { next_id = (s.next_id + 2) % 2 ^ 32 }

-- The DATA frame of one round of a write: at most a frame's payload.
abbrev pub chunk : ℕ → List ℕ → Frame
chunk id p = frame Frame.type_data id (take (min (length p) Frame.max_payload) p)

module _ (accepts : List Frame → Frame → Option ℕ) where
  -- `Session.Open` up to its select: the new stream's name.
  unfoldable pub open_start : List ℕ → Session → Session × Outcome ℕ
  open_start target s = if not s.opener then (s, failed (some not_opener)) else elim s.err [
    | some e ↦ (s, failed (some e))
    | none ↦ elim ((send accepts (frame Frame.type_open s.next_id target) (registered s)).1) [
      | none ↦
          ((send accepts (frame Frame.type_open s.next_id target) (registered s)).0, ok s.fresh)
      | some e ↦ (
        fail e (send accepts (frame Frame.type_open s.next_id target) (registered s)).0,
        failed (some e),
      )
    ]
  ]

  -- Its select, woken one way.
  unfoldable pub open_wait : Wake → ℕ → Session → Session × Outcome ℕ
  open_wait by_opened r s = elim (s.heap r).open_err [
    | some e ↦ (remove (s.heap r).id s, failed (some e))
    | none ↦ (s, ok r)
  ]
  open_wait by_death r s = (s, failed (s.heap r).err)
  open_wait by_context r s =
      (reset_stream accepts r (codes "open cancelled") s, failed (some cancelled))

  -- `Stream.Write`: the bytes written and the error. One round writes at most a frame's payload,
  -- so that `fuel` rounds do for that many bytes.
  unfoldable pub write_loop : ℕ → ℕ → ℕ → List ℕ → Session → Session × ℕ × Option Err
  write_loop zero r written p s = (s, written, none)
  write_loop (suc fuel) r written [] s = (s, written, none)
  write_loop (suc fuel) r written (x ∷ xs) s =
      let n = min (length (x ∷ xs)) Frame.max_payload in
      let f = chunk (s.heap r).id (x ∷ xs) in
      let rest = write_loop fuel r (written + n) (drop n (x ∷ xs)) (send accepts f s).0 in
      if (s.heap r).dead
      then (s, written, (s.heap r).err)
      else if (s.heap r).write_closed
      then (s, written, some stream_closed)
      else elim ((send accepts f s).1) [
        | none ↦ rest
        | some e ↦ (fail e (send accepts f s).0, written, some e)
      ]

  unfoldable pub write_to : ℕ → List ℕ → Session → Session × ℕ × Option Err
  unfolding write_loop
  write_to r p s = write_loop (length p) r 0 p s

  -- `Stream.CloseWrite`.
  unfoldable pub close_write : ℕ → Session → Session × Option Err
  close_write r s =
      let st = s.heap r in
      let t = store r (record st { write_closed = true }) s in
      if st.dead || st.write_closed
      then (s, none)
      else send_or_fail accepts (frame Frame.type_close st.id []) t
          (λ u. (if st.peer_closed then remove st.id u else u, none))

  -- `Stream.Close`.
  unfoldable pub close_stream : ℕ → Session → Session
  close_stream r s =
      if (s.heap r).peer_closed || (s.heap r).dead
      then kill r closed_pipe (remove (s.heap r).id (close_write r s).0)
      else reset_stream accepts r (codes "closed") s
