-- ===== src/Mux/Endings.antt =====
-- internal/mux/mux.go: how a session ends, and what one stream's trouble leaves alone.
use masseuse_camlink.Prelude.{
  ℕ, zero, suc, ◌+◌, ◌≤◌, ◌<◌, ◌≡◌, ◌≢◌, ◌⊎◌, ◌↔◌, inl, inr, refl, ap, ◌∙◌, true, false, Option,
  none, some, List, [], ◌∷◌, ◌++◌, arith, length, All, if_keeps, option_keeps, codes, Bool-cases,
}
use masseuse_camlink.Frame
use masseuse_camlink.Frame.{Frame, Source, Read, got, stopped, ReadError}
use masseuse_camlink.Frame.Stream.{read_shrinks}
use masseuse_camlink.Mux.Stream.{
  Err, max_inbound, reset, protocol, Stream, enqueue, settle_open, mark_dead,
}
use masseuse_camlink.Mux.Session.{
  Session, lookup, find, delete, fail, mark_all, send, protocol_error, frame, bad_open, unexpected,
  deliver, reset_stream, remove, kill,
}
use masseuse_camlink.Mux.ReadLoop.{bad_id, handle, read_loop, read_failure}
use masseuse_camlink.Mux.Table.{mark_all_kills}
use masseuse_camlink.Mux.Transfer.{takes_all, data_frame}

-- A session that has ended for a reason: the map is empty, and every stream that it named is dead.
pub record EndedBy (e : Err) (before after : Session) : Type 0 where
  pub reason : after.err ≡ some e
  pub finished : after.done ≡ true
  pub emptied : after.streams ≡ []
  pub dead : All (λ p. (after.heap p.1).dead ≡ true) before.streams

abbrev over : Err → Session → Session
over e s = record s { err = some e; streams = []; heap = mark_all e s.streams s.heap; done = true }

fail_over : (e : Err) (s : Session) → s.done ≡ false → fail e s ≡ over e s
unfolding fail
fail_over e s d = if_keeps (λ t. t ≡ over e s) s.done (λ h. cc) (λ _. refl)

-- The failure of a session that runs ends it: its reason is kept, the map is emptied and every
-- stream in it is dead; a later failure changes nothing.
pub fail_ends :
    (e e' : Err) (s : Session)
    → s.done ≡ false
    → EndedBy e s (fail e s) × (fail e' (fail e s) ≡ fail e s)
fail_ends e e' s d = rw (fail_over e s d) (
  record {
    reason = refl;
    finished = refl;
    emptied = refl;
    dead = mark_all_kills e s.streams s.heap;
  },
  unfold fail in refl,
)

-- A frame that breaks the protocol.
abbrev pub Violates : Frame → Session → Type 0
Violates f s =
    ((f.type ≡ Frame.type_open) × ((s.opener ≡ true) ⊎ (bad_id f s ≡ true)))
    ⊎ (Frame.type_reset < f.type)

module _ (accepts : List Frame → Frame → Option ℕ) where
  -- On a frame of a defined type the loop stops exactly if the frame is an OPEN to the opener or
  -- with an id that is even, zero or in use, belongs to the handshake, or resets the whole session.
  pub handle_stops :
      (f : Frame) (s : Session)
      → Frame.valid f.type ≡ true
      → ((handle accepts f s).1 ≡ false)
        ↔ (Violates f s ⊎ (f.type ≡ Frame.type_reset) × (f.stream ≡ 0))
  unfolding handle
  handle_stops f s v = (λ h. ground arith, λ h. ground arith)

send_reset :
    (id : ℕ) (reason : List ℕ) (s : Session)
    → length reason ≤ Frame.max_payload
    → send takes_all (frame Frame.type_reset id reason) s
      ≡ (record s { sent = s.sent ++ frame Frame.type_reset id reason ∷ [] }, none)
unfolding send Frame.encode
send_reset id reason s h = ground arith

-- `Reset` of a live stream: the stream is dead, it is out of the map, the peer is told, and no other
-- stream is touched.
reset_stream_live :
    (r : ℕ) (reason : List ℕ) (s : Session)
    → (s.heap r).dead ≡ false
    → length reason ≤ Frame.max_payload
    → let t = kill r (reset reason) (remove (s.heap r).id s) in
      reset_stream takes_all r reason s
      ≡ record t { sent = t.sent ++ frame Frame.type_reset (s.heap r).id reason ∷ [] }
unfolding reset_stream
reset_stream_live r reason s d h =
    let t : Session = kill r (reset reason) (remove (s.heap r).id s) in
    if_keeps
      (λ u. u ≡ record t { sent = t.sent ++ frame Frame.type_reset (s.heap r).id reason ∷ [] })
      (s.heap r).dead (λ p. cc) (λ _. ground (arith, send_reset (s.heap r).id reason t h))

reset_stream_others :
    (r q : ℕ) (reason : List ℕ) (s : Session)
    → r ≢ q
    → length reason ≤ Frame.max_payload
    → (reset_stream takes_all r reason s).heap q ≡ s.heap q
reset_stream_others r q reason s n h = elim (Bool-cases (s.heap r).dead) [
  | inl d ↦ unfold reset_stream in rw d
  | inr d ↦ rw (reset_stream_live r reason s d h) (ground arith)
]

-- Over a connection that takes every frame, a DATA frame touches no stream but the one that the map
-- has for its id.
pub handle-data_others :
    (id q : ℕ) (p : List ℕ) (s : Session)
    → lookup id s ≢ some q
    → (handle takes_all (data_frame id p) s).0.heap q ≡ s.heap q
unfolding handle deliver
handle-data_others id q p s h =
    option_keeps (λ (t : Session). t.heap q ≡ s.heap q) (lookup id s) (λ _. refl)
      λ r e. ground (
        arith,
        reset_stream_others r q (codes "receive buffer overflow") s (λ k. h (e ∙ ap some k)),
      )

delete_gone : (id : ℕ) (m : List (ℕ × ℕ)) → find id (delete id m) ≡ none
unfolding delete find
delete_gone id [] = refl
delete_gone id ((k, q) ∷ m) = ground (arith, delete_gone id m)

delete_others : (id k : ℕ) (m : List (ℕ × ℕ)) → k ≢ id → find k (delete id m) ≡ find k m
unfolding delete find
delete_others id k [] n = refl
delete_others id k ((j, q) ∷ m) n = ground (arith, delete_others id k m n)

-- A stream that was given up: dead for a reason, with no byte left, and nobody waits for its answer.
pub record GivenUp (e : Err) (before after : Stream) : Type 0 where
  pub same_id : after.id ≡ before.id
  pub dead : after.dead ≡ true
  pub reason : after.err ≡ some e
  pub emptied : after.queue ≡ []
  pub uncounted : after.queued ≡ 0
  pub settled : after.opened ≡ true

mark_dead-GivenUp : (e : Err) (st : Stream) → st.dead ≡ false → GivenUp e st (mark_dead e st)
unfolding mark_dead settle_open
mark_dead-GivenUp e st d = record {
  same_id = ground arith;
  dead = ground arith;
  reason = ground arith;
  emptied = ground arith;
  uncounted = ground arith;
  settled = ground arith;
}

overflowed :
    (r : ℕ) (p : List ℕ) (s : Session)
    → (s.heap r).dead ≡ false
    → (s.heap r).peer_closed ≡ false
    → max_inbound < (s.heap r).queued + length p
    → deliver takes_all r p s ≡ reset_stream takes_all r (codes "receive buffer overflow") s
unfolding deliver enqueue
overflowed r p s d c h = ground arith

-- Over a connection that takes every frame, a payload that would take a live and open stream past
-- its limit gives the stream up: it is dead for that reason, its bytes are dropped and its count is
-- zero, its id is out of the map, and the peer is sent one RESET of it; any other stream is as
-- before, and any other id is looked up as before.
pub deliver_overflow :
    (r q k : ℕ) (p : List ℕ) (s : Session)
    → (s.heap r).dead ≡ false
    → (s.heap r).peer_closed ≡ false
    → max_inbound < (s.heap r).queued + length p
    → r ≢ q
    → k ≢ (s.heap r).id
    → let t = deliver takes_all r p s in
      let id = (s.heap r).id in
      let why = codes "receive buffer overflow" in
      GivenUp (reset why) (s.heap r) (t.heap r)
      × (t.heap q ≡ s.heap q)
      × (lookup id t ≡ none)
      × (lookup k t ≡ lookup k s)
      × (t.sent ≡ s.sent ++ frame Frame.type_reset id why ∷ [])
deliver_overflow r q k p s d c h n m =
    let why = codes "receive buffer overflow" in
    let e = overflowed r p s d c h ∙ reset_stream_live r why s d (omega arith) in
    rw e (
      ground (arith, mark_dead-GivenUp (reset why) (s.heap r) d),
      ground arith,
      delete_gone (s.heap r).id s.streams,
      delete_others (s.heap r).id k s.streams m,
      refl,
    )

Read-cases :
    (r : Read Frame)
    → ((f : Frame) × (t : Source) × (r ≡ got f t)) ⊎ ((e : ReadError) × (r ≡ stopped e))
Read-cases (got f t) = inl (f, t, refl)
Read-cases (stopped e) = inr (e, refl)

fail_done : (e : Err) (s : Session) → (fail e s).done ≡ true
unfolding fail
fail_done e s = if_keeps (λ (t : Session). t.done ≡ true) s.done (λ d. d) (λ _. refl)

module _ (accepts : List Frame → Frame → Option ℕ) where
  handle_stopped :
      (f : Frame) (s : Session)
      → (handle accepts f s).1 ≡ false
      → (handle accepts f s).0.done ≡ true
  unfolding handle protocol_error
  handle_stopped f s h = ground (
    arith,
    fail_done (reset f.payload) s,
    fail_done (protocol (codes "peer sent OPEN to the opener"))
        (send accepts (frame Frame.type_reset 0 (codes "peer sent OPEN to the opener")) s).0,
    fail_done (protocol (bad_open f.stream))
        (send accepts (frame Frame.type_reset 0 (bad_open f.stream)) s).0,
    fail_done (protocol (unexpected f.type))
        (send accepts (frame Frame.type_reset 0 (unexpected f.type)) s).0,
  )

  -- The read loop returns on every input: more rounds than there are bytes are enough. When it has
  -- returned, the session has ended.
  pub read_loop_returns :
      (code : ReadError → ℕ) (fuel : ℕ) (src : Source) (s : Session)
      → length src.bytes < fuel
      → ((read_loop accepts code fuel src s).1 ≡ true)
        × ((read_loop accepts code fuel src s).0.done ≡ true)
  unfolding read_loop
  read_loop_returns code zero src s h = elim h [ ]
  read_loop_returns code (suc fuel) src s h = elim (Read-cases (Frame.read src)) [
    | inl (f, rest, e) ↦
        let less = read_shrinks src rest f e in
        let ih = read_loop_returns code fuel rest (handle accepts f s).0 (omega arith) in
        ground (arith, e, ih, handle_stopped f s)
    | inr (x, e) ↦ ground (arith, e, fail_done (read_failure code x) s)
  ]
