-- ===== src/Mux/Transfer.antt =====
-- internal/mux/mux.go: what is written to a stream at one end is what its other end reads.
use masseuse_camlink.Prelude.{
  ℕ, zero, suc, ◌+◌, ◌≤◌, ◌≡◌, refl, ap, ◌∙◌, Bool, true, false, Option, none, some, List, [], ◌∷◌,
  ◌++◌, map, arith, length, All, take, drop, min, append_assoc, append-nil, length-take,
  length-drop, length-append, take-append-drop,
}
use masseuse_camlink.Frame
use masseuse_camlink.Frame.{Frame}
use masseuse_camlink.Mux.Stream.{Stream, max_inbound, queued_as, enqueue}
use masseuse_camlink.Mux.Session.{Session, store, lookup, frame, send, deliver}
use masseuse_camlink.Mux.ReadLoop.{handle}
use masseuse_camlink.Mux.Calls.{chunk, write_loop, write_to}
use masseuse_camlink.Mux.Buffer.{
  IsBounded, total, pending, enqueue_all, enqueue_all_step, enqueue_all-pending, enqueue-IsBounded,
}

-- A connection that takes every frame.
abbrev pub takes_all : List Frame → Frame → Option ℕ
takes_all sent f = none

abbrev pub data_frame : ℕ → List ℕ → Frame
data_frame id p = frame Frame.type_data id p

send_data :
    (id : ℕ) (p : List ℕ) (s : Session)
    → length p ≤ Frame.max_payload
    → send takes_all (data_frame id p) s
      ≡ (record s { sent = s.sent ++ data_frame id p ∷ [] }, none)
unfolding send Frame.encode
send_data id p s h = ground arith

-- The pieces that a write of `p` sends.
abbrev IsWritten : ℕ → ℕ → ℕ → List ℕ → Session → List (List ℕ) → Type 0
IsWritten fuel r n p s ps =
    (pending ps ≡ p)
    × All (λ q. length q ≤ Frame.max_payload) ps
    × (write_loop takes_all fuel r n p s
        ≡ (record s { sent = s.sent ++ map (data_frame (s.heap r).id) ps }, n + length p, none))

write_loop_step :
    (fuel r n x : ℕ) (xs : List ℕ) (s : Session)
    → (s.heap r).dead ≡ false
    → (s.heap r).write_closed ≡ false
    → let c = chunk (s.heap r).id (x ∷ xs) in
      let k = min (length (x ∷ xs)) Frame.max_payload in
      write_loop takes_all (suc fuel) r n (x ∷ xs) s
      ≡ write_loop takes_all fuel r (n + k) (drop k (x ∷ xs)) (record s { sent = s.sent ++ c ∷ [] })
unfolding write_loop
write_loop_step fuel r n x xs s d w = rw (d, w, ap (λ t. t.1) sent, ap (λ t. t.0) sent)
  where
    sent :
        send takes_all (chunk (s.heap r).id (x ∷ xs)) s
        ≡ (record s { sent = s.sent ++ chunk (s.heap r).id (x ∷ xs) ∷ [] }, none)
    sent =
        send_data (s.heap r).id _ s
          (omega (arith, length-take (min (length (x ∷ xs)) Frame.max_payload) (x ∷ xs)))

write_loop_pieces :
    (fuel r n : ℕ) (p : List ℕ) (s : Session)
    → (s.heap r).dead ≡ false
    → (s.heap r).write_closed ≡ false
    → length p ≤ fuel
    → (ps : List (List ℕ)) × IsWritten fuel r n p s ps
write_loop_pieces zero r n [] s d w h =
    ([], (refl, tt, unfold write_loop in ground (arith, append-nil s.sent)))
write_loop_pieces (suc fuel) r n [] s d w h =
    ([], (refl, tt, unfold write_loop in ground (arith, append-nil s.sent)))
write_loop_pieces zero r n (x ∷ xs) s d w h = absurd (omega arith)
write_loop_pieces (suc fuel) r n (x ∷ xs) s d w h =
    let k = min (length (x ∷ xs)) Frame.max_payload in
    let c : List ℕ = take k (x ∷ xs) in
    let t : Session = record s { sent = s.sent ++ data_frame (s.heap r).id c ∷ [] } in
    let (ps, (whole, small, e)) =
      write_loop_pieces fuel r (n + k) (drop k (x ∷ xs)) t d w
        (omega (arith, length-drop k (x ∷ xs))) in
    (
      c ∷ ps,
      (
        rw whole (take-append-drop k (x ∷ xs)),
        (omega (arith, length-take k (x ∷ xs)), small),
        write_loop_step fuel r n x xs s d w
            ∙ e
            ∙ ground (
              arith,
              length-drop k (x ∷ xs),
              append_assoc s.sent (data_frame (s.heap r).id c ∷ [])
                  (map (data_frame (s.heap r).id) ps),
            ),
      ),
    )

-- The read loop's handling of frames one after the other.
unfoldable pub handle_all : List Frame → Session → Session
handle_all [] s = s
handle_all (f ∷ fs) s = handle_all fs (handle takes_all f s).0

handle_data :
    (id r : ℕ) (p : List ℕ) (s : Session) (t : Stream)
    → lookup id s ≡ some r
    → enqueue p (s.heap r) ≡ queued_as t
    → handle takes_all (data_frame id p) s ≡ (store r t s, true)
unfolding handle deliver
handle_data id r p s t found e = ground arith

handle_all_step :
    (id r : ℕ) (p : List ℕ) (ps : List (List ℕ)) (s : Session) (t : Stream)
    → lookup id s ≡ some r
    → enqueue p (s.heap r) ≡ queued_as t
    → (handle_all (map (data_frame id) (p ∷ ps)) s).heap r
      ≡ (handle_all (map (data_frame id) ps) (store r t s)).heap r
unfolding handle_all
handle_all_step id r p ps s t found e =
    ap (λ (u : Session × Bool). (handle_all (map (data_frame id) ps) u.0).heap r)
      (handle_data id r p s t found e)

-- Every payload of a stream goes to that stream's queue.
handle_all-data :
    (id r : ℕ) (ps : List (List ℕ)) (s : Session)
    → lookup id s ≡ some r
    → IsBounded (s.heap r)
    → (s.heap r).dead ≡ false
    → (s.heap r).peer_closed ≡ false
    → (s.heap r).queued + total ps ≤ max_inbound
    → (handle_all (map (data_frame id) ps) s).heap r ≡ enqueue_all ps (s.heap r)
handle_all-data id r [] s found v d c h = unfold handle_all enqueue_all in refl
handle_all-data id r (p ∷ ps) s found v d c h =
    let st = s.heap r in
    let t : Stream = record st { queue = st.queue ++ p ∷ []; queued = st.queued + length p } in
    let e : enqueue p st ≡ queued_as t = unfold enqueue in ground arith in
    let at : (store r t s).heap r ≡ t = ground arith in
    let w = enqueue-IsBounded p st t v e in
    let ih =
      handle_all-data id r ps (store r t s) found (rw at w) (rw at d) (rw at c)
        (rw at (omega arith)) in
    rw (enqueue_all_step p ps st t e)
      (handle_all_step id r p ps s t found e ∙ ih ∙ ap (enqueue_all ps) at)

total-pending : (ps : List (List ℕ)) → total ps ≡ length (pending ps)
total-pending [] = refl
total-pending (p ∷ ps) = omega (arith, length-append p (pending ps), total-pending ps)

-- Over a connection that takes every frame, Write of any bytes to a live stream that is not closed
-- for writing sends them all in frames that Encode accepts, and reports their number; and a session
-- that handles those frames, where the stream is live and its peer has not closed it, has exactly
-- these bytes behind what the stream held, if they fit in its limit.
pub write_to-handle_all :
    (r q : ℕ) (p : List ℕ) (s t : Session)
    → (s.heap r).dead ≡ false
    → (s.heap r).write_closed ≡ false
    → lookup (s.heap r).id t ≡ some q
    → IsBounded (t.heap q)
    → (t.heap q).dead ≡ false
    → (t.heap q).peer_closed ≡ false
    → (t.heap q).queued + length p ≤ max_inbound
    → (fs : List Frame) × (write_to takes_all r p s
        ≡ (record s { sent = s.sent ++ fs }, length p, none))
      × (pending ((handle_all fs t).heap q).queue ≡ pending (t.heap q).queue ++ p)
unfolding write_to
write_to-handle_all r q p s t d w found v d' c h =
    let (ps, (whole, small, e)) = write_loop_pieces (length p) r 0 p s d w (omega arith) in
    let room : (t.heap q).queued + total ps ≤ max_inbound =
      omega (arith, total-pending ps, ap length whole) in
    let arrived = enqueue_all-pending ps (t.heap q) v d' c room in
    (
      map (data_frame (s.heap r).id) ps,
      e ∙ ground arith,
      rw (handle_all-data (s.heap r).id q ps t found v d' c room)
          (arrived.0 ∙ ap (◌++◌ (pending (t.heap q).queue)) whole),
    )
