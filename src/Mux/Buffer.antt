-- ===== src/Mux/Buffer.antt =====
-- internal/mux/mux.go: the inbound queue of one stream is a bounded first-in first-out buffer.
use masseuse_camlink.Prelude.{
  ℕ, zero, suc, ◌+◌, ◌≤◌, ◌≡◌, refl, false, Option, List, [], ◌∷◌, ◌++◌, length, length-append,
  length-take, length-drop, take-append-drop, take, drop, min, arith, append_assoc, append-nil,
  take_all, replicate,
}
use masseuse_camlink.Mux.Stream.{
  Stream, Err, max_inbound, new_stream, queued_as, enqueue, settle_open, mark_dead, bytes,
  take_head, read_queue, read,
}

abbrev pub total : List (List ℕ) → ℕ
total [] = 0
total (p ∷ q) = length p + total q

-- The undelivered bytes, oldest first.
abbrev pub pending : List (List ℕ) → List ℕ
pending [] = []
pending (p ∷ q) = p ++ pending q

-- The count is right, and within the limit.
pub record IsBounded (st : Stream) : Type 0 where
  pub counted : st.queued ≡ total st.queue
  pub limited : st.queued ≤ max_inbound

total-append : (q : List (List ℕ)) (p : List ℕ) → total (q ++ p ∷ []) ≡ total q + length p
total-append [] p = omega arith
total-append (x ∷ q) p = omega (arith, total-append q p)

pending-append : (q : List (List ℕ)) (p : List ℕ) → pending (q ++ p ∷ []) ≡ pending q ++ p
pending-append [] p = append-nil p
pending-append (x ∷ q) p = rw (pending-append q p, append_assoc x (pending q) p)

pub new_stream-IsBounded : (id : ℕ) → IsBounded (new_stream id)
unfolding new_stream
new_stream-IsBounded id = ground arith

pub enqueue-IsBounded :
    (p : List ℕ) (st t : Stream) → IsBounded st → enqueue p st ≡ queued_as t → IsBounded t
unfolding enqueue
enqueue-IsBounded p st t v e = ground (arith, total-append st.queue p)

pub settle_open-IsBounded :
    (e : Option Err) (st : Stream) → IsBounded st → IsBounded (settle_open e st)
unfolding settle_open
settle_open-IsBounded e st v = ground arith

pub mark_dead-IsBounded : (e : Err) (st : Stream) → IsBounded st → IsBounded (mark_dead e st)
unfolding mark_dead
mark_dead-IsBounded e st v = ground arith

take_head-IsBounded :
    (n : ℕ) (head : List ℕ) (rest : List (List ℕ)) (st : Stream) (b : List ℕ) (t : Stream)
    → st.queue ≡ head ∷ rest
    → IsBounded st
    → take_head n head rest st ≡ bytes b t
    → IsBounded t
      × (b ++ pending t.queue ≡ pending st.queue)
      × (length b ≤ n)
      × (t.queued + length b ≡ st.queued)
unfolding take_head
take_head-IsBounded n head rest st b t q v e =
    let k = min n (length head) in
    ground (
      arith,
      length-take n head,
      length-take k head,
      length-drop k head,
      take_all k head,
      take-append-drop k head,
      append_assoc (take k head) (drop k head) (pending rest),
    )

-- A Read that gives bytes gives the oldest of a bounded buffer, at most as many as asked for,
-- leaves the rest in order and keeps the count exact.
pub read-IsBounded :
    (n : ℕ) (st : Stream) (b : List ℕ) (t : Stream)
    → IsBounded st
    → read n st ≡ bytes b t
    → IsBounded t
      × (b ++ pending t.queue ≡ pending st.queue)
      × (length b ≤ n)
      × (t.queued + length b ≡ st.queued)
unfolding read
read-IsBounded n st b t v e = read_at st.queue refl e
  where
    read_at :
        (q : List (List ℕ))
        → st.queue ≡ q
        → read_queue n q st ≡ bytes b t
        → IsBounded t
          × (b ++ pending t.queue ≡ pending st.queue)
          × (length b ≤ n)
          × (t.queued + length b ≡ st.queued)
    read_at [] q f = absurd (ground arith)
    read_at (head ∷ rest) q f = take_head-IsBounded n head rest st b t q v f

-- Payloads delivered one after the other to a stream that takes them.
unfoldable pub enqueue_all : List (List ℕ) → Stream → Stream
enqueue_all [] st = st
enqueue_all (p ∷ ps) st = elim (enqueue p st) [
  | queued_as t ↦ enqueue_all ps t
  | _ ↦ enqueue_all ps st
]

pub enqueue_all_step :
    (p : List ℕ) (ps : List (List ℕ)) (st t : Stream)
    → enqueue p st ≡ queued_as t
    → enqueue_all (p ∷ ps) st ≡ enqueue_all ps t
unfolding enqueue_all
enqueue_all_step p ps st t e = rw (e, enqueue_all)

-- The source promises that the memory of a stream is bounded. Empty DATA frames escape the limit:
-- any number of them is queued on a live and open stream, and the count that the limit looks at
-- stays as it was.
pub enqueue_all_empty :
    (k : ℕ) (st : Stream)
    → IsBounded st
    → st.dead ≡ false
    → st.peer_closed ≡ false
    → (length (enqueue_all (replicate k []) st).queue ≡ length st.queue + k)
      × ((enqueue_all (replicate k []) st).queued ≡ st.queued)
enqueue_all_empty zero st v d c = unfold enqueue_all in omega arith
enqueue_all_empty (suc k) st v d c =
    let t : Stream = record st { queue = st.queue ++ [] ∷ []; queued = st.queued + 0 } in
    let e : enqueue [] st ≡ queued_as t = unfold enqueue in ground arith in
    let ih = enqueue_all_empty k t (enqueue-IsBounded [] st t v e) d c in
    rw (enqueue_all_step [] (replicate k []) st t e)
      (omega (arith, ih, length-append st.queue ([] ∷ [])))

-- Payloads within the limit all arrive, in their order.
pub enqueue_all-pending :
    (ps : List (List ℕ)) (st : Stream)
    → IsBounded st
    → st.dead ≡ false
    → st.peer_closed ≡ false
    → st.queued + total ps ≤ max_inbound
    → (pending (enqueue_all ps st).queue ≡ pending st.queue ++ pending ps)
      × ((enqueue_all ps st).dead ≡ false)
enqueue_all-pending [] st v d c h =
    unfold enqueue_all in ground (arith, append-nil (pending st.queue))
enqueue_all-pending (p ∷ ps) st v d c h =
    let t : Stream = record st { queue = st.queue ++ p ∷ []; queued = st.queued + length p } in
    let e : enqueue p st ≡ queued_as t = unfold enqueue in ground arith in
    let ih = enqueue_all-pending ps t (enqueue-IsBounded p st t v e) d c (omega arith) in
    rw (enqueue_all_step p ps st t e) (
      ground (arith, ih, pending-append st.queue p, append_assoc (pending st.queue) p (pending ps)))
