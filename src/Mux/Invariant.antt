-- ===== src/Mux/Invariant.antt =====
-- internal/mux/mux.go: what holds of a session between two steps.
use masseuse_camlink.Prelude.{
  ℕ, ◌≤◌, ◌≡◌, refl, Bool, true, false, Option, none, some, List, [], if◌then◌else◌, is_some, arith,
  if_keeps, length, codes,
}
use masseuse_camlink.Frame.{Frame}
use masseuse_camlink.Mux.Stream.{
  Stream, Err, refused, reset, new_stream, Delivery, ignored, overflow, queued_as, enqueue,
}
use masseuse_camlink.Mux.Session.{
  Session, Pending, accept_backlog, new, update, store, remove, insert, mark_all, fail, kill, send,
  send_or_fail, log_sent, write_error, protocol_error, reset_stream, deliver, peer_close,
  accept_pending, refuse_pending, close_with_reason,
}
use masseuse_camlink.Mux.Buffer.{
  IsBounded, new_stream-IsBounded, enqueue-IsBounded, mark_dead-IsBounded,
}
use masseuse_camlink.Mux.Table.{
  Entries, Entries-delete, Entries-update, Entries-kill, Entries-fresh, mark_all-IsBounded,
}

-- The bytes that a stream holds are counted and bounded, the map names live streams by their ids,
-- the backlog of OPENs is bounded, and there is a reason exactly if the session has ended.
pub record Inv (s : Session) : Type 0 where
  pub bounded : (r : ℕ) → IsBounded (s.heap r)
  pub entries : Entries s.heap s.fresh s.streams
  pub backlog : length s.accept ≤ accept_backlog
  pub over : s.done ≡ is_some s.err

pub new-Inv : (opener : Bool) → Inv (new opener)
unfolding new
new-Inv opener = record {
  bounded = λ r. new_stream-IsBounded 0;
  entries = tt;
  backlog = omega arith;
  over = refl;
}

update-IsBounded :
    (heap : ℕ → Stream) (r : ℕ) (st : Stream)
    → ((q : ℕ) → IsBounded (heap q))
    → IsBounded st
    → (q : ℕ) → IsBounded (update heap r st q)
update-IsBounded heap r st h v q = ground (arith, h q)

pub store-Inv :
    (s : Session) (r : ℕ) (st : Stream)
    → Inv s
    → IsBounded st
    → st.id ≡ (s.heap r).id
    → st.dead ≡ (s.heap r).dead
    → Inv (store r st s)
store-Inv s r st v b i d = record {
  bounded = update-IsBounded s.heap r st v.bounded b;
  entries = Entries-update s.heap s.fresh r st s.streams i d v.entries;
  backlog = v.backlog;
  over = v.over;
}

pub remove-Inv : (s : Session) (id : ℕ) → Inv s → Inv (remove id s)
remove-Inv s id v = record {
  bounded = v.bounded;
  entries = Entries-delete s.heap s.fresh id s.streams v.entries;
  backlog = v.backlog;
  over = v.over;
}

pub kill-Inv : (s : Session) (r : ℕ) (e : Err) → Inv s → Inv (kill r e (remove (s.heap r).id s))
kill-Inv s r e v = record {
  bounded = update-IsBounded s.heap r _ v.bounded (mark_dead-IsBounded e _ (v.bounded r));
  entries = Entries-kill s.heap s.fresh r _ s.streams v.entries;
  backlog = v.backlog;
  over = v.over;
}

new_stream_alive : (id : ℕ) → ((new_stream id).id ≡ id) × ((new_stream id).dead ≡ false)
unfolding new_stream
new_stream_alive id = (refl, refl)

pub insert-Inv : (s : Session) (id : ℕ) → Inv s → Inv (insert id s)
unfolding insert
insert-Inv s id v = record {
  bounded = update-IsBounded s.heap s.fresh _ v.bounded (new_stream-IsBounded id);
  entries = (
    record {
      made = omega arith;
      same_id = ground (arith, new_stream_alive id);
      alive = ground (arith, new_stream_alive id);
    },
    Entries-fresh s.heap s.fresh _ _ (Entries-delete s.heap s.fresh id s.streams v.entries),
  );
  backlog = v.backlog;
  over = v.over;
}

pub fail-Inv : (s : Session) (e : Err) → Inv s → Inv (fail e s)
unfolding fail
fail-Inv s e v =
    elim s.done
      as (λ d. Inv (
        if d then s else record s {
          err = some e;
          streams = [];
          heap = mark_all e s.streams s.heap;
          done = true;
        })) [
          | true ↦ v
          | false ↦ record {
            bounded = mark_all-IsBounded e s.streams s.heap v.bounded;
            entries = tt;
            backlog = v.backlog;
            over = refl;
          }
        ]

-- What goes out changes nothing else.
pub sent-Inv : (s : Session) (l : List Frame) → Inv s → Inv (record s { sent = l })
sent-Inv s l v = record {
  bounded = v.bounded;
  entries = v.entries;
  backlog = v.backlog;
  over = v.over;
}

log_sent-Inv : (e : Option Err) (f : Frame) (s : Session) → Inv s → Inv (log_sent e f s)
log_sent-Inv none f s v = sent-Inv s _ v
log_sent-Inv (some e) f s v = v

enqueue_keeps :
    (p : List ℕ) (st t : Stream) → enqueue p st ≡ queued_as t → (t.id ≡ st.id) × (t.dead ≡ st.dead)
unfolding enqueue
enqueue_keeps p st t e = ground arith

pub peer_close-Inv : (r : ℕ) (s : Session) → Inv s → Inv (peer_close r s)
unfolding peer_close
peer_close-Inv r s v =
    let t : Stream = record (s.heap r) { peer_closed = true } in
    let b : IsBounded t = record {
      counted = (v.bounded r).counted;
      limited = (v.bounded r).limited;
    } in
    let w = store-Inv s r t v b refl refl in
    if_keeps Inv (s.heap r).write_closed (λ _. remove-Inv (store r t s) (s.heap r).id w) (λ _. w)

module _ (accepts : List Frame → Frame → Option ℕ) where
  pub send-Inv : (f : Frame) (s : Session) → Inv s → Inv (send accepts f s).0
  unfolding send
  send-Inv f s v = log_sent-Inv (write_error accepts f s) f s v

  pub send_or_fail-Inv :
      (f : Frame) (s : Session) (k : Session → Session × Option Err)
      → Inv s
      → ((t : Session) → Inv t → Inv (k t).0)
      → Inv (send_or_fail accepts f s k).0
  send_or_fail-Inv f s k v h =
      elim ((send accepts f s).1)
        as (λ e.
          Inv
            (elim e as (λ _. Session × Option Err) [
              | none ↦ k (send accepts f s).0
              | some e ↦ (fail e (send accepts f s).0, some e)
            ]).0) [ none ↦ h _ (send-Inv f s v) | some e ↦ fail-Inv _ e (send-Inv f s v) ]

  pub protocol_error-Inv : (msg : List ℕ) (s : Session) → Inv s → Inv (protocol_error accepts msg s)
  unfolding protocol_error
  protocol_error-Inv msg s v = fail-Inv _ _ (send-Inv _ s v)

  pub close_with_reason-Inv :
      (msg : List ℕ) (s : Session) → Inv s → Inv (close_with_reason accepts msg s)
  unfolding close_with_reason
  close_with_reason-Inv msg s v = fail-Inv _ _ (send-Inv _ s v)

  pub reset_stream-Inv :
      (r : ℕ) (reason : List ℕ) (s : Session) → Inv s → Inv (reset_stream accepts r reason s)
  unfolding reset_stream
  reset_stream-Inv r reason s v =
      if_keeps Inv (s.heap r).dead (λ _. v)
        (λ _. send_or_fail-Inv _ _ (λ t. (t, none)) (kill-Inv s r (reset reason) v) (λ t w. w))

  pub deliver-Inv : (r : ℕ) (p : List ℕ) (s : Session) → Inv s → Inv (deliver accepts r p s)
  unfolding deliver
  deliver-Inv r p s v = at (enqueue p (s.heap r)) refl
    where
      at :
          (d : Delivery)
          → enqueue p (s.heap r) ≡ d
          → Inv (elim d as (λ _. Session) [
            | ignored ↦ s
            | overflow ↦ reset_stream accepts r (codes "receive buffer overflow") s
            | queued_as st ↦ store r st s
          ])
      at ignored e = v
      at overflow e = reset_stream-Inv r _ s v
      at (queued_as st) e =
          store-Inv s r st v (enqueue-IsBounded p _ st (v.bounded r) e) (enqueue_keeps p _ st e).0
            (enqueue_keeps p _ st e).1

  pub accept_pending-Inv : (p : Pending) (s : Session) → Inv s → Inv (accept_pending accepts p s).0
  unfolding accept_pending
  accept_pending-Inv p s v = send_or_fail-Inv _ s (λ t. (t, none)) v (λ t w. w)

  pub refuse_pending-Inv :
      (p : Pending) (reason : List ℕ) (s : Session)
      → Inv s
      → Inv (refuse_pending accepts p reason s).0
  unfolding refuse_pending
  refuse_pending-Inv p reason s v =
      send_or_fail-Inv _ _ (λ t. (t, none)) (kill-Inv s p.st (refused reason) v) (λ t w. w)
