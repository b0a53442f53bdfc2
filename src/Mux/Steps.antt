-- ===== src/Mux/Steps.antt =====
-- internal/mux/mux.go: the invariant of a session across the frames of its peer and the calls of its
-- owner.
use masseuse_camlink.Prelude.{
  ℕ, zero, suc, ◌≤◌, ◌≡◌, refl, ◌∙◌, Bool, true, ◌||◌, not, Option, none, List, [], ◌∷◌, ltb, ◌==◌,
  if◌then◌else◌, arith, if_keeps, option_keeps, subst, length, length-append,
}
use masseuse_camlink.Frame
use masseuse_camlink.Frame.{Frame, ReadError}
use masseuse_camlink.Mux.Stream.{Stream, Err, reset, settle_open, closed_pipe}
use masseuse_camlink.Mux.Session.{
  Session, Pending, accept_backlog, store, lookup, remove, insert, fail, kill, frame, send,
  write_error, busy, bad_open,
}
use masseuse_camlink.Mux.ReadLoop.{bad_id, offer, on_open, on_answer, on_reset, handle}
use masseuse_camlink.Mux.Calls.{
  registered, chunk, Wake, by_opened, by_death, by_context, Outcome, open_start, open_wait,
  write_loop, close_write, close_stream,
}
use masseuse_camlink.Mux.Buffer.{IsBounded, settle_open-IsBounded}
use masseuse_camlink.Mux.Table.{mark_all_id, find-Entry}
use masseuse_camlink.Mux.Invariant.{
  Inv, store-Inv, remove-Inv, kill-Inv, insert-Inv, fail-Inv, send-Inv, send_or_fail-Inv,
  protocol_error-Inv, reset_stream-Inv, deliver-Inv, peer_close-Inv, refuse_pending-Inv,
}

pub accept-Inv :
    (s : Session) (l : List Pending)
    → length l ≤ accept_backlog
    → Inv s
    → Inv (record s { accept = l })
accept-Inv s l h v = record { bounded = v.bounded; entries = v.entries; backlog = h; over = v.over }

settle_open_keeps :
    (e : Option Err) (st : Stream)
    → ((settle_open e st).id ≡ st.id) × ((settle_open e st).dead ≡ st.dead)
unfolding settle_open
settle_open_keeps e st = ground arith

on_answer-Inv : (e : Option Err) (f : Frame) (s : Session) → Inv s → Inv (on_answer e f s)
unfolding on_answer
on_answer-Inv e f s v =
    option_keeps Inv (lookup f.stream s) (λ _. v)
      λ r _.
        store-Inv s r (settle_open e (s.heap r)) v (settle_open-IsBounded e _ (v.bounded r))
          (settle_open_keeps e _).0 (settle_open_keeps e _).1

abbrev Kept {ℓ} : {A : Type ℓ} → Session × A → Type 0
Kept t = Inv t.0

abbrev SameId : ℕ → ℕ → Session × Option Err → Type 0
SameId r id t = (t.0.heap r).id ≡ id

fail_id : (e : Err) (s : Session) (r : ℕ) → ((fail e s).heap r).id ≡ (s.heap r).id
unfolding fail
fail_id e s r = ground (arith, mark_all_id e s.streams s.heap r)

abbrev Wrote : Session × ℕ × Option Err → Type 0
Wrote t = Inv t.0

on_reset-Inv : (f : Frame) (s : Session) → Inv s → Inv (on_reset f s).0
unfolding on_reset
on_reset-Inv f s v =
    if_keeps (Kept {A = Bool}) (f.stream == 0) (λ _. fail-Inv s _ v)
      λ _.
        option_keeps Inv (lookup f.stream s) (λ _. v)
          λ r e.
            subst (λ id. Inv (kill r (reset f.payload) (remove id s)))
              (find-Entry s.heap s.fresh f.stream s.streams r v.entries e).same_id
              (kill-Inv s r (reset f.payload) v)

made-Inv : (s : Session) → Inv s → Inv (registered s)
made-Inv s v =
    let w = insert-Inv s s.next_id v in
    record { bounded = w.bounded; entries = w.entries; backlog = w.backlog; over = w.over }

module _ (accepts : List Frame → Frame → Option ℕ) where
  offer-Inv : (p : Pending) (s : Session) → Inv s → Inv (offer accepts p s)
  unfolding offer
  offer-Inv p s v =
      if_keeps Inv (ltb (length s.accept) accept_backlog)
        (λ h. accept-Inv s _ (ground (arith, length-append s.accept (p ∷ []))) v)
        (λ _. refuse_pending-Inv accepts p busy s v)

  on_open-Inv : (f : Frame) (s : Session) → Inv s → Inv (on_open accepts f s).0
  unfolding on_open
  on_open-Inv f s v =
      if_keeps (Kept {A = Bool}) s.opener (λ _. protocol_error-Inv accepts _ s v)
        λ _.
          if_keeps (Kept {A = Bool}) (bad_id f s)
            (λ _. protocol_error-Inv accepts (bad_open f.stream) s v)
            λ _. offer-Inv _ (insert f.stream s) (insert-Inv s f.stream v)

  -- Whatever frame the peer sends, the invariant holds afterwards.
  pub handle-Inv : (f : Frame) (s : Session) → Inv s → Inv (handle accepts f s).0
  unfolding handle
  handle-Inv f s v =
      if_keeps (Kept {A = Bool}) (f.type == Frame.type_open) (λ _. on_open-Inv f s v)
        λ _.
          if_keeps (Kept {A = Bool}) (f.type == Frame.type_accept) (λ _. on_answer-Inv none f s v)
            λ _.
              if_keeps (Kept {A = Bool}) (f.type == Frame.type_refuse) (λ _. on_answer-Inv _ f s v)
                λ _.
                  if_keeps (Kept {A = Bool}) (f.type == Frame.type_data)
                    (λ _.
                      option_keeps Inv (lookup f.stream s) (λ _. v)
                        λ r _. deliver-Inv accepts r f.payload s v)
                    λ _.
                      if_keeps (Kept {A = Bool}) (f.type == Frame.type_close)
                        (λ _.
                          option_keeps Inv (lookup f.stream s) (λ _. v) λ r _. peer_close-Inv r s v)
                        λ _.
                          if_keeps (Kept {A = Bool}) (f.type == Frame.type_reset)
                            (λ _. on_reset-Inv f s v) λ _. protocol_error-Inv accepts _ s v

  pub open_start-Inv : (target : List ℕ) (s : Session) → Inv s → Inv (open_start accepts target s).0
  unfolding open_start
  open_start-Inv target s v =
      if_keeps (Kept {A = Outcome ℕ}) (not s.opener) (λ _. v)
        λ _.
          option_keeps (Kept {A = Outcome ℕ}) s.err
            (λ _.
              option_keeps (Kept {A = Outcome ℕ})
                ((send accepts (frame Frame.type_open s.next_id target) (registered s)).1)
                (λ _. send-Inv accepts _ (registered s) (made-Inv s v))
                (λ e _. fail-Inv _ e (send-Inv accepts _ (registered s) (made-Inv s v))))
            (λ e _. v)

  pub open_wait-Inv : (w : Wake) (r : ℕ) (s : Session) → Inv s → Inv (open_wait accepts w r s).0
  unfolding open_wait
  open_wait-Inv by_opened r s v =
      option_keeps (Kept {A = Outcome ℕ}) (s.heap r).open_err (λ _. v) (λ e _. remove-Inv s _ v)
  open_wait-Inv by_death r s v = v
  open_wait-Inv by_context r s v = reset_stream-Inv accepts r _ s v

  pub write_loop-Inv :
      (fuel r n : ℕ) (p : List ℕ) (s : Session) → Inv s → Inv (write_loop accepts fuel r n p s).0
  unfolding write_loop
  write_loop-Inv zero r n p s v = v
  write_loop-Inv (suc fuel) r n [] s v = v
  write_loop-Inv (suc fuel) r n (x ∷ xs) s v =
      if_keeps Wrote (s.heap r).dead (λ _. v)
        λ _.
          if_keeps Wrote (s.heap r).write_closed (λ _. v)
            λ _.
              option_keeps Wrote ((send accepts (chunk (s.heap r).id (x ∷ xs)) s).1)
                (λ _. write_loop-Inv fuel r _ _ _ (send-Inv accepts _ s v))
                (λ e _. fail-Inv _ e (send-Inv accepts _ s v))

  pub close_write-Inv : (r : ℕ) (s : Session) → Inv s → Inv (close_write accepts r s).0
  unfolding close_write
  close_write-Inv r s v =
      let t : Stream = record (s.heap r) { write_closed = true } in
      let b : IsBounded t = record {
        counted = (v.bounded r).counted;
        limited = (v.bounded r).limited;
      } in
      if_keeps (Kept {A = Option Err}) ((s.heap r).dead || (s.heap r).write_closed) (λ _. v)
        λ _.
          send_or_fail-Inv accepts (frame Frame.type_close (s.heap r).id []) (store r t s)
            (λ u. (if (s.heap r).peer_closed then remove (s.heap r).id u else u, none))
            (store-Inv s r t v b refl refl)
            (λ u w. if_keeps Inv (s.heap r).peer_closed (λ _. remove-Inv u _ w) (λ _. w))

  send_heap : (f : Frame) (s : Session) → (send accepts f s).0.heap ≡ s.heap
  unfolding send write_error
  send_heap f s = ground arith

  close_write_id : (r : ℕ) (s : Session) → ((close_write accepts r s).0.heap r).id ≡ (s.heap r).id
  unfolding close_write
  close_write_id r s =
      let t : Session = store r (record (s.heap r) { write_closed = true }) s in
      let f : Frame = frame Frame.type_close (s.heap r).id [] in
      if_keeps (SameId r (s.heap r).id) ((s.heap r).dead || (s.heap r).write_closed) (λ _. refl)
        λ _.
          option_keeps (SameId r (s.heap r).id) ((send accepts f t).1)
            (λ _. ground (arith, send_heap f t))
            (λ e _. fail_id e (send accepts f t).0 r ∙ ground (arith, send_heap f t))

  pub close_stream-Inv : (r : ℕ) (s : Session) → Inv s → Inv (close_stream accepts r s)
  unfolding close_stream
  close_stream-Inv r s v =
      if_keeps Inv ((s.heap r).peer_closed || (s.heap r).dead)
        (λ _.
          subst (λ id. Inv (kill r closed_pipe (remove id (close_write accepts r s).0)))
            (close_write_id r s) (kill-Inv _ r closed_pipe (close_write-Inv r s v)))
        (λ _. reset_stream-Inv accepts r _ s v)
