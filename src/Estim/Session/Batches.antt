-- ===== src/Estim/Session/Batches.antt =====
-- internal/estim/session.go, `Flush`: the batches that it sends.
use masseuse_camlink.Prelude.{
  ℕ, ◌≡◌, ◌<◌, ◌⊎◌, inl, inr, refl, ap, false, List, [], ◌∷◌, ◌++◌, length, length-append, if_keeps,
  arith, same_text, same_text_iff, All,
}
use masseuse_camlink.Estim.Session.Flush.{Messages, sid_of, split_batch, next_batch}

-- The front of a queue and the rest: all of the front is for one session, and the rest begins with
-- another session's message.
abbrev pub IsBatch : List ℕ → Messages → Messages × Messages → Type 0
IsBatch sid qs p =
    (p.0 ++ p.1 ≡ qs)
    × All (λ q. q.session_id ≡ sid) p.0
    × ((p.1 ≡ []) ⊎ (same_text (sid_of p.1) sid ≡ false))

split_batch-IsBatch : (sid : List ℕ) (qs : Messages) → IsBatch sid qs (split_batch sid qs)
unfolding split_batch
split_batch-IsBatch sid [] = (refl, tt, inl refl)
split_batch-IsBatch sid (q ∷ qs) =
    let h = split_batch-IsBatch sid qs in
    if_keeps (IsBatch sid (q ∷ qs)) (same_text q.session_id sid)
      (λ e. (ap (λ r. q ∷ r) h.0, ((same_text_iff q.session_id sid).0 e, h.1), h.2))
      (λ e. (refl, tt, inr e))

-- What Flush sends next is the front of what is pending, all of it for the session of its first
-- message, up to the first message for another session; the rest stays in order and is shorter, so
-- that the sending ends.
pub next_batch-IsBatch :
    (pending : Messages)
    → (pending ≡ [])
      ⊎ (IsBatch (sid_of pending) pending (next_batch pending)
          × (length (next_batch pending).1 < length pending))
unfolding next_batch
next_batch-IsBatch [] = inl refl
next_batch-IsBatch (q ∷ qs) =
    let h = split_batch-IsBatch q.session_id qs in
    inr (
      (ap (λ r. q ∷ r) h.0, (refl, h.1), h.2),
      omega (
        arith,
        ap length h.0,
        length-append (split_batch q.session_id qs).0 (split_batch q.session_id qs).1,
      ),
    )
