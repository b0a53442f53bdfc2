-- ===== src/Mux/Table.antt =====
-- internal/mux/mux.go: the map from ids to streams, and the streams that it names.
use masseuse_camlink.Prelude.{
  refl, ℕ, ◌+◌, ◌<◌, ◌≡◌, inl, inr, true, false, some, List, [], ◌∷◌, ◌==◌, arith, All, Bool-cases,
}
use masseuse_camlink.Mux.Stream.{Stream, Err, mark_dead}
use masseuse_camlink.Mux.Session.{update, find, delete, mark_all}
use masseuse_camlink.Mux.Buffer.{IsBounded, mark_dead-IsBounded}

-- An entry names a stream that was made, that has the entry's id and is not dead.
pub record Entry (heap : ℕ → Stream) (fresh : ℕ) (e : ℕ × ℕ) : Type 0 where
  pub made : e.1 < fresh
  pub same_id : (heap e.1).id ≡ e.0
  pub alive : (heap e.1).dead ≡ false

abbrev pub Entries : (ℕ → Stream) → ℕ → List (ℕ × ℕ) → Type 0
Entries heap fresh = All (Entry heap fresh)

module _ (heap : ℕ → Stream) (fresh : ℕ) where
  pub Entries-delete :
      (id : ℕ) (m : List (ℕ × ℕ)) → Entries heap fresh m → Entries heap fresh (delete id m)
  unfolding delete
  Entries-delete id [] h = tt
  Entries-delete id ((k, r) ∷ m) h = ground (arith, Entries-delete id m h.1)

  pub find-Entry :
      (id : ℕ) (m : List (ℕ × ℕ)) (r : ℕ)
      → Entries heap fresh m
      → find id m ≡ some r
      → Entry heap fresh (id, r)
  unfolding find
  find-Entry id [] r h e = absurd (ground arith)
  find-Entry id ((k, q) ∷ m) r h e = elim (Bool-cases (k == id)) [
    | inl hit ↦ ground (arith, h.0)
    | inr miss ↦ find-Entry id m r h.1 (ground arith)
  ]

  -- Writing a stream that keeps its id and stays alive.
  pub Entries-update :
      (r : ℕ) (st : Stream) (m : List (ℕ × ℕ))
      → st.id ≡ (heap r).id
      → st.dead ≡ (heap r).dead
      → Entries heap fresh m
      → Entries (update heap r st) fresh m
  Entries-update r st [] i d h = tt
  Entries-update r st ((k, q) ∷ m) i d h = (ground (arith, h.0), Entries-update r st m i d h.1)

  -- Writing any stream of the same id, once its entry is gone.
  pub Entries-kill :
      (r : ℕ) (st : Stream) (m : List (ℕ × ℕ))
      → Entries heap fresh m
      → Entries (update heap r st) fresh (delete (heap r).id m)
  unfolding delete
  Entries-kill r st [] h = tt
  Entries-kill r st ((k, q) ∷ m) h = ground (arith, h.0, Entries-kill r st m h.1)

  pub Entries-fresh :
      (st : Stream) (m : List (ℕ × ℕ))
      → Entries heap fresh m
      → Entries (update heap fresh st) (fresh + 1) m
  Entries-fresh st [] h = tt
  Entries-fresh st ((k, q) ∷ m) h = (ground (arith, h.0), Entries-fresh st m h.1)

pub mark_all-IsBounded :
    (e : Err) (m : List (ℕ × ℕ)) (heap : ℕ → Stream)
    → ((r : ℕ) → IsBounded (heap r))
    → (r : ℕ) → IsBounded (mark_all e m heap r)
unfolding mark_all
mark_all-IsBounded e [] heap h r = h r
mark_all-IsBounded e ((k, q) ∷ m) heap h r =
    mark_all-IsBounded e m (update heap q (mark_dead e (heap q)))
      (λ i. ground (arith, h i, mark_dead-IsBounded e (heap q) (h q))) r

mark_dead_stays : (e : Err) (st : Stream) → st.dead ≡ true → (mark_dead e st) ≡ st
unfolding mark_dead
mark_dead_stays e st h = ground arith

mark_dead_kills : (e : Err) (st : Stream) → (mark_dead e st).dead ≡ true
unfolding mark_dead
mark_dead_kills e st = ground arith

mark_all_stays :
    (e : Err) (m : List (ℕ × ℕ)) (heap : ℕ → Stream) (r : ℕ)
    → (heap r).dead ≡ true
    → (mark_all e m heap r).dead ≡ true
unfolding mark_all
mark_all_stays e [] heap r h = h
mark_all_stays e ((k, q) ∷ m) heap r h =
    mark_all_stays e m (update heap q (mark_dead e (heap q))) r
      (ground (arith, mark_dead_kills e (heap q)))

-- Every stream that the map names is dead afterwards.
pub mark_all_kills :
    (e : Err) (m : List (ℕ × ℕ)) (heap : ℕ → Stream)
    → All (λ p. (mark_all e m heap p.1).dead ≡ true) m
unfolding mark_all
mark_all_kills e [] heap = tt
mark_all_kills e ((k, q) ∷ m) heap =
    let heap' : ℕ → Stream = update heap q (mark_dead e (heap q)) in
    (
      mark_all_stays e m heap' q (ground (arith, mark_dead_kills e (heap q))),
      mark_all_kills e m heap',
    )

mark_dead_id : (e : Err) (st : Stream) → (mark_dead e st).id ≡ st.id
unfolding mark_dead
mark_dead_id e st = ground arith

pub mark_all_id :
    (e : Err) (m : List (ℕ × ℕ)) (heap : ℕ → Stream) (r : ℕ)
    → (mark_all e m heap r).id ≡ (heap r).id
unfolding mark_all
mark_all_id e [] heap r = refl
mark_all_id e ((k, q) ∷ m) heap r =
    ground
      (arith, mark_all_id e m (update heap q (mark_dead e (heap q))) r, mark_dead_id e (heap q))
