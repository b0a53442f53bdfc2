-- ===== src/Estim/Runtime/Recent.antt =====
-- internal/estim/runtime.go: what the telemetry ring holds.
use masseuse_camlink.Prelude.{
  ℕ, suc, ◌+◌, ◌-◌, ◌≤◌, ◌≡◌, refl, ap, ◌∙◌, List, [], ◌∷◌, ◌++◌, arith, length, take, drop, min,
  map, length-append, length-drop, length-take, append_assoc, append-nil,
}
use masseuse_camlink.Estim.Runtime.Telemetry.{Ring, capacity, offer, drain}

-- A use of the ring.
pub data Use {ℓ} (A : Type ℓ) : Type ℓ where
  offers : A → Use A
  drains : ℕ → Use A

module _ {ℓ} {A : Type ℓ} where
  -- Uses one after the other, with all that was drained.
  unfoldable pub use_all : List (Use A) → Ring A → Ring A × List A
  use_all [] r = (r, [])
  use_all (offers f ∷ us) r = use_all us (offer f r)
  use_all (drains n ∷ us) r =
      let (s, out) = drain n r in let (t, more) = use_all us s in (t, out ++ more)

  abbrev pub offered : List (Use A) → ℕ
  offered [] = 0
  offered (offers f ∷ us) = suc (offered us)
  offered (drains n ∷ us) = offered us

  use_all_counts :
      (us : List (Use A)) (r : Ring A)
      → length r.frames ≤ capacity r
      → let (s, out) = use_all us r in
        (length s.frames ≤ capacity r)
        × (length out + length s.frames + s.dropped ≡ offered us + length r.frames + r.dropped)
  unfolding use_all offer drain
  use_all_counts [] r h = (h, refl)
  use_all_counts (offers f ∷ us) r h = ground (
    arith,
    use_all_counts us (offer f r),
    length-append r.frames (f ∷ []),
    length-append (drop 1 r.frames) (f ∷ []),
    length-drop 1 r.frames,
  )
  use_all_counts (drains n ∷ us) r h =
      let k = min n (length r.frames) in
      ground (
        arith,
        use_all_counts us (drain n r).0,
        length-append (take k r.frames) (use_all us (drain n r).0).1,
        length-take k r.frames,
        length-drop k r.frames,
      )

  offer_latest :
      (f : A) (fs : List A) (r : Ring A)
      → length r.frames ≤ capacity r
      → drop (length (offer f r).frames + length fs - capacity r) ((offer f r).frames ++ fs)
        ≡ drop (length r.frames + suc (length fs) - capacity r) (r.frames ++ f ∷ fs)
  unfolding offer
  offer_latest f fs r h = at r.frames refl
    where
      at :
          (l : List A)
          → r.frames ≡ l
          → drop (length (offer f r).frames + length fs - capacity r) ((offer f r).frames ++ fs)
            ≡ drop (length r.frames + suc (length fs) - capacity r) (r.frames ++ f ∷ fs)
      at [] e = ground arith
      at (x ∷ xs) e = ground (arith, length-append xs (f ∷ []), append_assoc xs (f ∷ []) fs)

  offer-capacity : (f : A) (r : Ring A) → (capacity (offer f r) ≡ capacity r) × (1 ≤ capacity r)
  unfolding offer
  offer-capacity f r = ground arith

  offer-length :
      (f : A) (r : Ring A) → length r.frames ≤ capacity r → length (offer f r).frames ≤ capacity r
  unfolding offer
  offer-length f r h = ground (
    arith,
    length-append r.frames (f ∷ []),
    length-append (drop 1 r.frames) (f ∷ []),
    length-drop 1 r.frames,
    offer-capacity f r,
  )

  offers_latest :
      (fs : List A) (r : Ring A)
      → length r.frames ≤ capacity r
      → (use_all (map offers fs) r).0.frames
        ≡ drop (length r.frames + length fs - capacity r) (r.frames ++ fs)
  unfolding use_all
  offers_latest [] r h = ground (arith, append-nil r.frames)
  offers_latest (f ∷ fs) r h =
      offers_latest fs (offer f r) (omega (arith, offer-length f r h, offer-capacity f r))
      ∙ ap (λ c. drop (length (offer f r).frames + length fs - c) ((offer f r).frames ++ fs))
          (offer-capacity f r).0
      ∙ offer_latest f fs r h

  abbrev pub empty_ring : ℕ → Ring A
  empty_ring cap = record { cap = cap; frames = []; dropped = 0 }

  -- With nothing draining, the ring holds the newest frames, oldest first, and as many of them as
  -- it has room for.
  pub offers_empty_latest :
      (cap : ℕ) (fs : List A)
      → (use_all (map offers fs) (empty_ring cap)).0.frames
        ≡ drop (length fs - capacity (empty_ring cap)) fs
  offers_empty_latest cap fs =
      offers_latest fs (empty_ring cap) (omega arith)
      ∙ ap (λ n. drop (n - capacity (empty_ring cap)) fs) (omega arith)

  -- Over any offers and drains the ring never holds more than its capacity, and every frame offered
  -- is drained, held or counted as dropped.
  pub use_all_account :
      (cap : ℕ) (us : List (Use A))
      → let (s, out) = use_all us (empty_ring cap) in
        (length s.frames ≤ capacity (empty_ring cap))
        × (length out + length s.frames + s.dropped ≡ offered us)
  use_all_account cap us = omega (arith, use_all_counts us (empty_ring cap) (omega arith))
