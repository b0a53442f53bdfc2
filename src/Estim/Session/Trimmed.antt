-- ===== src/Estim/Session/Trimmed.antt =====
-- internal/estim/session.go, `trimLocked`: what trimming keeps.
use masseuse_camlink.Prelude.{
  ℕ, zero, suc, ◌-◌, ◌≡◌, ◌≤◌, refl, sym, ap, ◌∙◌, true, false, List, [], ◌∷◌, length, drop,
  length-drop, ltb, arith, if_keeps,
}
use masseuse_camlink.Estim.Session.Outbox.{
  max_outbox, Queued, has_telemetry, without_first, drop_one, trim_on, trim, lose, telemetry_count,
}

module _ {ℓ} {M : Type ℓ} where
  length-without_first :
      (qs : List (Queued M)) → has_telemetry qs ≡ true → suc (length (without_first qs)) ≡ length qs
  unfolding has_telemetry without_first
  length-without_first [] h = cc
  length-without_first (q ∷ qs) h = ground (arith, length-without_first qs)

  length-drop_one : (qs : List (Queued M)) → length (drop_one qs) ≡ length qs - 1
  unfolding drop_one
  length-drop_one qs = ground (arith, length-without_first qs, length-drop 1 qs)

  trim_on_bounds :
      (n : ℕ) (qs : List (Queued M)) → length qs ≤ n → length (trim_on n qs) ≤ max_outbox
  unfolding trim_on
  trim_on_bounds zero qs h = omega arith
  trim_on_bounds (suc n) qs h = ground (arith, trim_on_bounds n (drop_one qs), length-drop_one qs)

  pub trim_bounds : (qs : List (Queued M)) → length (trim qs) ≤ max_outbox
  unfolding trim
  trim_bounds qs = trim_on_bounds (length qs) qs (omega arith)

  telemetry_count_none : (qs : List (Queued M)) → has_telemetry qs ≡ false → telemetry_count qs ≡ 0
  unfolding has_telemetry telemetry_count
  telemetry_count_none [] h = refl
  telemetry_count_none (q ∷ qs) h = ground (arith, telemetry_count_none qs)

  telemetry_count_some :
      (qs : List (Queued M))
      → has_telemetry qs ≡ true
      → suc (telemetry_count (without_first qs)) ≡ telemetry_count qs
  unfolding has_telemetry telemetry_count without_first
  telemetry_count_some [] h = cc
  telemetry_count_some (q ∷ qs) h = ground (arith, telemetry_count_some qs)

  lose_none : (k : ℕ) (qs : List (Queued M)) → has_telemetry qs ≡ false → lose k qs ≡ qs
  unfolding has_telemetry lose
  lose_none zero qs h = refl
  lose_none (suc k) [] h = refl
  lose_none (suc k) (q ∷ qs) h = ground (arith, lose_none (suc k) qs)

  lose_some :
      (k : ℕ) (qs : List (Queued M))
      → has_telemetry qs ≡ true
      → lose k (without_first qs) ≡ lose (suc k) qs
  unfolding has_telemetry lose without_first
  lose_some k [] h = cc
  lose_some zero (q ∷ qs) h = ground (arith, lose_some zero qs)
  lose_some (suc k) (q ∷ qs) h = ground (arith, lose_some (suc k) qs)

  drop_nil : (k : ℕ) → drop {A = Queued M} k [] ≡ []
  drop_nil zero = refl
  drop_nil (suc k) = refl

  drop-suc : (k : ℕ) (qs : List (Queued M)) → drop k (drop 1 qs) ≡ drop (suc k) qs
  drop-suc k [] = drop_nil k
  drop-suc k (q ∷ qs) = refl

  has_telemetry-drop :
      (qs : List (Queued M)) → has_telemetry qs ≡ false → has_telemetry (drop 1 qs) ≡ false
  unfolding has_telemetry
  has_telemetry-drop [] h = refl
  has_telemetry-drop (q ∷ qs) h = ground arith

  -- What is left when `k` messages have gone.
  abbrev left : ℕ → List (Queued M) → List (Queued M)
  left k qs = drop (k - telemetry_count qs) (lose k qs)

  left_telemetry :
      (k : ℕ) (qs : List (Queued M))
      → has_telemetry qs ≡ true
      → left k (without_first qs) ≡ left (suc k) qs
  left_telemetry k qs h =
      rw (lose_some k qs h)
        (ap (λ n. drop n (lose (suc k) qs)) (omega (arith, telemetry_count_some qs h)))

  left_none : (k : ℕ) (qs : List (Queued M)) → has_telemetry qs ≡ false → left k qs ≡ drop k qs
  left_none k qs h =
      rw (lose_none k qs h) (ap (λ n. drop n qs) (omega (arith, telemetry_count_none qs h)))

  left-suc : (k : ℕ) (qs : List (Queued M)) → left k (drop_one qs) ≡ left (suc k) qs
  unfolding drop_one
  left-suc k qs =
      if_keeps (λ rest. left k rest ≡ left (suc k) qs) (has_telemetry qs)
        (λ e. left_telemetry k qs e)
        (λ e.
          left_none k (drop 1 qs) (has_telemetry-drop qs e)
          ∙ drop-suc k qs
          ∙ sym (left_none (suc k) qs e))

  left_zero : (n : ℕ) (qs : List (Queued M)) → n ≡ 0 → left n qs ≡ qs
  unfolding lose
  left_zero n qs h =
      rw h (ap (λ m. drop m qs) (let e : 0 - telemetry_count qs ≡ 0 = omega arith in e))

  trim_on-left :
      (n : ℕ) (qs : List (Queued M))
      → length qs ≤ n
      → trim_on n qs ≡ left (length qs - max_outbox) qs
  unfolding trim_on
  trim_on-left zero qs h = sym (left_zero (length qs - max_outbox) qs (omega arith))
  trim_on-left (suc n) qs h =
      if_keeps (λ rest. rest ≡ left (length qs - max_outbox) qs) (ltb max_outbox (length qs))
        (λ e.
          trim_on-left n (drop_one qs) (omega (arith, length-drop_one qs))
          ∙ left-suc (length (drop_one qs) - max_outbox) qs
          ∙ ap (λ k. left k qs) (ground (arith, length-drop_one qs)))
        (λ e. sym (left_zero (length qs - max_outbox) qs (ground arith)))

  -- Trimming the outbox drops as many messages as it has more than 64: its oldest telemetry first,
  -- and the oldest of what is left only once no telemetry is left. So at most 64 are kept, in their
  -- order.
  pub trim-lose :
      (qs : List (Queued M))
      → (trim qs
          ≡ drop (length qs - max_outbox - telemetry_count qs) (lose (length qs - max_outbox) qs))
        × (length (trim qs) ≤ max_outbox)
  unfolding trim
  trim-lose qs = (trim_on-left (length qs) qs (omega arith), trim_bounds qs)
