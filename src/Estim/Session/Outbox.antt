-- ===== src/Estim/Session/Outbox.antt =====
-- internal/estim/session.go, `trimLocked`: a queue of messages that is kept bounded.
use masseuse_camlink.Prelude.{
  ℕ, zero, suc, Bool, true, false, List, [], ◌∷◌, length, drop, ltb, if◌then◌else◌,
}

abbrev pub max_outbox : ℕ
max_outbox = 64

-- `queued`: the session it is for, the message, and whether it is telemetry.
pub record Queued {ℓ} (M : Type ℓ) : Type ℓ where
  pub session_id : List ℕ
  pub message : M
  pub telemetry : Bool

module _ {ℓ} {M : Type ℓ} where
  unfoldable pub has_telemetry : List (Queued M) → Bool
  has_telemetry [] = false
  has_telemetry (q ∷ qs) = if q.telemetry then true else has_telemetry qs

  unfoldable pub without_first : List (Queued M) → List (Queued M)
  without_first [] = []
  without_first (q ∷ qs) = let rest = without_first qs in if q.telemetry then qs else q ∷ rest

  -- One round of the loop: the oldest telemetry goes, or the oldest message.
  unfoldable pub drop_one : List (Queued M) → List (Queued M)
  unfolding has_telemetry without_first
  drop_one qs = if has_telemetry qs then without_first qs else drop 1 qs

  unfoldable pub trim_on : ℕ → List (Queued M) → List (Queued M)
  trim_on zero qs = qs
  trim_on (suc n) qs =
      let rest = trim_on n (drop_one qs) in if ltb max_outbox (length qs) then rest else qs

  -- `trimLocked`: every round takes one message, so that there are no more rounds than messages.
  unfoldable pub trim : List (Queued M) → List (Queued M)
  unfolding trim_on
  trim qs = trim_on (length qs) qs

  -- What is left without the first `k` of the telemetry messages.
  unfoldable pub lose : ℕ → List (Queued M) → List (Queued M)
  lose zero qs = qs
  lose (suc k) [] = []
  lose (suc k) (q ∷ qs) = if q.telemetry then lose k qs else q ∷ lose (suc k) qs

  unfoldable pub telemetry_count : List (Queued M) → ℕ
  telemetry_count [] = 0
  telemetry_count (q ∷ qs) = let rest = telemetry_count qs in if q.telemetry then suc rest else rest
