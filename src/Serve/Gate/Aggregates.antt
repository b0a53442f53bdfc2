-- ===== src/Serve/Gate/Aggregates.antt =====
-- internal/serve/gate.go, `h264Kind`: packets that carry several units (STAP-A, RFC 6184).
use masseuse_camlink.Prelude.{
  ℕ, zero, suc, ◌/◌, ◌%◌, ◌≤◌, ◌<◌, ◌≡◌, ◌⊎◌, ◌↔◌, inl, inr, refl, List, [], ◌∷◌, ◌++◌, arith,
  length, length-append, All, get_or,
}
use masseuse_camlink.Frame.Codec.{drop-length}
use masseuse_camlink.Serve.Gate.Kind.{
  UnitKind, unit_other, unit_frame, unit_key, max_kind, h264_nal, stap_a, h264_kind,
}

-- A unit that an aggregation packet can carry.
abbrev pub Fits : List ℕ → Type 0
Fits u = (0 < length u) × (length u < 65536)

abbrev pub aggregate : List (List ℕ) → List ℕ
aggregate [] = []
aggregate (u ∷ us) = (length u / 256) ∷ (length u % 256) ∷ u ++ aggregate us

abbrev pub unit_kind : List ℕ → UnitKind
unit_kind u = h264_nal (get_or u 0 0 % 32)

abbrev pub HasKey : List (List ℕ) → Type 0
HasKey [] = ⊥
HasKey (u ∷ us) = (unit_kind u ≡ unit_key) ⊎ HasKey us

abbrev best : UnitKind → List (List ℕ) → UnitKind
best k [] = k
best k (u ∷ us) = best (max_kind k (unit_kind u)) us

get_or-append : (u rest : List ℕ) → 0 < length u → get_or (u ++ rest) 0 0 ≡ get_or u 0 0
get_or-append [] rest h = elim h [ ]
get_or-append (x ∷ u) rest h = refl

stap_a-aggregate :
    (fuel : ℕ) (k : UnitKind) (us : List (List ℕ))
    → All Fits us
    → length us ≤ fuel
    → stap_a fuel k (aggregate us) ≡ best k us
unfolding stap_a
stap_a-aggregate zero k [] h l = refl
stap_a-aggregate (suc fuel) k [] h l = refl
stap_a-aggregate zero k (u ∷ us) h l = absurd (omega arith)
stap_a-aggregate (suc fuel) k (u ∷ us) h l =
    let ih = stap_a-aggregate fuel (max_kind k (unit_kind u)) us h.1 (omega arith) in
    ground (
      arith,
      ih,
      h.0,
      length-append u (aggregate us),
      drop-length u (aggregate us),
      get_or-append u (aggregate us),
    )

max_kind_key : (a b : UnitKind) → (max_kind a b ≡ unit_key) ↔ ((a ≡ unit_key) ⊎ (b ≡ unit_key))
max_kind_key unit_key b = (λ h. ground arith, λ h. ground arith)
max_kind_key unit_frame b = (λ h. ground arith, λ h. ground arith)
max_kind_key unit_other b = (λ h. ground arith, λ h. ground arith)

best_key :
    (k : UnitKind) (us : List (List ℕ)) → (best k us ≡ unit_key) ↔ ((k ≡ unit_key) ⊎ HasKey us)
best_key k [] = (λ h. inl h, λ h. ground arith)
best_key k (u ∷ us) =
    let m = max_kind_key k (unit_kind u) in
    let ih = best_key (max_kind k (unit_kind u)) us in
    (λ h. ground (arith, m.0, ih.0 h), λ h. ih.1 (ground (arith, m.1)))

length-aggregate : (us : List (List ℕ)) → length us ≤ length (aggregate us)
length-aggregate [] = omega arith
length-aggregate (u ∷ us) = omega (arith, length-append u (aggregate us), length-aggregate us)

-- A STAP-A packet of whole units, each of 1 to 65535 bytes, counts as the start of a keyframe
-- exactly if a unit in it does, wherever in the packet that unit stands.
pub h264_kind-aggregate :
    (p0 : ℕ) (us : List (List ℕ))
    → p0 % 32 ≡ 24
    → All Fits us
    → (h264_kind (p0 ∷ aggregate us) ≡ unit_key) ↔ HasKey us
unfolding h264_kind
h264_kind-aggregate p0 us t h =
    let e = stap_a-aggregate (length (aggregate us)) unit_other us h (length-aggregate us) in
    let b = best_key unit_other us in
    (λ q. ground (arith, e, b.0), λ q. ground (arith, e, b.1 (inr q)))
