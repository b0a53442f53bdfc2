-- ===== src/Serve/Gate/Kind.antt =====
-- internal/serve/gate.go: what a video packet carries. Bytes are numbers below 256, so that a mask
-- `& (1 << k - 1)` is a remainder and a shift a quotient.
use masseuse_camlink.Prelude.{
  ℕ, suc, ◌+◌, ◌*◌, ◌/◌, ◌%◌, ◌&&◌, ◌||◌, List, [], ◌∷◌, ltb, leb, ◌==◌, if◌then◌else◌, length,
  drop, get_or,
}

-- In the order of their constants: `max` takes the later.
pub data UnitKind : Type 0 where
  unit_other unit_frame unit_key : UnitKind

abbrev pub max_kind : UnitKind → UnitKind → UnitKind
max_kind unit_key k = unit_key
max_kind unit_frame unit_key = unit_key
max_kind unit_frame k = unit_frame
max_kind unit_other k = k

abbrev pub h264_nal : ℕ → UnitKind
h264_nal t =
    if t == 5 || t == 7 || t == 8
    then unit_key
    else if leb 1 t && leb t 4
    then unit_frame
    else unit_other

-- The loop over an aggregation packet, where `rest` is `p[off:]`. Each round takes at least two
-- bytes, so that `fuel` rounds do for that many bytes.
unfoldable pub stap_a : ℕ → UnitKind → List ℕ → UnitKind
stap_a (suc fuel) kind (a ∷ b ∷ rest) =
    let size = a * 256 + b in
    let next = stap_a fuel (max_kind kind (h264_nal (get_or rest 0 0 % 32))) (drop size rest) in
    if ltb size 1 || ltb (length rest) size then unit_other else next
stap_a fuel kind rest = kind

unfoldable pub h264_kind : List ℕ → UnitKind
unfolding stap_a
h264_kind [] = unit_other
h264_kind (p0 ∷ p) =
    let typ = p0 % 32 in
    if typ == 24
    then stap_a (length p) unit_other p
    else if typ == 28
    then (if leb 1 (length p) && get_or p 0 0 / 128 % 2 == 1
        then h264_nal (get_or p 0 0 % 32)
        else unit_other)
    else h264_nal typ

abbrev pub h265_nal : ℕ → UnitKind
h265_nal t =
    if leb 16 t && leb t 21 || leb 32 t && leb t 34
    then unit_key
    else if leb t 15
    then unit_frame
    else unit_other

unfoldable pub ap_packet : ℕ → UnitKind → List ℕ → UnitKind
ap_packet (suc fuel) kind (a ∷ b ∷ rest) =
    let size = a * 256 + b in
    let next =
      ap_packet fuel (max_kind kind (h265_nal (get_or rest 0 0 / 2 % 64))) (drop size rest) in
    if ltb size 2 || ltb (length rest) size then unit_other else next
ap_packet fuel kind rest = kind

unfoldable pub h265_kind : List ℕ → UnitKind
unfolding ap_packet
h265_kind (p0 ∷ p1 ∷ p) =
    let typ = p0 / 2 % 64 in
    if typ == 48
    then ap_packet (length p) unit_other p
    else if typ == 49
    then (if leb 1 (length p) && get_or p 0 0 / 128 % 2 == 1
        then h265_nal (get_or p 0 0 % 64)
        else unit_other)
    else h265_nal typ
h265_kind _ = unit_other
