-- ===== src/Estim/Runtime/Telemetry.antt =====
-- internal/estim/runtime.go: telemetry, `Ring` and `Runtime.Sample`. The times in a frame are not
-- modelled; its readings are opaque.
use masseuse_camlink.Prelude.{
  ℕ, ◌+◌, ◌==◌, Bool, Option, none, some, List, [], ◌∷◌, ◌++◌, leb, if◌then◌else◌, not, length,
  take, drop, min, codes,
}
use masseuse_camlink.Estim.Runtime.State.{Answer, good, bad, Runtime, is_held, take_text}

-- Two minutes of frames.
abbrev pub ring_capacity : ℕ
ring_capacity = 240

-- `cap` is 0 for a ring of the default capacity.
pub record Ring {ℓ} (A : Type ℓ) : Type ℓ where
  pub cap : ℕ
  pub frames : List A
  pub dropped : ℕ

module _ {ℓ} {A : Type ℓ} where
  abbrev pub capacity : Ring A → ℕ
  capacity r = if r.cap == 0 then ring_capacity else r.cap

  -- `Offer`: the oldest frame makes room.
  unfoldable pub offer : A → Ring A → Ring A
  offer f r =
      if leb (capacity r) (length r.frames)
      then record r { frames = drop 1 r.frames ++ f ∷ []; dropped = r.dropped + 1 }
      else record r { frames = r.frames ++ f ∷ [] }

  -- `Drain`: up to `limit` frames, oldest first.
  unfoldable pub drain : ℕ → Ring A → Ring A × List A
  drain limit r =
      let n = min limit (length r.frames) in
      (record r { frames = drop n r.frames }, take n r.frames)

-- What `Sample` gives: a frame, or a gap with its reason and error.
pub data Sampled : Type 0 where
  taken : List ℕ → Sampled
  gap : List ℕ → Option (List ℕ) → Sampled

abbrev pub skip : List ℕ → Option (List ℕ) → Runtime → Runtime × Sampled
skip reason e r = (record r { gaps = r.gaps + 1 }, gap reason e)

-- `Sample`: `busy` says that a command holds the device.
unfoldable pub sample : Bool → Answer (List ℕ) → Runtime → Runtime × Sampled
sample busy a r =
    if not (is_held r.device)
    then skip (codes "disconnected") none r
    else if busy
    then skip (codes "busy") none r
    else elim a [
      | bad f ↦
          skip (codes "read_error") (some (take_text 200 f.text))
            (record r { read_errors = r.read_errors + 1 })
      | good readings ↦ (record r { frames = r.frames + 1 }, taken readings)
    ]
