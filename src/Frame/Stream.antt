-- ===== src/Frame/Stream.antt =====
-- internal/frame/frame.go: `Reader.Read` against `Decode`, and a stream of written frames read back.
use masseuse_camlink.Prelude.{
  ℕ, ◌+◌, ◌≤◌, ◌<◌, ◌≡◌, ◌≢◌, zero, suc, refl, ap, ◌∙◌, none, some, List, [], ◌∷◌, ◌++◌, arith,
  length, length-append, length-take, length-drop, get_or, All, append-nil, Option, take, drop,
  append_assoc, if◌then◌else◌, ◌==◌,
}
use masseuse_camlink.Frame.{
  Frame, short, uint32, wire, Decoded, decoded, failed, decode, header_size, max_payload, Source,
  Read, got, stopped, eof, unexpected_eof, corrupt, read, write, WriteError,
}
use masseuse_camlink.Frame.Codec.{Fits, drop-length, decode-wire}

-- A reader that meets the end of the stream after `b`.
abbrev pub ended : List ℕ → Source
ended b = record { bytes = b; ending = eof }

get_or-append : (b more : List ℕ) (i : ℕ) → i < length b → get_or (b ++ more) i 0 ≡ get_or b i 0
get_or-append [] more i h = elim h [ ]
get_or-append (x ∷ b) more zero h = refl
get_or-append (x ∷ b) more (suc i) h = get_or-append b more i (omega arith)

uint32-append : (b more : List ℕ) (i : ℕ) → i + 3 < length b → uint32 (b ++ more) i ≡ uint32 b i
uint32-append b more i h = ground (
  arith,
  get_or-append b more i,
  get_or-append b more (i + 1),
  get_or-append b more (i + 2),
  get_or-append b more (i + 3),
)

take-append {ℓ} :
    {A : Type ℓ} (n : ℕ) (b more : List A) → n ≤ length b → take n (b ++ more) ≡ take n b
take-append zero b more h = refl
take-append (suc n) [] more h = elim h [ ]
take-append (suc n) (x ∷ b) more h = ap (◌∷◌ x) (take-append n b more (omega arith))

take-drop-append {ℓ} :
    {A : Type ℓ} (n k : ℕ) (b more : List A)
    → k + n ≤ length b
    → take n (drop k (b ++ more)) ≡ take n (drop k b)
take-drop-append n zero b more h = take-append n b more (omega arith)
take-drop-append n (suc k) [] more h = absurd (omega arith)
take-drop-append n (suc k) (x ∷ b) more h = take-drop-append n k b more (omega arith)

-- What `Read` says of a stream that ends after `b`, from what `Decode` says of `b`.
abbrev pub Agrees : List ℕ → Decoded → Read Frame → Type 0
Agrees b (decoded f n) r = r ≡ got f (ended (drop n b))
Agrees b (failed short) r = r ≡ stopped (if length b == 0 then eof else unexpected_eof)
Agrees b (failed e) r = r ≡ stopped (corrupt e)

-- At the end of the stream Read gives exactly what Decode finds: the same frame, with the rest of
-- the bytes left, or the same verdict on a corrupt header; too few bytes are an end of stream,
-- which is unexpected unless there are none.
pub read-decode : (b : List ℕ) → Agrees b (decode b) (read (ended b))
unfolding decode read
read-decode b = ground arith

-- A frame that Decode finds takes a header and its payload: at most a header and the largest
-- payload, and no more than the buffer has.
pub decode_bounds :
    (b : List ℕ) (f : Frame) (n : ℕ)
    → decode b ≡ decoded f n
    → (n ≤ length b)
      × (header_size ≤ n)
      × (n ≤ header_size + max_payload)
      × (n ≡ header_size + length f.payload)
unfolding decode
decode_bounds b f n e =
    ground (arith, length-take (uint32 b 5) (drop header_size b), length-drop header_size b)

-- A byte that arrives late changes no verdict: once Decode has a frame or finds the stream corrupt,
-- more input leaves that as it is.
pub decode_more : (b more : List ℕ) → decode b ≢ failed short → decode (b ++ more) ≡ decode b
unfolding decode
decode_more b more h = ground (
  arith,
  length-append b more,
  uint32-append b more 1,
  uint32-append b more 5,
  get_or-append b more 0,
  take-drop-append (uint32 b 5) header_size b more,
)

drop-wire :
    (f : Frame) (rest : List ℕ) → drop (header_size + length f.payload) (wire f ++ rest) ≡ rest
drop-wire f rest = ground (arith, drop-length f.payload rest)

read-wire :
    (f : Frame) (rest : List ℕ) → Fits f → read (ended (wire f ++ rest)) ≡ got f (ended rest)
read-wire f rest h =
    (rw (decode-wire f rest h) at (read-decode (wire f ++ rest)))
    ∙ ap (λ (r : List ℕ). got f (ended r)) (drop-wire f rest)

abbrev and_then :
    List ℕ × Option WriteError → (List ℕ → List ℕ × Option WriteError) → List ℕ × Option WriteError
and_then (sent, none) k = k sent
and_then (sent, some e) k = (sent, some e)

-- Frames written one after the other to a sink that takes everything.
pub write_all : List ℕ → List Frame → List ℕ × Option WriteError
write_all out [] = (out, none)
write_all out (f ∷ fs) = and_then (write (λ _. none) out f) (λ sent. write_all sent fs)

-- Successive reads.
pub data Reads : Source → List Frame → Source → Type 0 where
  done : (s : Source) → Reads s [] s
  next :
      {s t u : Source} {f : Frame} {fs : List Frame}
      → read s ≡ got f t
      → Reads t fs u
      → Reads s (f ∷ fs) u

abbrev pub wires : List Frame → List ℕ
wires [] = []
wires (f ∷ fs) = wire f ++ wires fs

write-wire : (out : List ℕ) (f : Frame) → Fits f → write (λ _. none) out f ≡ (out ++ wire f, none)
unfolding write
write-wire out f h = ground arith

write_all-wires :
    (out : List ℕ) (fs : List Frame) → All Fits fs → write_all out fs ≡ (out ++ wires fs, none)
unfolding write_all
write_all-wires out [] h = rw append-nil
write_all-wires out (f ∷ fs) h =
    rw (write-wire out f h.0)
      (write_all-wires (out ++ wire f) fs h.1 ∙ rw (append_assoc out (wire f) (wires fs)))

Reads-wires : (fs : List Frame) → All Fits fs → Reads (ended (wires fs)) fs (ended [])
Reads-wires [] h = done _
Reads-wires (f ∷ fs) h = next (read-wire f (wires fs) h.0) (Reads-wires fs h.1)

-- Frames of defined types, with stream ids of 32 bits and payloads within the limit, written to a
-- sink that takes everything, are what Reader.Read gives back from the bytes, in their order and
-- with nothing left over; then the reader is at a clean end.
pub written-Reads :
    (fs : List Frame)
    → All Fits fs
    → (sent : List ℕ) × (write_all [] fs ≡ (sent, none))
      × Reads (ended sent) fs (ended [])
      × (read (ended []) ≡ stopped eof)
unfolding read
written-Reads fs h = (wires fs, write_all-wires [] fs h, Reads-wires fs h, refl)

-- A frame that was read has used up bytes.
pub read_shrinks : (s t : Source) (f : Frame) → read s ≡ got f t → length t.bytes < length s.bytes
unfolding read
read_shrinks s t f e = ground (
  arith,
  length-drop header_size s.bytes,
  length-drop (uint32 (take header_size s.bytes) 5) (drop header_size s.bytes),
)
