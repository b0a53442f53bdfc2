-- ===== src/Frame/Codec.antt =====
-- internal/frame/frame.go: `Encode` and `Decode` undo one another.
use masseuse_camlink.Prelude.{
  ℕ, ◌+◌, ◌/◌, ◌%◌, ◌^◌, ◌≤◌, ◌<◌, ◌≡◌, refl, ap, true, none, List, [], ◌∷◌, ◌++◌, arith, length,
  length-append, All, ◌*◌, length-take, take, drop,
}
use masseuse_camlink.Frame.{
  Frame, valid, put_uint32, uint32, wire, encode, decoded, decode, header_size, max_payload,
}

-- What the sender may put in a frame.
pub record Fits (f : Frame) : Type 0 where
  pub typed : valid f.type ≡ true
  pub addressed : f.stream < 2 ^ 32
  pub bounded : length f.payload ≤ max_payload

pub take-length {ℓ} : {A : Type ℓ} (xs ys : List A) → take (length xs) (xs ++ ys) ≡ xs
take-length [] ys = refl
take-length (x ∷ xs) ys = ap (◌∷◌ x) (take-length xs ys)

pub drop-length {ℓ} : {A : Type ℓ} (xs ys : List A) → drop (length xs) (xs ++ ys) ≡ ys
drop-length [] ys = refl
drop-length (x ∷ xs) ys = drop-length xs ys

pub unpack_pack : (v : ℕ) → v < 2 ^ 32 → uint32 (put_uint32 v) 0 ≡ v
unpack_pack v h = omega arith

pub encode-Fits : (dst : List ℕ) (f : Frame) → Fits f → encode dst f ≡ (dst ++ wire f, none)
unfolding encode
encode-Fits dst f h = ground arith

-- `unpack_pack` on the payload's length, which does not wrap.
unpack_length : (n : ℕ) → n ≤ max_payload → uint32 (put_uint32 (n % 2 ^ 32)) 0 ≡ n
unpack_length n h = omega arith

-- What `decode` does with a whole header and a payload of the length that it announces.
decode_whole :
    (t a b c d n : ℕ) (e f g h : ℕ) (p rest : List ℕ)
    → valid t ≡ true
    → n ≡ length p
    → n ≤ max_payload
    → uint32 (e ∷ f ∷ g ∷ h ∷ []) 0 ≡ n
    → decode (t ∷ a ∷ b ∷ c ∷ d ∷ e ∷ f ∷ g ∷ h ∷ p ++ rest)
      ≡ decoded
          (record { type = t; stream = uint32 (a ∷ b ∷ c ∷ d ∷ []) 0; payload = p })
          (header_size + n)
unfolding decode
decode_whole t a b c d n e f g h p rest v l m u =
    ground (arith, take-length p rest, length-append p rest)

-- Decode finds an encoded frame that fits its limits, and its size, whatever bytes follow it.
pub decode-wire :
    (f : Frame) (rest : List ℕ)
    → Fits f
    → decode (wire f ++ rest) ≡ decoded f (header_size + length f.payload)
decode-wire f rest h = ground (
  arith,
  unpack_pack f.stream,
  unpack_length (length f.payload),
  decode_whole (f.type % 256) (f.stream / 2 ^ 24 % 256) (f.stream / 2 ^ 16 % 256)
      (f.stream / 2 ^ 8 % 256) (f.stream % 256) (length f.payload)
      (length f.payload % 2 ^ 32 / 2 ^ 24 % 256) (length f.payload % 2 ^ 32 / 2 ^ 16 % 256)
      (length f.payload % 2 ^ 32 / 2 ^ 8 % 256) (length f.payload % 2 ^ 32 % 256) f.payload rest,
)

abbrev pub IsByte : ℕ → Type 0
IsByte x = x < 256

pack_unpack :
    (a b c d : ℕ)
    → IsByte a
    → IsByte b
    → IsByte c
    → IsByte d
    → put_uint32 (a * 2 ^ 24 + b * 2 ^ 16 + c * 2 ^ 8 + d) ≡ a ∷ b ∷ c ∷ d ∷ []
pack_unpack a b c d ha hb hc hd = ground arith

-- What a successful `decode` of a whole header was given.
decode_parts :
    (t a b c d e g h i : ℕ) (p : List ℕ) (f : Frame) (n : ℕ)
    → decode (t ∷ a ∷ b ∷ c ∷ d ∷ e ∷ g ∷ h ∷ i ∷ p) ≡ decoded f n
    → let m = uint32 (e ∷ g ∷ h ∷ i ∷ []) 0 in
      (valid t ≡ true)
      × (m ≤ max_payload)
      × (m ≤ length p)
      × (n ≡ header_size + m)
      × (f ≡ record { type = t; stream = uint32 (a ∷ b ∷ c ∷ d ∷ []) 0; payload = take m p })
unfolding decode
decode_parts t a b c d e g h i p f n eq = ground arith

-- From a buffer of bytes Decode takes nothing but what Encode writes: the frame fits its limits,
-- and encoding it again gives the very bytes that were taken.
pub decode_canonical :
    (b : List ℕ) (f : Frame) (n : ℕ)
    → All IsByte b
    → decode b ≡ decoded f n
    → Fits f × (encode [] f ≡ (take n b, none))
unfolding decode encode
decode_canonical (t ∷ a ∷ b ∷ c ∷ d ∷ e ∷ g ∷ h ∷ i ∷ p) f n bytes eq =
    let (v, m, l, k, same) = decode_parts t a b c d e g h i p f n eq in
    rw (same, k)
      (
        record {
          typed = v;
          addressed = omega arith;
          bounded = omega (arith, length-take (uint32 (e ∷ g ∷ h ∷ i ∷ []) 0) p);
        },
        ground (
          arith,
          pack_unpack a b c d,
          pack_unpack e g h i,
          length-take (uint32 (e ∷ g ∷ h ∷ i ∷ []) 0) p,
        ),
      )
decode_canonical _ f n bytes eq = absurd (ground arith)
