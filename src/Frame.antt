-- ===== src/Frame.antt =====
-- internal/frame/frame.go: the wire format of the tunnel. A byte is a number, and a slice of bytes
-- a list of them; `uint32(len(payload))` wraps as in the source.
pub mod Codec
pub mod Stream
use masseuse_camlink.Prelude.{
  ℕ, ◌+◌, ◌*◌, ◌/◌, ◌%◌, ◌^◌, Bool, ◌&&◌, Option, none, some, List, [], ◌∷◌, ◌++◌, ltb, leb, ◌==◌,
  if◌then◌else◌, not, length, get_or, take, drop,
}

-- Frame types.
abbrev pub type_open : ℕ
type_open = 1

abbrev pub type_accept : ℕ
type_accept = 2

abbrev pub type_refuse : ℕ
type_refuse = 3

abbrev pub type_data : ℕ
type_data = 4

abbrev pub type_close : ℕ
type_close = 5

abbrev pub type_reset : ℕ
type_reset = 6

abbrev pub type_challenge : ℕ
type_challenge = 7

abbrev pub type_prove : ℕ
type_prove = 8

abbrev pub type_ready : ℕ
type_ready = 9

abbrev pub header_size : ℕ
header_size = 9

abbrev pub max_payload : ℕ
max_payload = 65536

abbrev pub challenge_size : ℕ
challenge_size = 32

pub data Error : Type 0 where
  short too_large bad_type : Error

pub record Frame : Type 0 where
  pub type : ℕ  -- uint8
  pub stream : ℕ  -- uint32
  pub payload : List ℕ

abbrev pub valid : ℕ → Bool
valid t = leb type_open t && leb t type_ready

-- binary.BigEndian.PutUint32 and Uint32, the latter at an offset.
abbrev pub put_uint32 : ℕ → List ℕ
put_uint32 v = (v / 2 ^ 24 % 256) ∷ (v / 2 ^ 16 % 256) ∷ (v / 2 ^ 8 % 256) ∷ (v % 256) ∷ []

abbrev pub uint32 : List ℕ → ℕ → ℕ
uint32 b i =
    get_or b i 0 * 2 ^ 24
    + get_or b (i + 1) 0 * 2 ^ 16
    + get_or b (i + 2) 0 * 2 ^ 8
    + get_or b (i + 3) 0

-- The header and payload that `encode` appends.
abbrev pub wire : Frame → List ℕ
wire f = (f.type % 256) ∷ put_uint32 f.stream ++ put_uint32 (length f.payload % 2 ^ 32) ++ f.payload

-- `Encode`: the extended slice, and the error, on which the slice is as it was.
unfoldable pub encode : List ℕ → Frame → List ℕ × Option Error
encode dst f =
    if not (valid f.type)
    then (dst, some bad_type)
    else if ltb max_payload (length f.payload)
    then (dst, some too_large)
    else (dst ++ wire f, none)

pub data Decoded : Type 0 where
  decoded : Frame → ℕ → Decoded
  failed : Error → Decoded

-- `Decode`: the first frame of a buffer and the bytes that it took.
unfoldable pub decode : List ℕ → Decoded
decode b =
    let n = uint32 b 5 in
    if ltb (length b) header_size
    then failed short
    else if not (valid (get_or b 0 0))
    then failed bad_type
    else if ltb max_payload n
    then failed too_large
    else if ltb (length b) (header_size + n)
    then failed short
    else decoded
        (record { type = get_or b 0 0; stream = uint32 b 1; payload = take n (drop header_size b) })
        (header_size + n)

-- What an `io.Reader` still has to give: bytes, then the error it ends with.
pub data ReadError : Type 0 where
  eof unexpected_eof : ReadError
  broken : ℕ → ReadError
  corrupt : Error → ReadError

pub record Source : Type 0 where
  pub bytes : List ℕ
  pub ending : ReadError

pub data Read {ℓ} (A : Type ℓ) : Type ℓ where
  got : A → Source → Read A
  stopped : ReadError → Read A

-- io.ReadFull on a buffer of `n` bytes, which is not empty: an end of stream after some of the
-- bytes is unexpected, any other error is passed on.
abbrev pub ending_within : ℕ → ReadError → ReadError
ending_within k eof = if k == 0 then eof else unexpected_eof
ending_within k e = e

unfoldable pub read_full : ℕ → Source → Read (List ℕ)
read_full n s =
    if ltb (length s.bytes) n
    then stopped (ending_within (length s.bytes) s.ending)
    else got (take n s.bytes) (record s { bytes = drop n s.bytes })

-- An end of stream between the header and the payload is inside the frame.
abbrev pub inside : ReadError → ReadError
inside eof = unexpected_eof
inside e = e

unfoldable pub read_payload : ℕ → ℕ → ℕ → Source → Read Frame
read_payload t stream n s =
    if n == 0
    then got (record { type = t; stream = stream; payload = [] }) s
    else elim (read_full n s) [
      | got p rest ↦ got (record { type = t; stream = stream; payload = p }) rest
      | stopped e ↦ stopped (inside e)
    ]

unfoldable pub read_header : List ℕ → Source → Read Frame
read_header hdr s =
    if not (valid (get_or hdr 0 0))
    then stopped (corrupt bad_type)
    else if ltb max_payload (uint32 hdr 5)
    then stopped (corrupt too_large)
    else read_payload (get_or hdr 0 0) (uint32 hdr 1) (uint32 hdr 5) s

-- `Reader.Read`.
unfoldable pub read : Source → Read Frame
unfolding read_full read_header read_payload
read s = elim (read_full header_size s) [
  | got hdr rest ↦ read_header hdr rest
  | stopped e ↦ stopped e
]

-- `Writer.Write` to a sink that takes the bytes of one call or fails: what has been written, and
-- the error.
pub data WriteError : Type 0 where
  refused : Error → WriteError
  sink : ℕ → WriteError

unfoldable pub write : (List ℕ → Option ℕ) → List ℕ → Frame → List ℕ × Option WriteError
unfolding encode
write accepts out f = elim ((encode [] f).1) [
  | some e ↦ (out, some (refused e))
  | none ↦ elim (accepts (encode [] f).0) [
    | none ↦ (out ++ (encode [] f).0, none)
    | some e ↦ (out, some (sink e))
  ]
]
