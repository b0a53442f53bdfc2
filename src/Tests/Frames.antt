-- ===== src/Tests/Frames.antt =====
-- internal/frame at concrete frames.
use masseuse_camlink.Prelude.{ℕ, ◌≡◌, ◌≢◌, refl, none, List, [], ◌∷◌, ◌++◌, arith, All, codes}
use masseuse_camlink.Frame
use masseuse_camlink.Frame.{
  Frame, Error, short, encode, wire, decode, Decoded, decoded, failed, header_size, max_payload,
  Source, read, Read, got, stopped, eof, write,
}
use masseuse_camlink.Frame.Codec.{Fits, IsByte, decode-wire, decode_canonical}
use masseuse_camlink.Frame.Stream.{ended, Reads, write_all, written-Reads}

abbrev hello : Frame
hello = record { type = Frame.type_data; stream = 258; payload = codes "hi" }

abbrev bye : Frame
bye = record { type = Frame.type_close; stream = 258; payload = [] }

hello-Fits : Fits hello
hello-Fits = record { typed = refl; addressed = omega arith; bounded = omega arith }

bye-Fits : Fits bye
bye-Fits = record { typed = refl; addressed = omega arith; bounded = omega arith }

-- 0x04 00000102 00000002 "hi".
wire-hello : encode [] hello ≡ (4 ∷ 0 ∷ 0 ∷ 1 ∷ 2 ∷ 0 ∷ 0 ∷ 0 ∷ 2 ∷ 104 ∷ 105 ∷ [], none)
unfolding encode
wire-hello = refl

short_header : decode (4 ∷ 0 ∷ []) ≡ failed short
unfolding decode
short_header = refl

decode-hello : decode (wire hello) ≡ decoded hello 11
unfolding decode
decode-hello = refl

written-Reads_example :
    (sent : List ℕ) × (write_all [] (hello ∷ bye ∷ []) ≡ (sent, none))
    × Reads (ended sent) (hello ∷ bye ∷ []) (ended [])
    × (read (ended []) ≡ stopped eof)
written-Reads_example = written-Reads (hello ∷ bye ∷ []) (hello-Fits, (bye-Fits, tt))

decode-wire_example : decode (wire hello ++ 4 ∷ 0 ∷ []) ≡ decoded hello 11
decode-wire_example = decode-wire hello (4 ∷ 0 ∷ []) hello-Fits

wire-hello-IsByte : All IsByte (wire hello)
wire-hello-IsByte = ground arith

decode_canonical_example : Fits hello × (encode [] hello ≡ (wire hello, none))
decode_canonical_example = decode_canonical (wire hello) hello 11 wire-hello-IsByte decode-hello

not_short : decode (wire hello) ≢ failed short
not_short e = cc (decode-hello, e)
