-- ===== src/Serve/Gate/Continuity.antt =====
-- internal/serve/gate.go, `stamp`: what goes out is one stream, whoever publishes.
use masseuse_camlink.Prelude.{ℕ, ◌+◌, ◌^◌, ◌<◌, ◌≡◌, ◌≢◌, refl, subst, true, List, [], ◌∷◌, arith}
use masseuse_camlink.Serve.Gate.{Track, Packet, Codec, new_track, want, stamp, u16, u32}

-- A packet, when it is sent, and whether its publisher is a new one.
pub data Sending : Type 0 where
  packet : Packet → ℕ → Sending
  new_publisher : Sending

-- One source, and numbers without gaps from `seq` on.
abbrev pub IsContinuous : ℕ → ℕ → List Packet → Type 0
IsContinuous ssrc seq [] = Unit
IsContinuous ssrc seq (p ∷ ps) =
    (p.ssrc ≡ ssrc) × (p.sequence_number ≡ seq) × IsContinuous ssrc (u16 (seq + 1)) ps

module _ (ticks : ℕ → ℕ → ℕ) where
  -- The packets of a track over its publishers, as they leave.
  unfoldable pub stamp_all : Track → List Sending → List Packet
  stamp_all t [] = []
  stamp_all t (new_publisher ∷ is) = stamp_all (record t { fresh = true }) is
  stamp_all t (packet pkt now ∷ is) = let (u, out) = stamp ticks t pkt now in out ∷ stamp_all u is

  stamp_keeps :
      (t : Track) (pkt : Packet) (now : ℕ)
      → t.started ≡ true
      → let (u, out) = stamp ticks t pkt now in
        (out.ssrc ≡ t.ssrc)
        × (out.sequence_number ≡ t.next_seq)
        × (u.started ≡ true)
        × (u.ssrc ≡ t.ssrc)
        × (u.next_seq ≡ u16 (t.next_seq + 1))
  unfolding stamp
  stamp_keeps t pkt now s = ground arith

  stamp_all-IsContinuous :
      (t : Track) (is : List Sending)
      → t.started ≡ true
      → IsContinuous t.ssrc t.next_seq (stamp_all t is)
  unfolding stamp_all
  stamp_all-IsContinuous t [] s = tt
  stamp_all-IsContinuous t (new_publisher ∷ is) s =
      stamp_all-IsContinuous (record t { fresh = true }) is s
  stamp_all-IsContinuous t (packet pkt now ∷ is) s =
      let (a, b, c, d, e) = stamp_keeps t pkt now s in
      (
        a,
        b,
        subst (λ q. IsContinuous q (u16 (t.next_seq + 1)) (stamp_all (stamp ticks t pkt now).0 is))
            d
            (subst
              (λ q.
                IsContinuous (stamp ticks t pkt now).0.ssrc q
                  (stamp_all (stamp ticks t pkt now).0 is))
              e (stamp_all-IsContinuous (stamp ticks t pkt now).0 is c)),
      )

  -- Whatever publishers a track has, from its first packet on everything leaves under that packet's
  -- source and with consecutive sequence numbers.
  pub stamp_new-IsContinuous :
      (clock : ℕ) (c : Codec) (pkt : Packet) (now : ℕ) (is : List Sending)
      → IsContinuous pkt.ssrc pkt.sequence_number
          (stamp_all (new_track clock c) (packet pkt now ∷ is))
  unfolding new_track stamp
  stamp_new-IsContinuous clock c pkt now is =
      unfold stamp_all in (refl, refl, stamp_all-IsContinuous _ is refl)

  -- With timestamps of 32 bits, the first packet of a new publisher on a started track has the
  -- timestamp that the clock calls for, and not the last one; and the next packet is as far from it
  -- as in the source, modulo 2 ^ 32.
  pub stamp_times :
      (t : Track) (pkt next : Packet) (now later : ℕ)
      → t.started ≡ true
      → t.fresh ≡ true
      → t.last_ts < 2 ^ 32
      → pkt.timestamp < 2 ^ 32
      → next.timestamp < 2 ^ 32
      → let (u, out) = stamp ticks t pkt now in
        let (v, out') = stamp ticks u next later in
        (out.timestamp ≡ want ticks t now)
        × (out.timestamp ≢ t.last_ts)
        × (u32 (out'.timestamp + pkt.timestamp) ≡ u32 (out.timestamp + next.timestamp))
  unfolding stamp
  stamp_times t pkt next now later s f h k l = ground arith
