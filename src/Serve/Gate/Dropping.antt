-- ===== src/Serve/Gate/Dropping.antt =====
-- internal/serve/gate.go, `admit`: when dropping starts and when it ends.
use masseuse_camlink.Prelude.{
  ℕ, ◌≡◌, ◌⊎◌, ◌↔◌, refl, ap, ◌∙◌, Bool, true, false, ◌&&◌, not, Option, none, some, List, [], ◌∷◌,
  ◌==◌, arith,
}
use masseuse_camlink.Serve.Gate.Kind.{unit_key}
use masseuse_camlink.Serve.Gate.{
  Track, Packet, Codec, new_track, Episode, begins, kind_of, classify, admit,
}

-- While dropping, a packet goes out exactly if its access unit may still be the one to resume at
-- (it begins, or nothing has said yet what it is), it starts a keyframe, and the tunnel has caught
-- up.
pub admit_dropping :
    (t : Track) (pkt : Packet) (congested : Bool) (backlog now : ℕ)
    → t.dropping ≡ true
    → ((admit t pkt congested backlog now).1 ≡ true)
      ↔ ((begins t pkt ≡ true) ⊎ (t.undecided ≡ true))
        × (classify t pkt (begins t pkt) ≡ unit_key)
        × (congested ≡ false)
unfolding admit
admit_dropping t pkt congested backlog now d = (λ h. ground arith, λ h. ground arith)

-- While nothing is dropped or undecided, a packet is dropped exactly if it begins an access unit
-- while the tunnel is behind.
pub admit_passing :
    (t : Track) (pkt : Packet) (congested : Bool) (backlog now : ℕ)
    → t.dropping ≡ false
    → t.undecided ≡ false
    → (admit t pkt congested backlog now).1 ≡ not (begins t pkt && congested)
unfolding admit
admit_passing t pkt congested backlog now d u = ground arith

-- One packet, with what the tunnel says at its time.
pub record Input : Type 0 where
  pub pkt : Packet
  pub congested : Bool
  pub backlog : ℕ
  pub now : ℕ

-- The packets of a stream, each with whether it went out and the episode that it ended.
unfoldable pub admit_all : Track → List Input → Track × List (Input × Bool × Option Episode)
admit_all t [] = (t, [])
admit_all t (i ∷ is) =
    let (u, sent, ended) = admit t i.pkt i.congested i.backlog i.now in
    let (v, rest) = admit_all u is in (v, (i, sent, ended) ∷ rest)

-- Whether a packet begins an access unit, by the timestamp of the packet before it.
abbrev pub starts : Option ℕ → Packet → Bool
starts none pkt = true
starts (some ts) pkt = not (pkt.timestamp == ts)

-- What one packet's fate says of it, from that of the packet before. After a packet that was dropped
-- only the start of a keyframe goes out, and only when the tunnel has caught up; after one that went
-- out the next is dropped only where an access unit begins, and only when the tunnel is behind.
abbrev pub MayFollow : Codec → Option ℕ → Input → Bool → Bool → Type 0
MayFollow c ts i false true =
    (kind_of c (starts ts i.pkt) i.pkt.payload ≡ unit_key) × (i.congested ≡ false)
MayFollow c ts i true false = (starts ts i.pkt ≡ true) × (i.congested ≡ true)
MayFollow c ts i was sent = Unit {0}

abbrev pub IsGated : Codec → Option ℕ → Bool → List (Input × Bool × Option Episode) → Type 0
IsGated c ts was [] = Unit
IsGated c ts was ((i, sent, ended) ∷ rest) =
    MayFollow c ts i was sent × IsGated c (some i.pkt.timestamp) sent rest

-- What the gate remembers of the packet before.
pub record Follows (c : Codec) (ts : Option ℕ) (was : Bool) (t : Track) : Type 0 where
  pub codec : t.kind ≡ c
  pub last : (pkt : Packet) → begins t pkt ≡ starts ts pkt
  pub gated : t.dropping ≡ not was
  pub passing : t.dropping ≡ false → t.undecided ≡ false

module _ (t : Track) (pkt : Packet) (congested : Bool) (backlog now : ℕ) where
  abbrev after : Track
  after = (admit t pkt congested backlog now).0

  admit_remembers : (after.kind ≡ t.kind) × (after.in_have ≡ true) × (after.in_ts ≡ pkt.timestamp)
  unfolding admit
  admit_remembers = ground arith

  admit_gates :
      (t.dropping ≡ false → t.undecided ≡ false)
      → after.dropping ≡ not (admit t pkt congested backlog now).1
  unfolding admit
  admit_gates h = ground arith

  admit_passes :
      (t.dropping ≡ false → t.undecided ≡ false) → after.dropping ≡ false → after.undecided ≡ false
  unfolding admit
  admit_passes h d = ground arith

begins_after :
    (t : Track) (ts : ℕ) (pkt : Packet)
    → t.in_have ≡ true
    → t.in_ts ≡ ts
    → begins t pkt ≡ starts (some ts) pkt
begins_after t ts pkt h e = rw (h, e)

admit-Follows :
    (c : Codec) (ts : Option ℕ) (was : Bool) (t : Track) (i : Input)
    → Follows c ts was t
    → let r = admit t i.pkt i.congested i.backlog i.now in Follows c (some i.pkt.timestamp) r.1 r.0
admit-Follows c ts was t i f =
    let (k, have, at) = admit_remembers t i.pkt i.congested i.backlog i.now in
    record {
      codec = k ∙ f.codec;
      last = λ pkt.
          begins_after (admit t i.pkt i.congested i.backlog i.now).0 i.pkt.timestamp pkt have at;
      gated = admit_gates t i.pkt i.congested i.backlog i.now f.passing;
      passing = admit_passes t i.pkt i.congested i.backlog i.now f.passing;
    }

resumed :
    (c : Codec) (ts : Option ℕ) (was : Bool) (t : Track) (i : Input)
    → Follows c ts was t
    → was ≡ false
    → (admit t i.pkt i.congested i.backlog i.now).1 ≡ true
    → (kind_of c (starts ts i.pkt) i.pkt.payload ≡ unit_key) × (i.congested ≡ false)
resumed c ts was t i f w s =
    let (_, key, clear) =
      (admit_dropping t i.pkt i.congested i.backlog i.now (f.gated ∙ ap not w)).0 s in
    (rw (← f.codec, ← f.last i.pkt) key, clear)

cut :
    (c : Codec) (ts : Option ℕ) (was : Bool) (t : Track) (i : Input)
    → Follows c ts was t
    → was ≡ true
    → (admit t i.pkt i.congested i.backlog i.now).1 ≡ false
    → (starts ts i.pkt ≡ true) × (i.congested ≡ true)
cut c ts was t i f w s =
    let d : t.dropping ≡ false = f.gated ∙ ap not w in
    ground (arith, f.last i.pkt, admit_passing t i.pkt i.congested i.backlog i.now d (f.passing d))

may_follow :
    (c : Codec) (ts : Option ℕ) (was sent : Bool) (t : Track) (i : Input)
    → Follows c ts was t
    → (admit t i.pkt i.congested i.backlog i.now).1 ≡ sent
    → MayFollow c ts i was sent
may_follow c ts false true t i f e = resumed c ts false t i f refl e
may_follow c ts true false t i f e = cut c ts true t i f refl e
may_follow c ts false false t i f e = tt
may_follow c ts true true t i f e = tt

admit_all-Follows :
    (c : Codec) (ts : Option ℕ) (was : Bool) (t : Track) (is : List Input)
    → Follows c ts was t
    → IsGated c ts was (admit_all t is).1
unfolding admit_all
admit_all-Follows c ts was t [] f = tt
admit_all-Follows c ts was t (i ∷ is) f = (
  may_follow c ts was _ t i f refl,
  admit_all-Follows c (some i.pkt.timestamp) _ _ is (admit-Follows c ts was t i f),
)

new_track-Follows : (clock : ℕ) (c : Codec) → Follows c none true (new_track clock c)
unfolding new_track
new_track-Follows clock c = record {
  codec = refl;
  last = λ pkt. refl;
  gated = refl;
  passing = λ _. refl;
}

-- What leaves the gate, over any packets and any congestion: the first packet after dropped ones
-- starts a keyframe and leaves only once the tunnel has caught up, and the first dropped after ones
-- that left begins an access unit while the tunnel is behind.
pub admit_all-IsGated :
    (clock : ℕ) (c : Codec) (is : List Input)
    → IsGated c none true (admit_all (new_track clock c) is).1
admit_all-IsGated clock c is = admit_all-Follows c none true _ is (new_track-Follows clock c)
