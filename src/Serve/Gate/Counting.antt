-- ===== src/Serve/Gate/Counting.antt =====
-- internal/serve/gate.go, `admit`: what the reports of the episodes add up to.
use masseuse_camlink.Prelude.{
  ℕ, suc, ◌+◌, ◌^◌, ◌≤◌, ◌<◌, ◌≡◌, refl, ◌∙◌, Bool, true, false, Option, none, some, List, [], ◌∷◌,
  if◌then◌else◌, arith, length,
}
use masseuse_camlink.Serve.Gate.{Track, Packet, Codec, Episode, new_track, admit}
use masseuse_camlink.Serve.Gate.Dropping.{Input, admit_all}

-- Packets that did not go out.
abbrev pub dropped : List (Input × Bool × Option Episode) → ℕ
dropped [] = 0
dropped ((i, true, ended) ∷ rest) = dropped rest
dropped ((i, false, ended) ∷ rest) = suc (dropped rest)

abbrev pub packets_of : Option Episode → ℕ
packets_of none = 0
packets_of (some e) = e.packets

-- Packets that the reports speak of.
abbrev pub reported : List (Input × Bool × Option Episode) → ℕ
reported [] = 0
reported ((i, sent, ended) ∷ rest) = packets_of ended + reported rest

-- Dropped in the episode that still runs.
abbrev pub held : Track → ℕ
held t = if t.dropping then t.dropped_packets else 0

abbrev one : Bool → ℕ
one true = 0
one false = 1

admit_counts :
    (t : Track) (pkt : Packet) (congested : Bool) (backlog now : ℕ)
    → held t + 1 < 2 ^ 64
    → (t.dropping ≡ false → t.undecided ≡ false)
    → let (u, sent, ended) = admit t pkt congested backlog now in
      (held u + packets_of ended ≡ held t + one sent) × (u.dropping ≡ false → u.undecided ≡ false)
unfolding admit
admit_counts t pkt congested backlog now h f = ground arith

dropped_cons :
    (i : Input) (sent : Bool) (ended : Option Episode) (rest : List (Input × Bool × Option Episode))
    → dropped ((i, sent, ended) ∷ rest) ≡ one sent + dropped rest
dropped_cons i true ended rest = omega arith
dropped_cons i false ended rest = omega arith

one-le : (b : Bool) → one b ≤ 1
one-le true = omega arith
one-le false = omega arith

admit_all_counts :
    (t : Track) (is : List Input)
    → held t + length is < 2 ^ 64
    → (t.dropping ≡ false → t.undecided ≡ false)
    → held (admit_all t is).0 + reported (admit_all t is).1 ≡ held t + dropped (admit_all t is).1
unfolding admit_all
admit_all_counts t [] h f = refl
admit_all_counts t (i ∷ is) h f =
    let r = admit t i.pkt i.congested i.backlog i.now in
    let (e, g) = admit_counts t i.pkt i.congested i.backlog i.now (omega arith) f in
    let ih = admit_all_counts r.0 is (omega (arith, e, one-le r.1)) g in
    omega (arith, e, ih, dropped_cons i r.1 r.2 (admit_all r.0 is).1)

-- Over fewer than 2 ^ 64 packets, those that did not go out are as many as the reports of the
-- episodes say, with the episode that still runs.
pub admit_all_accounts :
    (clock : ℕ) (c : Codec) (is : List Input)
    → length is < 2 ^ 64
    → let (t, trace) = admit_all (new_track clock c) is in held t + reported trace ≡ dropped trace
admit_all_accounts clock c is h =
    admit_all_counts (new_track clock c) is (unfold new_track in omega arith)
      (λ _. unfold new_track in refl)
    ∙ unfold new_track in omega arith
