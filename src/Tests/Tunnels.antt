-- ===== src/Tests/Tunnels.antt =====
-- internal/tunnel: OPENs on a toy network, where an address is the first number of it.
use masseuse_camlink.Prelude.{
  ℕ, ◌≡◌, refl, true, false, none, some, List, [], ◌∷◌, ◌++◌, ◌==◌, if◌then◌else◌, same_text, cut,
  codes, pos, All,
}
use masseuse_camlink.Tunnel.Policy.{
  Net, Open, Outcome, dialed, refused, relayed, other_target, not_private, admitted, begin_allow,
  end_allow, handle_all,
}
use masseuse_camlink.Tunnel.Single.{IsFor, dials, handle_all-single}

abbrev toy : Net ℕ
toy = record {
  split = cut b':';
  atoi = λ s. if same_text s (codes "554") then some (pos 554) else none;
  parse = λ s.
      if same_text s (codes "10.0.0.5")
      then some 10
      else if same_text s (codes "8.8.8.8")
      then some 8
      else none;
  text = λ a. a ∷ [];
  join = λ host port. host ++ b':' ∷ port;
  in_private = λ a. a == 10;
  in_loopback = λ a. a == 127;
  in_link_local = λ a. a == 169;
}

abbrev to : List ℕ → Open ℕ
to target = record {
  target = target;
  answer = some (10 ∷ 10 ∷ []);
  connects = true;
  accepts = true;
}

abbrev camera : List ℕ
camera = codes "10.0.0.5:554"

abbrev other : List ℕ
other = codes "nvr:554"

abbrev opens : List (Open ℕ)
opens = to (codes "8.8.8.8:554") ∷ to camera ∷ to other ∷ to camera ∷ []

abbrev outcomes : List (Open ℕ × Outcome) → List Outcome
outcomes [] = []
outcomes ((o, out) ∷ rest) = out ∷ outcomes rest

outcomes-opens :
    outcomes (handle_all toy (λ t. false) opens []).1
    ≡ refused not_private
      ∷ dialed (10 ∷ codes ":554") relayed
      ∷ refused other_target
      ∷ dialed (10 ∷ codes ":554") relayed
      ∷ []
unfolding handle_all cut same_text
outcomes-opens = refl

handle_all-single_example :
    All
      (IsFor toy (handle_all toy (λ t. false) opens []).0)
      (dials toy (handle_all toy (λ t. false) opens []).1)
unfolding cut
handle_all-single_example = handle_all-single toy (λ t. false) opens refl

-- Two OPENs that are resolved at the same time: each has passed the test of the lock before the other
-- takes it, and both are admitted.
both_admitted :
    let first = end_allow toy camera none (begin_allow toy [] camera) [] in
    let second = end_allow toy other (some (10 ∷ [])) (begin_allow toy [] other) first.0 in
    (first.1 ≡ admitted (10 ∷ codes ":554"))
    × (second.1 ≡ admitted (10 ∷ codes ":554"))
    × (first.0 ≡ camera)
    × (second.0 ≡ other)
unfolding end_allow begin_allow cut same_text
both_admitted = (refl, refl, refl, refl)
