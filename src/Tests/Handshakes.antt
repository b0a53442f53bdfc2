-- ===== src/Tests/Handshakes.antt =====
-- internal/tunnel, internal/gateway: an exchange with a toy signature, which is the length.
use masseuse_camlink.Prelude.{
  ℕ, ◌≡◌, refl, Bool, none, List, ◌∷◌, length, replicate, codes, same_text, same_text_iff,
  contains_byte,
}
use masseuse_camlink.Frame.{Frame}
use masseuse_camlink.Handshake.{
  on_challenge, on_prove, on_ready, answers, accepts, ready, challenge,
}
use masseuse_camlink.Handshake.Proving.{tunnel_proof-injective, on_prove-on_challenge}

abbrev same : List ℕ → List ℕ
same s = s

abbrev sign : List ℕ → List ℕ
sign m = length m ∷ replicate 63 0

abbrev verify : List ℕ → List ℕ → Bool
verify m s = same_text s (sign m)

abbrev nonce : List ℕ
nonce = replicate 32 5

abbrev host : List ℕ
host = codes "a.tee.masseuse.ai"

abbrev proof : Frame
proof = record { type = 8; stream = 0; payload = 73 ∷ replicate 63 0 }

proven : on_challenge same same sign host (codes "00ff") (challenge nonce) ≡ answers proof
unfolding on_challenge
proven = refl

on_prove-on_challenge_example :
    (on_prove same same verify host (codes "00ff") nonce proof ≡ accepts ready)
    × (on_ready ready ≡ none)
on_prove-on_challenge_example =
    on_prove-on_challenge same same sign verify host (codes "00ff") nonce proof
      (λ m. (same_text_iff (sign m) (sign m)).1 refl) (λ m. refl) refl proven

tunnel_proof-injective_example : (host ≡ host) × (codes "00ff" ≡ codes "00ff") × (nonce ≡ nonce)
unfolding contains_byte
tunnel_proof-injective_example =
    tunnel_proof-injective same host (codes "00ff") nonce host (codes "00ff") nonce (λ n m e. e)
      refl refl refl refl refl
