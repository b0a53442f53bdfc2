-- ===== src/Handshake/Proving.antt =====
-- internal/identity/identity.go, `TunnelProof`, and the exchange that it is for.
use masseuse_camlink.Prelude.{
  ℕ, ◌≡◌, refl, sym, ap, Bool, true, false, none, List, [], ◌∷◌, ◌++◌, length, drop, contains_byte,
  arith,
}
use masseuse_camlink.Frame.{Frame, challenge_size}
use masseuse_camlink.Handshake.{
  tunnel_proof, on_challenge, on_prove, on_ready, answers, accepts, ready, challenge,
  signature_size,
}

abbrev head_or : ℕ → List ℕ → ℕ
head_or c [] = c
head_or c (n ∷ ns) = n

-- A first part without the separator can be told from what follows it.
parts-injective :
    (c : ℕ) (a b x y : List ℕ)
    → contains_byte c a ≡ false
    → contains_byte c b ≡ false
    → a ++ c ∷ x ≡ b ++ c ∷ y
    → (a ≡ b) × (x ≡ y)
unfolding contains_byte
parts-injective c [] [] x y h k e = (refl, ap (drop 1) e)
parts-injective c [] (m ∷ b) x y h k e =
    let q : m ≡ c = ap (head_or c) (sym e) in absurd (ground (arith, k, q))
parts-injective c (n ∷ a) [] x y h k e =
    let q : n ≡ c = ap (head_or c) e in absurd (ground (arith, h, q))
parts-injective c (n ∷ a) (m ∷ b) x y h k e =
    let q : n ≡ m = ap (head_or c) e in
    let r = parts-injective c a b x y (ground (arith, h)) (ground (arith, k)) (ap (drop 1) e) in
    (ground (arith, q, r.0), r.1)

module _ (encode : List ℕ → List ℕ) where
  -- If base64 tells nonces apart and neither hosts nor ticket hashes contain a bar, the string that
  -- is signed to open a tunnel tells the host, the ticket and the nonce: a proof made for one is
  -- made for no other.
  pub tunnel_proof-injective :
      (host ticket nonce host' ticket' nonce' : List ℕ)
      → ((n m : List ℕ) → encode n ≡ encode m → n ≡ m)
      → contains_byte b'|' host ≡ false
      → contains_byte b'|' host' ≡ false
      → contains_byte b'|' ticket ≡ false
      → contains_byte b'|' ticket' ≡ false
      → tunnel_proof encode host ticket nonce ≡ tunnel_proof encode host' ticket' nonce'
      → (host ≡ host') × (ticket ≡ ticket') × (nonce ≡ nonce')
  unfolding tunnel_proof
  tunnel_proof-injective host ticket nonce host' ticket' nonce' inj h h' t t' e =
      let (a, r) =
        parts-injective b'|' host host' (ticket ++ b'|' ∷ encode nonce)
          (ticket' ++ b'|' ∷ encode nonce') h h' (ap (drop 18) e) in
      let (b, s) = parts-injective b'|' ticket ticket' (encode nonce) (encode nonce') t t' r in
      (a, b, inj nonce nonce' s)

module _ (encode lower : List ℕ → List ℕ) where
  -- If signatures are 64 bytes and verify with the key that the gateway expects, then the
  -- connector's answer to a challenge of 32 bytes, for the gateway's host and the ticket's hash in
  -- lower case, is a proof that the gateway accepts, and the connector accepts the READY that
  -- follows.
  pub on_prove-on_challenge :
      (sign : List ℕ → List ℕ) (verify : List ℕ → List ℕ → Bool) (host ticket nonce : List ℕ)
      (f : Frame)
      → ((m : List ℕ) → verify m (sign m) ≡ true)
      → ((m : List ℕ) → length (sign m) ≡ signature_size)
      → length nonce ≡ challenge_size
      → on_challenge encode lower sign host ticket (challenge nonce) ≡ answers f
      → (on_prove encode lower verify host (lower ticket) nonce f ≡ accepts ready)
        × (on_ready ready ≡ none)
  unfolding on_prove on_challenge on_ready
  on_prove-on_challenge sign verify host ticket nonce f v l n h =
      let m = tunnel_proof encode host (lower ticket) nonce in ground (arith, v m, l m, n)
