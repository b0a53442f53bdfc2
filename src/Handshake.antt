-- ===== src/Handshake.antt =====
-- internal/tunnel/tunnel.go, `prove`, and internal/gateway/gateway.go, `handshake`: the two ends of the
-- exchange that opens a tunnel, on the frames that they read. Ed25519, base64 and lower case are
-- parameters.
pub mod Proving
use masseuse_camlink.Prelude.{
  ℕ, Bool, true, false, ◌&&◌, ◌||◌, not, Option, none, some, List, [], ◌∷◌, ◌++◌, ◌==◌,
  if◌then◌else◌, length, codes,
}
use masseuse_camlink.Frame.{
  Frame, type_reset, type_challenge, type_prove, type_ready, challenge_size,
}

pub data ProveError : Type 0 where
  gateway_refused : List ℕ → ProveError
  no_challenge no_ready : ProveError

-- What the connector does with the first frame that it reads.
pub data Challenged : Type 0 where
  answers : Frame → Challenged
  fails : ProveError → Challenged

pub data HandshakeError : Type 0 where
  no_prove bad_proof : HandshakeError

-- What the gateway does with the answer.
pub data Checked : Type 0 where
  accepts : Frame → Checked
  rejects : HandshakeError → Checked

abbrev pub signature_size : ℕ
signature_size = 64

abbrev pub challenge : List ℕ → Frame
challenge nonce = record { type = type_challenge; stream = 0; payload = nonce }

abbrev pub ready : Frame
ready = record { type = type_ready; stream = 0; payload = [] }

-- `encode` stands for base64.RawURLEncoding, `lower` for strings.ToLower.
module _ (encode : List ℕ → List ℕ) where
  -- `identity.TunnelProof`.
  unfoldable pub tunnel_proof : List ℕ → List ℕ → List ℕ → List ℕ
  tunnel_proof host ticket_hash nonce =
      codes "camlink-tunnel-v1|" ++ (host ++ b'|' ∷ (ticket_hash ++ b'|' ∷ encode nonce))

module _ (encode lower : List ℕ → List ℕ) where
  -- The first half of `prove`; `sign` stands for `Identity.Sign`.
  unfoldable pub on_challenge : (List ℕ → List ℕ) → List ℕ → List ℕ → Frame → Challenged
  unfolding tunnel_proof
  on_challenge sign host ticket_hash f =
      if f.type == type_reset
      then fails (gateway_refused f.payload)
      else if (not (f.type == type_challenge) || not (f.stream == 0))
          || not (length f.payload == challenge_size)
      then fails no_challenge
      else answers (record {
        type = type_prove;
        stream = 0;
        payload = sign (tunnel_proof encode host (lower ticket_hash) f.payload);
      })

  -- `handshake`, once it has read the answer to `nonce`; `verify` stands for ed25519.Verify with the key
  -- expected.
  unfoldable pub on_prove : (List ℕ → List ℕ → Bool) → List ℕ → List ℕ → List ℕ → Frame → Checked
  unfolding tunnel_proof
  on_prove verify host ticket_hash nonce f =
      if not (f.type == type_prove) || not (f.stream == 0)
      then rejects no_prove
      else if not (length f.payload == signature_size)
          || not (verify (tunnel_proof encode host ticket_hash nonce) f.payload)
      then rejects bad_proof
      else accepts ready

-- The second half of `prove`.
unfoldable pub on_ready : Frame → Option ProveError
on_ready f =
    if f.type == type_reset
    then some (gateway_refused f.payload)
    else if not (f.type == type_ready) || not (f.stream == 0)
    then some no_ready
    else none
