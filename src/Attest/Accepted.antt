-- ===== src/Attest/Accepted.antt =====
-- internal/attest/attest.go, `VerifyToken` and `Verify`: what an attestation that is accepted has
-- passed, and what it says under a tightened policy.
use masseuse_camlink.Prelude.{
  ℕ, ◌≡◌, ◌⊎◌, inl, inr, refl, ap, subst, Bool, true, false, ◌&&◌, not, List, [], ◌∷◌, if_keeps,
  split, is_empty, ℤ,
}
use masseuse_camlink.Attest.Policy.{Policy}
use masseuse_camlink.Attest.Hosts.{has_suffix_any}
use masseuse_camlink.Attest.Claims.{Claims, Doc, Reason, check_claims}
use masseuse_camlink.Attest.Floors.{Floors, apply}
use masseuse_camlink.Attest.Tighten.{append_nil}
use masseuse_camlink.Attest.Verified.{MeetsFloors, apply-MeetsFloors, apply_hosts, apply_hosts_left}
use masseuse_camlink.Attest.Token.{
  Library, Verified, accepted, bad_token, refused, bad_host, no_token, verify_token, when_accepted,
  verify,
}
use masseuse_camlink.Attest.Vouched.{VouchedBy, Timely, Gives, verify_token-Vouched}

suffixes_pass :
    (ss : List (List ℕ)) (b : Bool) → not (is_empty ss) && not b ≡ false → (ss ≡ []) ⊎ (b ≡ true)
suffixes_pass [] b h = inl refl
suffixes_pass (s ∷ ss) true h = inr refl
suffixes_pass (s ∷ ss) false h = cc

module _ {K : Type 0} (lib : Library K) where
  kept_unless :
      (c d : Claims) (rs : List Reason)
      → elim rs as (λ _. Verified) [ [] ↦ accepted d | r ∷ rs' ↦ refused (r ∷ rs') ] ≡ accepted c
      → (d ≡ c) × (rs ≡ [])
  kept_unless c d [] h = (cc, refl)
  kept_unless c d (r ∷ rs) h = cc

  when_accepted-check_claims :
      (p : Policy) (doc : Doc) (nonce spki : List ℕ) (v : Verified) (c : Claims)
      → when_accepted lib p doc nonce spki v ≡ accepted c
      → (v ≡ accepted c) × (check_claims lib.decode lib.encode lib.hash p c doc nonce spki ≡ [])
  when_accepted-check_claims p doc nonce spki (accepted d) c h =
      let (e, k) =
        kept_unless c d (check_claims lib.decode lib.encode lib.hash p d doc nonce spki) h in
      (
        ap accepted e,
        subst (λ x. check_claims lib.decode lib.encode lib.hash p x doc nonce spki ≡ []) e k,
      )
  when_accepted-check_claims p doc nonce spki (bad_token e) c h = cc
  when_accepted-check_claims p doc nonce spki (refused rs) c h = cc
  when_accepted-check_claims p doc nonce spki bad_host c h = cc
  when_accepted-check_claims p doc nonce spki no_token c h = cc

  -- Verify accepts no claims but those of a payload that the key named in an RS256 header has
  -- signed, for the policy's issuer and the origin as audience, within their times, that pass every
  -- check of the policy and of the bindings to this nonce and this connection's key; and, where the
  -- policy has host suffixes, only for a host under one.
  pub verify-check_claims :
      (p : Policy) (origin host : List ℕ) (doc : Doc) (nonce key_hash : List ℕ) (now : ℤ)
      (c : Claims)
      → verify lib p origin host doc nonce key_hash now ≡ accepted c
      → VouchedBy lib (split b'.' doc.token) c
        × Timely p.issuer origin now c
        × (check_claims lib.decode lib.encode lib.hash p c doc nonce (lib.encode key_hash) ≡ [])
        × ((p.tee_slot_host_suffixes ≡ [])
            ⊎ (has_suffix_any lib.lower lib.is_ip host p.tee_slot_host_suffixes ≡ true))
  unfolding verify
  verify-check_claims p origin host doc nonce key_hash now c =
      let P =
        Gives
          (VouchedBy lib (split b'.' doc.token) c
            × Timely p.issuer origin now c
            × (check_claims lib.decode lib.encode lib.hash p c doc nonce (lib.encode key_hash) ≡ [])
            × ((p.tee_slot_host_suffixes ≡ [])
                ⊎ (has_suffix_any lib.lower lib.is_ip host p.tee_slot_host_suffixes ≡ true)))
          c in
      if_keeps P
        (not (is_empty p.tee_slot_host_suffixes)
          && not (has_suffix_any lib.lower lib.is_ip host p.tee_slot_host_suffixes))
        (λ _ h. cc)
        (λ e1.
          if_keeps P (is_empty doc.token) (λ _ h. cc)
            (λ e2 h.
              let (a, k) =
                when_accepted-check_claims p doc nonce (lib.encode key_hash)
                  (verify_token lib doc.token p.issuer origin now) c h in
              let (v, t) = verify_token-Vouched lib doc.token p.issuer origin now c a in
              (
                v,
                t,
                k,
                suffixes_pass _ (has_suffix_any lib.lower lib.is_ip host p.tee_slot_host_suffixes)
                    e1,
              )))

  -- If the floors accept a policy and Verify accepts an enclave under the policy that they have
  -- tightened, then the enclave's claims meet every floor on issuer, software, hardware, boot,
  -- debugging, signer, release, support, GPU, project and image, whatever the policy says; and with
  -- floors on host suffixes its host is under one of them.
  pub verify-MeetsFloors :
      (f : Floors) (p : Policy) (origin host : List ℕ) (doc : Doc) (nonce key_hash : List ℕ)
      (now : ℤ) (c : Claims)
      → (apply lib.lower f p).1 ≡ []
      → verify lib (apply lib.lower f p).0 origin host doc nonce key_hash now ≡ accepted c
      → MeetsFloors f c
        × ((f.tee_slot_host_suffixes ≡ [])
            ⊎ (has_suffix_any lib.lower lib.is_ip host f.tee_slot_host_suffixes ≡ true))
  unfolding check_claims
  verify-MeetsFloors f p origin host doc nonce key_hash now c h k =
      let (_, t, m, s) =
        verify-check_claims (apply lib.lower f p).0 origin host doc nonce key_hash now c k in
      (
        apply-MeetsFloors lib.lower f p c h t.issuer_is (append_nil _ _ m).0,
        elim s [
          | inl e ↦ inl (apply_hosts_left lib.lower f p h e)
          | inr e ↦ apply_hosts lib.lower lib.is_ip host f p h e
        ],
      )
