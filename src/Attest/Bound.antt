-- ===== src/Attest/Bound.antt =====
-- internal/attest/attest.go, `Verify`: what is certain of an attestation that is accepted, check by check.
use masseuse_camlink.Prelude.{
  ℕ, ◌≡◌, ◌≢◌, ◌⊎◌, inl, inr, refl, ap, ◌∙◌, true, false, not, Option, none, some, List, [], ◌∷◌,
  ◌++◌, arith, split, length, same_text_iff, is_empty, codes, trim_right, ℤ, Bool-cases,
}
use masseuse_camlink.Attest.Json.{
  Json, Items, null, bool, num, str, arr, obj, end, item, is_string, any_string, nested_string,
  nonce_matches,
}
use masseuse_camlink.Attest.Policy.{Policy}
use masseuse_camlink.Attest.Hosts.{has_suffix_any}
use masseuse_camlink.Attest.Claims.{
  fail_if, nonce_not_echoed, no_instance, Claims, Doc, check_claims, check_bindings, check_evidence,
  check_tls,
}
use masseuse_camlink.Attest.Tighten.{append_nil, fail_nil}
use masseuse_camlink.Attest.Passes.{check_policy-Passes}
use masseuse_camlink.Attest.Token.{Library, accepted, verify}
use masseuse_camlink.Attest.Vouched.{VouchedBy, Timely}
use masseuse_camlink.Attest.Accepted.{verify-check_claims}
use masseuse_camlink.Attest.Meets.{MeetsPolicy, Passes-MeetsPolicy}

-- The nonce claim is the string, or a list with it.
abbrev pub Lists : List ℕ → Items → Type 0
Lists want end = (true ≡ false)
Lists want (item v vs) = (v ≡ str want) ⊎ Lists want vs

abbrev pub Echoes : Json → List ℕ → Type 0
Echoes v want = (v ≡ str want) ⊎ ((vs : Items) × (v ≡ arr vs) × Lists want vs)

any_string-Lists : (want : List ℕ) (vs : Items) → any_string want vs ≡ true → Lists want vs
unfolding any_string
any_string-Lists want end h = cc
any_string-Lists want (item v vs) h = elim (Bool-cases (is_string want v)) [
  | inl e ↦ inl (is v e)
  | inr e ↦ inr (any_string-Lists want vs (ground arith))
]
  where
    is : (v : Json) → is_string want v ≡ true → v ≡ str want
    is (str s) e = ap str ((same_text_iff s want).0 e)
    is null e = cc
    is (bool b) e = cc
    is (num s) e = cc
    is (arr vs) e = cc
    is (obj fs) e = cc

nonce_matches-Echoes : (v : Json) (want : List ℕ) → nonce_matches v want ≡ true → Echoes v want
nonce_matches-Echoes (str s) want e = inl (ap str ((same_text_iff s want).0 e))
nonce_matches-Echoes (arr vs) want e = inr (vs, refl, any_string-Lists want vs e)
nonce_matches-Echoes null want e = cc
nonce_matches-Echoes (bool b) want e = cc
nonce_matches-Echoes (num s) want e = cc
nonce_matches-Echoes (obj fs) want e = cc

filled : (s : List ℕ) → is_empty s ≡ false → s ≢ []
filled [] h = cc
filled (x ∷ s) h = λ e. cc

module _ {K : Type 0} (lib : Library K) where
  -- The evidence key is one of Ed25519, of 32 bytes, and its hash is echoed.
  pub record IsEvidence (c : Claims) (doc : Doc) : Type 0 where
    pub alg : doc.alg ≡ codes "Ed25519"
    pub key : List ℕ
    pub key_of : lib.decode (trim_right b'=' doc.public_key) ≡ some key
    pub key_size : length key ≡ 32
    pub key_echoed : Echoes c.eat_nonce (lib.encode (lib.hash key))

  -- The claims are for this nonce and this connection's key, which the document names.
  pub record IsBound (c : Claims) (doc : Doc) (nonce key_hash : List ℕ) : Type 0 where
    pub echoed : Echoes c.eat_nonce nonce
    pub evidence : IsEvidence c doc
    pub tls : doc.tls_spki_nonce ≡ some (lib.encode key_hash)
    pub tls_echoed : Echoes c.eat_nonce (lib.encode key_hash)
    pub named : nested_string c.submods (codes "gce" ∷ codes "instance_id" ∷ []) ≢ []

  evidence_lem :
      (c : Claims) (doc : Doc)
      → check_evidence lib.decode lib.encode lib.hash c doc ≡ []
      → IsEvidence c doc
  evidence_lem c doc h = on (lib.decode (trim_right b'=' doc.public_key)) refl
    where
      on :
          (o : Option (List ℕ)) → lib.decode (trim_right b'=' doc.public_key) ≡ o → IsEvidence c doc
      on none e = absurd (ground (arith, e))
      on (some raw) e = record {
        alg = (same_text_iff doc.alg (codes "Ed25519")).0 (ground (arith, e));
        key = raw;
        key_of = e;
        key_size = ground (arith, e);
        key_echoed = nonce_matches-Echoes c.eat_nonce _ (ground (arith, e));
      }

  tls_lem :
      (c : Claims) (doc : Doc) (spki : List ℕ)
      → check_tls lib.decode lib.encode lib.hash c doc spki ≡ []
      → (doc.tls_spki_nonce ≡ some spki) × Echoes c.eat_nonce spki
  tls_lem c doc spki h = on doc.tls_spki_nonce refl
    where
      on :
          (o : Option (List ℕ))
          → doc.tls_spki_nonce ≡ o
          → (doc.tls_spki_nonce ≡ some spki) × Echoes c.eat_nonce spki
      on none e = absurd (ground (arith, e))
      on (some n) e = (
        e ∙ ap some ((same_text_iff n spki).0 (ground (arith, e))),
        nonce_matches-Echoes c.eat_nonce spki (ground (arith, e)),
      )

  check_bindings-IsBound :
      (c : Claims) (doc : Doc) (nonce key_hash : List ℕ)
      → check_bindings lib.decode lib.encode lib.hash c doc nonce (lib.encode key_hash) ≡ []
      → IsBound c doc nonce key_hash
  unfolding check_bindings
  check_bindings-IsBound c doc nonce key_hash h =
      let evidence = check_evidence lib.decode lib.encode lib.hash c doc in
      let key = check_tls lib.decode lib.encode lib.hash c doc (lib.encode key_hash) in
      let id = nested_string c.submods (codes "gce" ∷ codes "instance_id" ∷ []) in
      let last = fail_if (is_empty id) no_instance in
      let echoed = fail_if (not (nonce_matches c.eat_nonce nonce)) nonce_not_echoed in
      let (front, i) = append_nil (echoed ++ evidence ++ key) last h in
      let (before, t) = append_nil (echoed ++ evidence) key front in
      let (n, ev) = append_nil echoed evidence before in
      let (tls, echo) = tls_lem c doc (lib.encode key_hash) t in
      record {
        echoed = nonce_matches-Echoes c.eat_nonce nonce (ground (arith, n));
        evidence = evidence_lem c doc ev;
        tls = tls;
        tls_echoed = echo;
        named = filled id (fail_nil (is_empty id) no_instance i);
      }

  -- Verify accepts no claims but those of a payload that the key named in an RS256 header has
  -- signed, for the policy's issuer and the origin as audience, within their times, that meet the
  -- policy point by point: software, hardware, boot, image, release, debugging, support, GPU,
  -- service, signer, project and reference; that echo this nonce, the hash of the document's
  -- 32-byte Ed25519 key and this connection's key, which the document names; and that name an
  -- instance. Where the policy has host suffixes, the host is under one.
  pub verify-IsBound :
      (p : Policy) (origin host : List ℕ) (doc : Doc) (nonce key_hash : List ℕ) (now : ℤ)
      (c : Claims)
      → verify lib p origin host doc nonce key_hash now ≡ accepted c
      → VouchedBy lib (split b'.' doc.token) c
        × Timely p.issuer origin now c
        × MeetsPolicy p c
        × IsBound c doc nonce key_hash
        × ((p.tee_slot_host_suffixes ≡ [])
            ⊎ (has_suffix_any lib.lower lib.is_ip host p.tee_slot_host_suffixes ≡ true))
  unfolding check_claims
  verify-IsBound p origin host doc nonce key_hash now c h =
      let (v, t, k, s) = verify-check_claims lib p origin host doc nonce key_hash now c h in
      let (a, b) = append_nil _ _ k in
      (
        v,
        t,
        Passes-MeetsPolicy p c (check_policy-Passes p c a),
        check_bindings-IsBound c doc nonce key_hash b,
        s,
      )
