-- ===== src/Attest/Claims.antt =====
-- internal/attest/attest.go, `checkClaims`: the policy applied to the claims of a verified token.
use masseuse_camlink.Prelude.{
  concat, ℕ, Bool, true, false, ◌&&◌, not, Option, none, some, List, [], ◌∷◌, ◌++◌, ◌==◌,
  if◌then◌else◌, same_text, is_empty, length, trim_right, codes, ℤ,
}
use masseuse_camlink.Attest.Json.{
  Json, Items, Fields, end, item, get, string_of, items_of, fields_of, nested_any, nested_string,
  contains_string, nonce_matches,
}
use masseuse_camlink.Attest.Release.{valid_release, is_older}
use masseuse_camlink.Attest.Policy.{Policy, ImageSource, contains}
use masseuse_camlink.Attest.Floors.{ref_under}

pub record Claims : Type 0 where
  pub issuer : List ℕ
  pub audience : List (List ℕ)
  pub expiry : ℤ
  pub issued_at : ℤ
  pub not_before : ℤ
  pub swname : List ℕ
  pub hwmodel : List ℕ
  pub dbg_stat : List ℕ
  pub sec_boot : Bool
  pub eat_nonce : Json
  pub submods : Json

-- `attestationDoc`: the evidence key and the TLS key's nonce.
pub record Doc : Type 0 where
  pub token : List ℕ
  pub tls_spki_nonce : Option (List ℕ)
  pub alg : List ℕ
  pub public_key : List ℕ

abbrev pub container_env : Claims → Fields
container_env c = fields_of (nested_any c.submods (codes "container" ∷ codes "env" ∷ []))

abbrev pub version_of : Claims → List ℕ
version_of c = string_of (get (codes "TEE_IMAGE_VERSION") (container_env c))

abbrev pub key_id : Json → List ℕ
key_id v = string_of (get (codes "key_id") (fields_of v))

unfoldable pub first_listed : List (List ℕ) → Items → List ℕ
first_listed keys end = []
first_listed keys (item v vs) =
    let rest = first_listed keys vs in
    if not (is_empty (key_id v)) && contains keys (key_id v) then key_id v else rest

abbrev pub signatures_of : Claims → Items
signatures_of c =
    items_of (nested_any c.submods (codes "container" ∷ codes "image_signatures" ∷ []))

-- `signerKeyID`.
abbrev pub signer_key_id : List (List ℕ) → Claims → List ℕ
signer_key_id keys c = first_listed keys (signatures_of c)

pub record Stamp : Type 0 where
  pub version : List ℕ
  pub commit : List ℕ

-- `releaseOf`.
unfoldable pub release_of : Claims → Option Stamp
release_of c =
    if is_empty (version_of c)
    then none
    else some (record {
      version = version_of c;
      commit = string_of (get (codes "TEE_IMAGE_COMMIT") (container_env c));
    })

unfoldable pub find_source : List ℕ → List (List ℕ × ImageSource) → Option ImageSource
find_source d [] = none
find_source d ((k, s) ∷ m) = let rest = find_source d m in if same_text k d then some s else rest

abbrev pub old_tag : Option ImageSource → List ℕ
old_tag none = []
old_tag (some s) = s.tag

abbrev pub stamped_tag : Option Stamp → Option (List ℕ)
stamped_tag none = none
stamped_tag (some r) = if valid_release r.version then some r.version else none

-- `sourceOf`.
unfoldable pub source_of : Policy → List ℕ → Option Stamp → Option ImageSource
unfolding find_source
source_of p digest rel =
    if not (is_empty p.source_uri) && not (is_empty p.image_repo)
    then some (record {
      repo = p.image_repo;
      source_uri = p.source_uri;
      tag = elim (stamped_tag rel) [
        | some v ↦ v
        | none ↦ old_tag (find_source digest p.image_sources)
      ];
    })
    else find_source digest p.image_sources

pub data Reason : Type 0 where
  bad_swname bad_hwmodel no_secboot no_digest digest_not_listed : Reason
  no_stamp bad_stamp old_release debug_image bad_dbgstat not_stable : Reason
  gpu_not_confidential no_gpu other_service unsigned other_project other_image : Reason
  nonce_not_echoed no_evidence_key evidence_key_size evidence_key_unbound : Reason
  no_tls_nonce other_tls_key tls_key_unbound no_instance : Reason

abbrev pub fail_if : Bool → Reason → List Reason
fail_if b e = if b then e ∷ [] else []

abbrev pub is_end : Items → Bool
is_end end = true
is_end (item v vs) = false

abbrev pub digest_of : Claims → List ℕ
digest_of c = nested_string c.submods (codes "container" ∷ codes "image_digest" ∷ [])

abbrev pub check_digest : List (List ℕ) → List ℕ → List Reason
check_digest allowed digest =
    if is_empty digest
    then no_digest ∷ []
    else fail_if (not (is_empty allowed) && not (contains allowed digest)) digest_not_listed

abbrev pub check_release : List ℕ → List ℕ → List Reason
check_release min version =
    if is_empty min
    then []
    else if is_empty version
    then no_stamp ∷ []
    else if not (valid_release version)
    then bad_stamp ∷ []
    else fail_if (is_older version min) old_release

abbrev pub check_debug : Bool → List ℕ → List Reason
check_debug allow stat =
    if same_text stat (codes "disabled-since-boot")
    then []
    else if same_text stat (codes "enabled")
    then fail_if (not allow) debug_image
    else bad_dbgstat ∷ []

abbrev pub is_stable : Claims → Bool
is_stable c =
    contains_string
      (nested_any c.submods (codes "confidential_space" ∷ codes "support_attributes" ∷ []))
      (codes "STABLE")

abbrev pub gpu_mode : Claims → List ℕ
gpu_mode c = nested_string c.submods (codes "nvidia_gpu" ∷ codes "cc_mode" ∷ [])

abbrev pub gpus : Claims → Items
gpus c = items_of (nested_any c.submods (codes "nvidia_gpu" ∷ codes "gpus" ∷ []))

abbrev pub check_gpu : Bool → Claims → List Reason
check_gpu required c =
    if not required
    then []
    else fail_if (not (same_text (gpu_mode c) (codes "ON"))) gpu_not_confidential
      ++ fail_if (is_end (gpus c)) no_gpu

abbrev pub trainer_of : Claims → List ℕ
trainer_of c = string_of (get (codes "TRAINER_URL") (container_env c))

abbrev pub project_of : Claims → List ℕ
project_of c = nested_string c.submods (codes "gce" ∷ codes "project_id" ∷ [])

abbrev pub reference_of : Claims → List ℕ
reference_of c = nested_string c.submods (codes "container" ∷ codes "image_reference" ∷ [])

-- The checks of the policy, in the order of the source.
abbrev pub policy_checks : Policy → Claims → List (List Reason)
policy_checks p c =
    (fail_if (not (same_text c.swname p.swname)) bad_swname)
    ∷ (fail_if (not (same_text c.hwmodel p.hwmodel)) bad_hwmodel)
    ∷ (fail_if (not c.sec_boot) no_secboot)
    ∷ (check_digest p.allowed_image_digests (digest_of c))
    ∷ (check_release p.min_release (version_of c))
    ∷ (check_debug p.allow_debug c.dbg_stat)
    ∷ (fail_if (p.require_stable && not (is_stable c)) not_stable)
    ∷ (check_gpu p.require_gpu_cc c)
    ∷ (fail_if
        (not (is_empty p.expected_trainer_url)
          && not
              (same_text (trim_right b'/' (trainer_of c)) (trim_right b'/' p.expected_trainer_url)))
        other_service)
    ∷ (fail_if (not (is_empty p.image_signatures) && is_empty (signer_key_id p.image_signatures c))
        unsigned)
    ∷ (fail_if (not (is_empty p.project_id) && not (same_text (project_of c) p.project_id))
        other_project)
    ∷ (fail_if
        (not (is_empty p.image_reference_prefix)
          && not (ref_under (reference_of c) p.image_reference_prefix))
        other_image)
    ∷ []

unfoldable pub check_policy : Policy → Claims → List Reason
check_policy p c = concat (policy_checks p c)

-- `decode` and `encode` stand for base64.RawURLEncoding, `hash` for sha256.Sum256.
module _ (decode : List ℕ → Option (List ℕ)) (encode hash : List ℕ → List ℕ) where
  abbrev pub check_evidence : Claims → Doc → List Reason
  check_evidence c doc =
      if not (same_text doc.alg (codes "Ed25519"))
      then no_evidence_key ∷ []
      else elim (decode (trim_right b'=' doc.public_key)) [
        | none ↦ evidence_key_size ∷ []
        | some raw ↦
            if not (length raw == 32)
            then evidence_key_size ∷ []
            else fail_if (not (nonce_matches c.eat_nonce (encode (hash raw)))) evidence_key_unbound
      ]

  abbrev pub check_tls : Claims → Doc → List ℕ → List Reason
  check_tls c doc tls_spki = elim doc.tls_spki_nonce [
    | none ↦ no_tls_nonce ∷ []
    | some n ↦
        if not (same_text n tls_spki)
        then other_tls_key ∷ []
        else fail_if (not (nonce_matches c.eat_nonce tls_spki)) tls_key_unbound
  ]

  abbrev pub instance_of : Claims → List ℕ
  instance_of c = nested_string c.submods (codes "gce" ∷ codes "instance_id" ∷ [])

  -- The bindings to this run and this connection.
  unfoldable pub check_bindings : Claims → Doc → List ℕ → List ℕ → List Reason
  check_bindings c doc nonce tls_spki =
      fail_if (not (nonce_matches c.eat_nonce nonce)) nonce_not_echoed
      ++ check_evidence c doc
      ++ check_tls c doc tls_spki
      ++ fail_if (is_empty (instance_of c)) no_instance

  -- `checkClaims`: every failed check.
  unfoldable pub check_claims : Policy → Claims → Doc → List ℕ → List ℕ → List Reason
  check_claims p c doc nonce tls_spki = check_policy p c ++ check_bindings c doc nonce tls_spki
