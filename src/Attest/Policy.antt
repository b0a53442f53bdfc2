-- ===== src/Attest/Policy.antt =====
-- internal/attest/attest.go, `Policy`: the document that the service publishes.
use masseuse_camlink.Prelude.{
  ℕ, Bool, true, false, ◌&&◌, ◌||◌, not, Option, none, some, List, [], ◌∷◌, leb, ◌==◌,
  if◌then◌else◌, length, drop, same_text, has_prefix, contains_any, contains_byte, is_empty, codes,
}
use masseuse_camlink.Attest.Release.{valid_release}

pub record ImageSource : Type 0 where
  pub repo : List ℕ
  pub tag : List ℕ
  pub source_uri : List ℕ

pub record Policy : Type 0 where
  pub allowed_image_digests : List (List ℕ)
  pub allow_debug : Bool
  pub require_stable : Bool
  pub require_gpu_cc : Bool
  pub expected_trainer_url : List ℕ
  pub image_signatures : List (List ℕ)
  pub min_release : List ℕ
  pub source_uri : List ℕ
  pub image_repo : List ℕ
  -- A map: its keys are different.
  pub image_sources : List (List ℕ × ImageSource)
  pub issuer : List ℕ
  pub jwks_url : List ℕ
  pub swname : List ℕ
  pub hwmodel : List ℕ
  pub tee_slot_host_suffixes : List (List ℕ)
  pub project_id : List ℕ
  pub image_reference_prefix : List ℕ

abbrev pub default_issuer : List ℕ
default_issuer = codes "https://confidentialcomputing.googleapis.com"

abbrev pub default_jwks_url : List ℕ
default_jwks_url =
    codes
      "https://www.googleapis.com/service_accounts/v1/metadata/jwk/signer@confidentialspace-sign.iam.gserviceaccount.com"

abbrev pub default_swname : List ℕ
default_swname = codes "CONFIDENTIAL_SPACE"

abbrev pub default_hwmodel : List ℕ
default_hwmodel = codes "GCP_INTEL_TDX"

-- `contains`.
unfoldable pub contains : List (List ℕ) → List ℕ → Bool
contains [] s = false
contains (v ∷ vs) s = same_text v s || contains vs s

-- A blank, and a line feed.
abbrev pub blanks : List ℕ
blanks = 32 ∷ 10 ∷ []

abbrev pub valid_registry_path : List ℕ → Bool
valid_registry_path s =
    (not (is_empty s) && not (contains_any s (codes " @:")))
    && (not (contains_byte 10 s) && contains_byte b'/' s)

unfoldable pub has_scheme : List ℕ → Bool
has_scheme [] = false
has_scheme (c ∷ s) = has_prefix (c ∷ s) (codes "://") || has_scheme s

unfoldable pub valid_source_uri : List ℕ → Bool
unfolding has_scheme
valid_source_uri s =
    (not (is_empty s) && not (has_scheme s))
    && (not (contains_any s blanks) && contains_byte b'/' s)

abbrev pub is_hex : ℕ → Bool
is_hex c = (leb b'0' c && leb c b'9') || (leb b'a' c && leb c b'f')

unfoldable pub all_hex : List ℕ → Bool
all_hex [] = true
all_hex (c ∷ s) = is_hex c && all_hex s

unfoldable pub is_digest : List ℕ → Bool
unfolding all_hex
is_digest d = (has_prefix d (codes "sha256:") && length d == 71) && all_hex (drop 7 d)

pub data Invalid : Type 0 where
  no_pin bad_min_release bad_policy_source bad_image_repo lone_source bad_project bad_reference
        not_https :
      Invalid
  bad_digest bad_key bad_source_digest bad_source_repo bad_source_tag bad_source_uri :
      List ℕ → Invalid

-- The first digest, key or source that is not valid.
unfoldable pub check_digests : List (List ℕ) → Option Invalid
check_digests [] = none
check_digests (d ∷ ds) =
    let rest = check_digests ds in if is_digest d then rest else some (bad_digest d)

unfoldable pub check_keys : List (List ℕ) → Option Invalid
check_keys [] = none
check_keys (k ∷ ks) =
    let rest = check_keys ks in
    if is_empty k || contains_any k blanks then some (bad_key k) else rest

unfoldable pub check_sources : List (List ℕ × ImageSource) → Option Invalid
check_sources [] = none
check_sources ((d, s) ∷ m) =
    let rest = check_sources m in
    if not (is_digest d)
    then some (bad_source_digest d)
    else if not (valid_registry_path s.repo)
    then some (bad_source_repo d)
    else if not (has_prefix s.tag (codes "v")) || contains_any s.tag blanks
    then some (bad_source_tag d)
    else if not (valid_source_uri s.source_uri)
    then some (bad_source_uri d)
    else rest

abbrev pub or_default : List ℕ → List ℕ → List ℕ
or_default s t = if is_empty s then t else s

abbrev pub with_defaults : Policy → Policy
with_defaults p = record p {
  issuer = or_default p.issuer default_issuer;
  jwks_url = or_default p.jwks_url default_jwks_url;
  swname = or_default p.swname default_swname;
  hwmodel = or_default p.hwmodel default_hwmodel;
}

abbrev pub orelse : Option Invalid → Option Invalid → Option Invalid
orelse (some e) o = some e
orelse none o = o

abbrev pub when_bad : Bool → Invalid → Option Invalid
when_bad b e = if b then some e else none

-- Some key of the sources may be met first: the source ranges over a map.
unfoldable pub invalid : Policy → Option Invalid
unfolding check_digests check_keys check_sources valid_source_uri
invalid p =
    orelse (when_bad (is_empty p.allowed_image_digests && is_empty p.image_signatures) no_pin) (
      orelse (check_digests p.allowed_image_digests) (
        orelse (check_keys p.image_signatures) (
          orelse
            (when_bad (not (is_empty p.min_release) && not (valid_release p.min_release))
              bad_min_release)
            (orelse
              (when_bad (not (is_empty p.source_uri) && not (valid_source_uri p.source_uri))
                bad_policy_source)
              (orelse
                (when_bad (not (is_empty p.image_repo) && not (valid_registry_path p.image_repo))
                  bad_image_repo)
                (orelse
                  (when_bad
                    ((is_empty p.source_uri && not (is_empty p.image_repo))
                      || (not (is_empty p.source_uri) && is_empty p.image_repo))
                    lone_source)
                  (orelse (check_sources p.image_sources) (
                    orelse (when_bad (contains_any p.project_id (b'/' ∷ blanks)) bad_project) (
                      orelse
                        (when_bad
                          (not (is_empty p.image_reference_prefix)
                            && (contains_any p.image_reference_prefix blanks
                                || not (contains_byte b'/' p.image_reference_prefix)))
                          bad_reference)
                        (when_bad (not (has_prefix (with_defaults p).jwks_url (codes "https://")))
                          not_https))))))))))

-- The key source is tested after its default is filled in.
abbrev pub left_by : Policy → Invalid → Policy
left_by p not_https = record p {
  issuer = or_default p.issuer default_issuer;
  jwks_url = or_default p.jwks_url default_jwks_url;
}
left_by p e = p

-- `Policy.Validate`: the policy afterwards, and why it is refused.
unfoldable pub validate : Policy → Policy × Option Invalid
unfolding invalid
validate p = elim (invalid p) [ none ↦ (with_defaults p, none) | some e ↦ (left_by p e, some e) ]
