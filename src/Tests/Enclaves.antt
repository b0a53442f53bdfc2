-- ===== src/Tests/Enclaves.antt =====
-- internal/attest: an enclave under the production floors, with a toy library: the hash of a string is
-- its length, and a signature is the hash.
use masseuse_camlink.Prelude.{
  ℕ, ◌≡◌, ◌≢◌, ◌⊎◌, refl, true, false, none, some, List, [], ◌∷◌, ◌++◌, same_text, length,
  if◌then◌else◌, codes, pos, split, trim_last, has_prefix, has_suffix, cut, less_text, trim_right,
}
use masseuse_camlink.Attest.Json.{
  Json, Fields, null, str, arr, obj, end, item, close, field, get, nested_any, any_string,
}
use masseuse_camlink.Attest.Policy.{Policy, contains, with_defaults, default_issuer}
use masseuse_camlink.Attest.Release.{
  compare_release, release_numbers, compare_numbers, compare_pre, digits, three_parts,
}
use masseuse_camlink.Attest.Hosts.{has_suffix_any, any_suffix, norm, suffix_under_any}
use masseuse_camlink.Attest.Claims.{
  Claims, Doc, check_claims, check_policy, check_bindings, first_listed,
}
use masseuse_camlink.Attest.Floors.{
  apply, tightened, conflicts, production, keep_listed, keep_under, ref_under,
}
use masseuse_camlink.Attest.Verified.{MeetsFloors, apply_tightens}
use masseuse_camlink.Attest.Token.{
  Library, accepted, verify_token, check_times, check_signature, verify,
}
use masseuse_camlink.Attest.Vouched.{VouchedBy, Timely}
use masseuse_camlink.Attest.Accepted.{verify-MeetsFloors}
use masseuse_camlink.Attest.Meets.{MeetsPolicy}
use masseuse_camlink.Attest.Bound.{IsBound, verify-IsBound}

abbrev one : List ℕ → Json → Fields
one k v = field k v close

abbrev container : Json
container = obj (
    field (codes "image_digest") (str (codes "sha256:0")) (
      field (codes "image_reference") (str (production.image_reference_prefix ++ codes "@sha256:0"))
        (field (codes "env") (obj (one (codes "TEE_IMAGE_VERSION") (str (codes "v0.5.1")))) (
          one (codes "image_signatures") (
            arr (
              item
                (obj (
                  one (codes "key_id") (
                    str
                      (codes "cfb085b950e93abb8332cede62fa50df662ef9aebb1533b2ae0bf1403ea4f811"))))
                end))))))

abbrev submods : Json
submods = obj (
    field (codes "container") container (
      field (codes "confidential_space")
        (obj (one (codes "support_attributes") (arr (item (str (codes "STABLE")) end))))
        (field (codes "nvidia_gpu")
          (obj
            (field (codes "cc_mode") (str (codes "ON")) (one (codes "gpus") (arr (item null end)))))
          (one (codes "gce") (
            obj (
              field (codes "project_id") (str production.project_id)
                (one (codes "instance_id") (str (codes "42")))))))))

abbrev origin : List ℕ
origin = codes "https://a.tee.masseuse.ai"

abbrev host : List ℕ
host = codes "a.tee.masseuse.ai"

abbrev claims : Claims
claims = record {
  issuer = default_issuer;
  audience = origin ∷ [];
  expiry = pos 1000;
  issued_at = pos 900;
  not_before = pos 900;
  swname = codes "CONFIDENTIAL_SPACE";
  hwmodel = codes "GCP_INTEL_TDX";
  dbg_stat = codes "disabled-since-boot";
  sec_boot = true;
  eat_nonce = arr (item (str (codes "n")) (item (str (32 ∷ [])) (item (str (codes "t")) end)));
  submods = submods;
}

abbrev toy : Library Unit
toy = record {
  decode = some;
  encode = λ s. s;
  hash = λ s. length s ∷ [];
  header = λ s. some (record { alg = codes "RS256"; kid = s });
  claims = λ s. if same_text s (codes "p") then some claims else none;
  key = λ k. if same_text k (codes "h") then some tt else none;
  signed = λ k h s. same_text h s;
  lower = λ s. s;
  is_ip = λ s. false;
}

abbrev doc : Doc
doc = record {
  token = codes "h.p." ++ 3 ∷ [];
  tls_spki_nonce = some (codes "t");
  alg = codes "Ed25519";
  public_key = codes "0123456789abcdef0123456789abcdef";
}

-- A service's policy that names no more than a key.
abbrev served : Policy
served = with_defaults (record {
  allowed_image_digests = [];
  allow_debug = true;
  require_stable = false;
  require_gpu_cc = false;
  expected_trainer_url = [];
  image_signatures =
      codes "cfb085b950e93abb8332cede62fa50df662ef9aebb1533b2ae0bf1403ea4f811" ∷ codes "00" ∷ [];
  min_release = codes "v0.3.9";
  source_uri = [];
  image_repo = [];
  image_sources = [];
  issuer = [];
  jwks_url = [];
  swname = [];
  hwmodel = [];
  tee_slot_host_suffixes = [];
  project_id = [];
  image_reference_prefix = [];
})

served-agrees : (apply toy.lower production served).1 ≡ []
unfolding apply conflicts same_text keep_listed contains
served-agrees = refl

abbrev raised : Policy
raised = (apply toy.lower production served).0

claims-accepted :
    verify toy raised origin host doc (codes "n") (codes "t") (pos 950) ≡ accepted claims
unfolding verify apply tightened any_suffix norm trim_last has_prefix has_suffix same_text split
    check_signature check_times contains check_claims check_policy nested_any get compare_release
    check_bindings first_listed conflicts keep_listed keep_under ref_under has_suffix_any
    suffix_under_any any_string compare_numbers compare_pre digits release_numbers three_parts
    verify_token cut less_text trim_right
claims-accepted = refl

-- A frozen clock an hour later: the token has expired.
claims-late : verify toy raised origin host doc (codes "n") (codes "t") (pos 4600) ≢ accepted claims
unfolding verify apply tightened any_suffix norm trim_last has_prefix has_suffix same_text split
    check_signature check_times contains check_claims check_policy nested_any get compare_release
    check_bindings first_listed conflicts keep_listed keep_under ref_under has_suffix_any
    suffix_under_any any_string compare_numbers compare_pre digits release_numbers three_parts
    verify_token cut less_text trim_right
claims-late h = cc

verify-IsBound_example :
    VouchedBy toy (split b'.' doc.token) claims
    × Timely raised.issuer origin (pos 950) claims
    × MeetsPolicy raised claims
    × IsBound toy claims doc (codes "n") (codes "t")
    × ((raised.tee_slot_host_suffixes ≡ [])
        ⊎ (has_suffix_any toy.lower toy.is_ip host raised.tee_slot_host_suffixes ≡ true))
verify-IsBound_example =
    verify-IsBound toy raised origin host doc (codes "n") (codes "t") (pos 950) claims
      claims-accepted

verify-MeetsFloors_example :
    MeetsFloors production claims
    × ((production.tee_slot_host_suffixes ≡ [])
        ⊎ (has_suffix_any toy.lower toy.is_ip host production.tee_slot_host_suffixes ≡ true))
verify-MeetsFloors_example =
    verify-MeetsFloors toy production served origin host doc (codes "n") (codes "t") (pos 950)
      claims served-agrees claims-accepted

raised-passes : check_policy raised claims ≡ []
unfolding verify apply tightened any_suffix norm trim_last has_prefix has_suffix same_text split
    check_signature check_times contains check_claims check_policy nested_any get compare_release
    check_bindings first_listed conflicts keep_listed keep_under ref_under has_suffix_any
    suffix_under_any any_string compare_numbers compare_pre digits release_numbers three_parts
    verify_token cut less_text trim_right
raised-passes = refl

apply_tightens_example : check_policy served claims ≡ []
apply_tightens_example = apply_tightens toy.lower production served claims raised-passes
