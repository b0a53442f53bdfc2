-- ===== src/Attest/Floors.antt =====
-- internal/attest/floors.go: what a build of the connector holds on its own, and how a served policy is
-- raised to it. `lower` stands for `strings.ToLower`.
use masseuse_camlink.Prelude.{
  concat, ℕ, Bool, true, false, ◌&&◌, ◌||◌, not, List, [], ◌∷◌, ◌++◌, if◌then◌else◌, same_text,
  has_prefix, has_suffix, is_empty, codes,
}
use masseuse_camlink.Attest.Release.{is_older}
use masseuse_camlink.Attest.Policy.{Policy, contains}
use masseuse_camlink.Attest.Hosts.{suffix_under_any}

pub record Floors : Type 0 where
  pub issuer : List ℕ
  pub jwks_url : List ℕ
  pub swname : List ℕ
  pub hwmodel : List ℕ
  pub image_signatures : List (List ℕ)
  pub min_release : List ℕ
  pub require_stable : Bool
  pub require_gpu_cc : Bool
  pub source_uri : List ℕ
  pub image_repo : List ℕ
  pub tee_slot_host_suffixes : List (List ℕ)
  pub project_id : List ℕ
  pub image_reference_prefix : List ℕ

-- How a policy contradicts the floors.
pub data Conflict : Type 0 where
  not_issuer not_jwks_url not_swname not_hwmodel not_source_uri not_image_repo not_project_id :
      Conflict
  no_trusted_key no_suffix_left not_under : Conflict

-- `same`.
abbrev pub same : Conflict → List ℕ → List ℕ → List Conflict
same e got want = if not (is_empty want) && not (same_text got want) then e ∷ [] else []

unfoldable pub keep_listed : List (List ℕ) → List (List ℕ) → List (List ℕ)
keep_listed floors [] = []
keep_listed floors (k ∷ ks) =
    let rest = keep_listed floors ks in if contains floors k then k ∷ rest else rest

-- A served list cut down to the floors' one: the list, and whether nothing is left of it.
abbrev pub narrowed : List (List ℕ) → List (List ℕ) → List (List ℕ) → List (List ℕ) × Bool
narrowed floors served kept =
    if is_empty floors
    then (served, false)
    else if is_empty served
    then (floors, false)
    else if is_empty kept
    then (served, true)
    else (kept, false)

abbrev pub narrow_keys : List (List ℕ) → List (List ℕ) → List (List ℕ) × Bool
narrow_keys floors served = narrowed floors served (keep_listed floors served)

abbrev pub conflict_if : Bool → Conflict → List Conflict
conflict_if b e = if b then e ∷ [] else []

abbrev pub raise_release : List ℕ → List ℕ → List ℕ
raise_release floor served =
    if not (is_empty floor) && (is_empty served || is_older served floor) then floor else served

-- A value that is filled in where it is absent.
abbrev pub fill : List ℕ → List ℕ → List ℕ
fill floor served = if is_empty served then floor else served

-- `refUnder`.
unfoldable pub ref_under : List ℕ → List ℕ → Bool
ref_under ref prefix =
    if has_suffix prefix (b'/' ∷ [])
    then has_prefix ref prefix
    else (same_text ref prefix || has_prefix ref (prefix ++ b'@' ∷ []))
      || has_prefix ref (prefix ++ b':' ∷ [])

module _ (lower : List ℕ → List ℕ) where
  unfoldable pub keep_under : List (List ℕ) → List (List ℕ) → List (List ℕ)
  keep_under floors [] = []
  keep_under floors (s ∷ ss) =
      let rest = keep_under floors ss in if suffix_under_any lower s floors then s ∷ rest else rest

  abbrev pub narrow_hosts : List (List ℕ) → List (List ℕ) → List (List ℕ) × Bool
  narrow_hosts floors served = narrowed floors served (keep_under floors served)

  -- The source repository and the registry go together.
  abbrev pub names_source : Floors → Bool
  names_source f = not (is_empty f.source_uri) && not (is_empty f.image_repo)

  abbrev pub lacks_source : Policy → Bool
  lacks_source p = is_empty p.source_uri && is_empty p.image_repo

  abbrev pub conflict_checks : Floors → Policy → List (List Conflict)
  conflict_checks f p =
      (same not_issuer p.issuer f.issuer)
      ∷ (same not_jwks_url p.jwks_url f.jwks_url)
      ∷ (same not_swname p.swname f.swname)
      ∷ (same not_hwmodel p.hwmodel f.hwmodel)
      ∷ (conflict_if (narrow_keys f.image_signatures p.image_signatures).1 no_trusted_key)
      ∷ ((if names_source f && not (lacks_source p)
          then same not_source_uri p.source_uri f.source_uri
            ++ same not_image_repo p.image_repo f.image_repo
          else []))
      ∷ (conflict_if (narrow_hosts f.tee_slot_host_suffixes p.tee_slot_host_suffixes).1
          no_suffix_left)
      ∷ ((if is_empty p.project_id then [] else same not_project_id p.project_id f.project_id))
      ∷ (conflict_if
          ((not (is_empty f.image_reference_prefix) && not (is_empty p.image_reference_prefix))
            && not (ref_under p.image_reference_prefix f.image_reference_prefix))
          not_under)
      ∷ []

  unfoldable pub conflicts : Floors → Policy → List Conflict
  conflicts f p = concat (conflict_checks f p)

  unfoldable pub tightened : Floors → Policy → Policy
  tightened f p = record p {
    image_signatures = (narrow_keys f.image_signatures p.image_signatures).0;
    min_release = raise_release f.min_release p.min_release;
    allow_debug = false;
    require_stable = p.require_stable || f.require_stable;
    require_gpu_cc = p.require_gpu_cc || f.require_gpu_cc;
    source_uri = if names_source f && lacks_source p then f.source_uri else p.source_uri;
    image_repo = if names_source f && lacks_source p then f.image_repo else p.image_repo;
    tee_slot_host_suffixes = (narrow_hosts f.tee_slot_host_suffixes p.tee_slot_host_suffixes).0;
    project_id = fill f.project_id p.project_id;
    image_reference_prefix = fill f.image_reference_prefix p.image_reference_prefix;
  }

  -- `Floors.Apply`: the policy afterwards, and how it contradicts the floors.
  unfoldable pub apply : Floors → Policy → Policy × List Conflict
  apply f p = (tightened f p, conflicts f p)

-- `Production`.
abbrev pub production : Floors
production = record {
  issuer = codes "https://confidentialcomputing.googleapis.com";
  jwks_url =
      codes
        "https://www.googleapis.com/service_accounts/v1/metadata/jwk/signer@confidentialspace-sign.iam.gserviceaccount.com";
  swname = codes "CONFIDENTIAL_SPACE";
  hwmodel = codes "GCP_INTEL_TDX";
  image_signatures = codes "cfb085b950e93abb8332cede62fa50df662ef9aebb1533b2ae0bf1403ea4f811" ∷ [];
  min_release = codes "v0.4.0";
  require_stable = true;
  require_gpu_cc = true;
  source_uri = codes "github.com/FemLed/masseuse-video-tee";
  image_repo = codes "ghcr.io/femled/masseuse-video-tee";
  tee_slot_host_suffixes = codes ".tee.masseuse.ai" ∷ [];
  project_id = codes "prod-masseuse-video-tee";
  image_reference_prefix =
      codes
        "us-central1-docker.pkg.dev/prod-masseuse-video-tee/masseuse-video-tee/masseuse-video-tee";
}
