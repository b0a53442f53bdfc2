-- ===== src/Attest/Meets.antt =====
-- internal/attest/attest.go, `checkClaims`: what claims that pass every check of a policy say.
use masseuse_camlink.Prelude.{
  ℕ, ◌≡◌, ◌≢◌, ◌⊎◌, inl, inr, refl, Bool, true, false, ◌&&◌, not, List, [], ◌∷◌, arith, same_text,
  same_text_iff, is_empty, codes, trim_right,
}
use masseuse_camlink.Attest.Policy.{Policy, contains}
use masseuse_camlink.Attest.Floors.{ref_under}
use masseuse_camlink.Attest.Claims.{
  Claims, check_digest, check_debug, version_of, is_stable, gpu_mode, gpus, is_end, project_of,
  reference_of, digest_of, trainer_of,
}
use masseuse_camlink.Attest.Tighten.{IsSigned, IsReleased}
use masseuse_camlink.Attest.Passes.{Passes, check_gpu_nil}

-- What a policy asks of an enclave's claims.
pub record MeetsPolicy (p : Policy) (c : Claims) : Type 0 where
  pub swname : c.swname ≡ p.swname
  pub hwmodel : c.hwmodel ≡ p.hwmodel
  pub booted : c.sec_boot ≡ true
  pub digest :
      (digest_of c ≢ [])
      × ((p.allowed_image_digests ≡ []) ⊎ (contains p.allowed_image_digests (digest_of c) ≡ true))
  pub released : IsReleased p.min_release (version_of c)
  pub debug :
      (c.dbg_stat ≡ codes "disabled-since-boot")
      ⊎ (c.dbg_stat ≡ codes "enabled") × (p.allow_debug ≡ true)
  pub stable : (p.require_stable ≡ false) ⊎ (is_stable c ≡ true)
  pub gpu : (p.require_gpu_cc ≡ false) ⊎ (gpu_mode c ≡ codes "ON") × (is_end (gpus c) ≡ false)
  pub service :
      (p.expected_trainer_url ≡ [])
      ⊎ (trim_right b'/' (trainer_of c) ≡ trim_right b'/' p.expected_trainer_url)
  pub signed : IsSigned p.image_signatures c
  pub project : (p.project_id ≡ []) ⊎ (project_of c ≡ p.project_id)
  pub reference :
      (p.image_reference_prefix ≡ []) ⊎ (ref_under (reference_of c) p.image_reference_prefix ≡ true)

unless_empty : (s : List ℕ) (b : Bool) → not (is_empty s) && not b ≡ false → (s ≡ []) ⊎ (b ≡ true)
unless_empty [] b h = inl refl
unless_empty (x ∷ s) true h = inr refl
unless_empty (x ∷ s) false h = cc

unless_empty_same :
    (s a b : List ℕ) → not (is_empty s) && not (same_text a b) ≡ false → (s ≡ []) ⊎ (a ≡ b)
unless_empty_same s a b h = elim (unless_empty s (same_text a b) h) [
  | inl e ↦ inl e
  | inr e ↦ inr ((same_text_iff a b).0 e)
]

unless_keys :
    (ks : List (List ℕ)) (b : Bool) → not (is_empty ks) && b ≡ false → (ks ≡ []) ⊎ (b ≡ false)
unless_keys [] b h = inl refl
unless_keys (k ∷ ks) b h = inr h

digest_lem :
    (ls : List (List ℕ)) (d : List ℕ)
    → check_digest ls d ≡ []
    → (d ≢ []) × ((ls ≡ []) ⊎ (contains ls d ≡ true))
digest_lem ls [] h = cc
digest_lem [] (x ∷ d) h = (λ e. cc, inl refl)
digest_lem (l ∷ ls) (x ∷ d) h = (λ e. cc, inr (ground arith))

debug_lem :
    (allow : Bool) (stat : List ℕ)
    → check_debug allow stat ≡ []
    → (stat ≡ codes "disabled-since-boot") ⊎ (stat ≡ codes "enabled") × (allow ≡ true)
debug_lem allow stat h =
    ground (
      arith,
      same_text_iff stat (codes "disabled-since-boot"),
      same_text_iff stat (codes "enabled"),
    )

pub Passes-MeetsPolicy : (p : Policy) (c : Claims) → Passes p c → MeetsPolicy p c
Passes-MeetsPolicy p c v = record {
  swname = (same_text_iff c.swname p.swname).0 v.swname;
  hwmodel = (same_text_iff c.hwmodel p.hwmodel).0 v.hwmodel;
  booted = v.booted;
  digest = digest_lem p.allowed_image_digests (digest_of c) v.digest;
  released = v.released;
  debug = debug_lem p.allow_debug c.dbg_stat v.debug;
  stable = ground (arith, v.stable);
  gpu = check_gpu_nil p.require_gpu_cc c v.gpu;
  service = unless_empty_same p.expected_trainer_url _ _ v.service;
  signed = unless_keys p.image_signatures _ v.signed;
  project = unless_empty_same p.project_id _ _ v.project;
  reference = unless_empty p.image_reference_prefix _ v.reference;
}
