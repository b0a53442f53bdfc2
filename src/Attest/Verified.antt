-- ===== src/Attest/Verified.antt =====
-- internal/attest: what an attestation that is accepted under a tightened policy says.
use masseuse_camlink.Prelude.{
  concat_nil, ℕ, ◌≡◌, ◌⊎◌, inl, inr, refl, ◌∙◌, Bool, true, false, ◌||◌, List, [], ◌∷◌, arith, All,
  Bool-cases, same_text, is_empty, codes, trim_last, if_keeps,
}
use masseuse_camlink.Attest.Policy.{Policy}
use masseuse_camlink.Attest.Floors.{
  Floors, keep_under, narrowed, narrow_hosts, conflict_if, ref_under, conflicts, conflict_checks,
  tightened, apply, not_issuer, not_swname, not_hwmodel, not_project_id, not_under, no_suffix_left,
}
use masseuse_camlink.Attest.Hosts.{any_suffix, suffix_under_any, has_suffix_any, any_suffix_narrow}
use masseuse_camlink.Attest.Claims.{
  Claims, check_policy, version_of, is_stable, gpu_mode, gpus, is_end, project_of, reference_of,
}
use masseuse_camlink.Attest.Tighten.{
  same_nil, conflict_nil, IsSigned, IsReleased, raise_release-IsReleased,
}
use masseuse_camlink.Attest.Passes.{
  check_policy-Passes, Passes-check_policy, check_debug_nil, check_gpu_nil, check_gpu_weaker,
  fill-floor, fill-served, fill-reference, IsSigned-floor, IsSigned-served, via,
}

-- What the floors ask of an enclave's claims.
pub record MeetsFloors (f : Floors) (c : Claims) : Type 0 where
  pub issuer : (f.issuer ≡ []) ⊎ (c.issuer ≡ f.issuer)
  pub swname : (f.swname ≡ []) ⊎ (c.swname ≡ f.swname)
  pub hwmodel : (f.hwmodel ≡ []) ⊎ (c.hwmodel ≡ f.hwmodel)
  pub booted : c.sec_boot ≡ true
  pub production : c.dbg_stat ≡ codes "disabled-since-boot"
  pub signed : IsSigned f.image_signatures c
  pub released : IsReleased f.min_release (version_of c)
  pub stable : (f.require_stable ≡ false) ⊎ (is_stable c ≡ true)
  pub gpu : (f.require_gpu_cc ≡ false) ⊎ (gpu_mode c ≡ codes "ON") × (is_end (gpus c) ≡ false)
  pub project : (f.project_id ≡ []) ⊎ (project_of c ≡ f.project_id)
  pub reference :
      (f.image_reference_prefix ≡ []) ⊎ (ref_under (reference_of c) f.image_reference_prefix ≡ true)

module _ (lower : List ℕ → List ℕ) where
  -- Claims that pass the tightened policy meet the floors.
  pub apply-MeetsFloors :
      (f : Floors) (p : Policy) (c : Claims)
      → (apply lower f p).1 ≡ []
      → c.issuer ≡ (apply lower f p).0.issuer
      → check_policy (apply lower f p).0 c ≡ []
      → MeetsFloors f c
  unfolding apply conflicts tightened
  apply-MeetsFloors f p c h i k =
      let (b1, (_, (b3, (b4, (b5, (_, (_, (b8, (b9, _))))))))) =
        concat_nil (conflict_checks lower f p) h in
      let v = check_policy-Passes (tightened lower f p) c k in
      record {
        issuer = elim (same_nil not_issuer p.issuer f.issuer b1) [
          | inl e ↦ inl e
          | inr e ↦ inr (i ∙ e)
        ];
        swname = via c.swname p.swname f.swname v.swname (same_nil not_swname p.swname f.swname b3);
        hwmodel =
            via c.hwmodel p.hwmodel f.hwmodel v.hwmodel
              (same_nil not_hwmodel p.hwmodel f.hwmodel b4);
        booted = v.booted;
        production = (check_debug_nil true c.dbg_stat v.debug).0;
        signed = IsSigned-floor f.image_signatures p.image_signatures c b5 v.signed;
        released =
            (raise_release-IsReleased f.min_release p.min_release (version_of c) v.released).0;
        stable = ground (arith, v.stable);
        gpu = ground (arith, check_gpu_nil (p.require_gpu_cc || f.require_gpu_cc) c v.gpu);
        project = fill-floor not_project_id f.project_id p.project_id (project_of c) b8 v.project;
        reference =
            fill-reference f.image_reference_prefix p.image_reference_prefix (reference_of c)
              (conflict_nil _ not_under b9) v.reference;
      }

  -- Claims that pass the policy as the floors have changed it pass the policy as it was served.
  pub apply_tightens :
      (f : Floors) (p : Policy) (c : Claims)
      → check_policy (apply lower f p).0 c ≡ []
      → check_policy p c ≡ []
  unfolding apply tightened
  apply_tightens f p c h =
      let v = check_policy-Passes (tightened lower f p) c h in
      Passes-check_policy p c (record {
        swname = v.swname;
        hwmodel = v.hwmodel;
        booted = v.booted;
        digest = v.digest;
        released =
            (raise_release-IsReleased f.min_release p.min_release (version_of c) v.released).1;
        debug = (check_debug_nil p.allow_debug c.dbg_stat v.debug).1;
        stable = ground (arith, v.stable);
        gpu = check_gpu_weaker p.require_gpu_cc f.require_gpu_cc c v.gpu;
        service = v.service;
        signed = IsSigned-served f.image_signatures p.image_signatures c v.signed;
        project = fill-served (same_text (project_of c)) f.project_id p.project_id v.project;
        reference =
            fill-served (ref_under (reference_of c)) f.image_reference_prefix
              p.image_reference_prefix v.reference;
      })

  keep_under-All :
      (floors ss : List (List ℕ))
      → All (λ s. suffix_under_any lower s floors ≡ true) (keep_under lower floors ss)
  unfolding keep_under
  keep_under-All floors [] = tt
  keep_under-All floors (s ∷ ss) =
      if_keeps (All (λ s. suffix_under_any lower s floors ≡ true)) (suffix_under_any lower s floors)
        (λ e. (e, keep_under-All floors ss)) (λ _. keep_under-All floors ss)

  hosts_narrow :
      (h : List ℕ) (floors served : List (List ℕ))
      → conflict_if (narrow_hosts lower floors served).1 no_suffix_left ≡ []
      → any_suffix lower h (narrow_hosts lower floors served).0 ≡ true
      → (floors ≡ []) ⊎ (any_suffix lower h floors ≡ true)
  hosts_narrow h [] served k m = inl refl
  hosts_narrow h (f ∷ fs) [] k m = inr m
  hosts_narrow h (f ∷ fs) (s ∷ ss) k m =
      elim (Bool-cases (is_empty (keep_under lower (f ∷ fs) (s ∷ ss)))) [
        | inl e ↦ absurd (ground arith)
        | inr e ↦ inr (
            any_suffix_narrow lower h (keep_under lower (f ∷ fs) (s ∷ ss)) (f ∷ fs)
              (keep_under-All (f ∷ fs) (s ∷ ss)) (ground arith))
      ]

  -- A host that is let through is under one of the floors' suffixes.
  pub apply_hosts :
      (is_ip : List ℕ → Bool) (host : List ℕ) (f : Floors) (p : Policy)
      → (apply lower f p).1 ≡ []
      → has_suffix_any lower is_ip host (apply lower f p).0.tee_slot_host_suffixes ≡ true
      → (f.tee_slot_host_suffixes ≡ [])
        ⊎ (has_suffix_any lower is_ip host f.tee_slot_host_suffixes ≡ true)
  unfolding apply conflicts tightened has_suffix_any
  apply_hosts is_ip host f p h m =
      let (_, (_, (_, (_, (_, (_, (b7, _))))))) = concat_nil (conflict_checks lower f p) h in
      let r =
        hosts_narrow (lower (trim_last b'.' host)) f.tee_slot_host_suffixes p.tee_slot_host_suffixes
          b7 (ground arith) in
      ground (arith, r)

  hosts_left :
      (floors served : List (List ℕ))
      → conflict_if (narrow_hosts lower floors served).1 no_suffix_left ≡ []
      → (narrow_hosts lower floors served).0 ≡ []
      → floors ≡ []
  hosts_left [] served k e = refl
  hosts_left (f ∷ fs) [] k e = e
  hosts_left (f ∷ fs) (s ∷ ss) k e =
      elim (keep_under lower (f ∷ fs) (s ∷ ss))
          as (λ ks.
            conflict_if (narrowed (f ∷ fs) (s ∷ ss) ks).1 no_suffix_left ≡ []
            → (narrowed (f ∷ fs) (s ∷ ss) ks).0 ≡ []
            → f ∷ fs ≡ []) [ [] ↦ λ k' e'. cc | h ∷ hs ↦ λ k' e'. cc ]
        k e

  pub apply_hosts_left :
      (f : Floors) (p : Policy)
      → (apply lower f p).1 ≡ []
      → (apply lower f p).0.tee_slot_host_suffixes ≡ []
      → f.tee_slot_host_suffixes ≡ []
  unfolding apply conflicts tightened
  apply_hosts_left f p h e =
      let (_, (_, (_, (_, (_, (_, (b7, _))))))) = concat_nil (conflict_checks lower f p) h in
      hosts_left f.tee_slot_host_suffixes p.tee_slot_host_suffixes b7 e
