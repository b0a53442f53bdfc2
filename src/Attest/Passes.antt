-- ===== src/Attest/Passes.antt =====
-- internal/attest/attest.go: the checks of a policy one by one, and of a tightened one against the floors.
use masseuse_camlink.Prelude.{
  concat_nil, nil_concat, ℕ, ◌≡◌, ◌⊎◌, inl, inr, refl, ◌∙◌, Bool, true, false, ◌&&◌, ◌||◌, not,
  List, [], ◌∷◌, arith, if◌then◌else◌, same_text, same_text_iff, is_empty, codes, trim_right,
}
use masseuse_camlink.Attest.Release.{release_numbers}
use masseuse_camlink.Attest.Policy.{Policy}
use masseuse_camlink.Attest.Floors.{
  Conflict, same, narrow_keys, conflict_if, fill, ref_under, no_trusted_key,
}
use masseuse_camlink.Attest.Claims.{
  Claims, check_digest, check_release, check_debug, check_gpu, check_policy, policy_checks,
  signer_key_id, version_of, is_stable, gpu_mode, gpus, is_end, project_of, reference_of, digest_of,
  trainer_of,
}
use masseuse_camlink.Attest.Tighten.{
  fail_nil, conflict_nil, narrow_keys-Within, narrow_keys-served, IsSigned, IsSigned-Within,
  IsReleased, check_release_nil, ref_under_trans,
}

-- The checks of a policy, one by one.
pub record Passes (p : Policy) (c : Claims) : Type 0 where
  pub swname : same_text c.swname p.swname ≡ true
  pub hwmodel : same_text c.hwmodel p.hwmodel ≡ true
  pub booted : c.sec_boot ≡ true
  pub digest : check_digest p.allowed_image_digests (digest_of c) ≡ []
  pub released : IsReleased p.min_release (version_of c)
  pub debug : check_debug p.allow_debug c.dbg_stat ≡ []
  pub stable : p.require_stable && not (is_stable c) ≡ false
  pub gpu : check_gpu p.require_gpu_cc c ≡ []
  pub service :
      not (is_empty p.expected_trainer_url)
        && not (same_text (trim_right b'/' (trainer_of c)) (trim_right b'/' p.expected_trainer_url))
      ≡ false
  pub signed :
      not (is_empty p.image_signatures) && is_empty (signer_key_id p.image_signatures c) ≡ false
  pub project : not (is_empty p.project_id) && not (same_text (project_of c) p.project_id) ≡ false
  pub reference :
      not (is_empty p.image_reference_prefix)
        && not (ref_under (reference_of c) p.image_reference_prefix)
      ≡ false

pub check_policy-Passes : (p : Policy) (c : Claims) → check_policy p c ≡ [] → Passes p c
unfolding check_policy
check_policy-Passes p c h =
    let (a1, (a2, (a3, (a4, (a5, (a6, (a7, (a8, (a9, (a10, (a11, (a12, _)))))))))))) =
      concat_nil (policy_checks p c) h in
    record {
      swname = ground (arith, fail_nil _ _ a1);
      hwmodel = ground (arith, fail_nil _ _ a2);
      booted = ground (arith, fail_nil _ _ a3);
      digest = a4;
      released = check_release_nil p.min_release (version_of c) a5;
      debug = a6;
      stable = fail_nil _ _ a7;
      gpu = a8;
      service = fail_nil _ _ a9;
      signed = fail_nil _ _ a10;
      project = fail_nil _ _ a11;
      reference = fail_nil _ _ a12;
    }

check_release-IsReleased : (min v : List ℕ) → IsReleased min v → check_release min v ≡ []
check_release-IsReleased [] v h = refl
check_release-IsReleased (m ∷ min) v (inl e) = cc
check_release-IsReleased (m ∷ min) [] (inr h) = absurd (unfold release_numbers in ground (arith, h))
check_release-IsReleased (m ∷ min) (x ∷ v) (inr h) = ground (arith, h)

pub Passes-check_policy : (p : Policy) (c : Claims) → Passes p c → check_policy p c ≡ []
unfolding check_policy
Passes-check_policy p c v = nil_concat (policy_checks p c) (
  ground (arith, v.swname),
  (
    ground (arith, v.hwmodel),
    (
      ground (arith, v.booted),
      (
        v.digest,
        (
          check_release-IsReleased p.min_release (version_of c) v.released,
          (
            v.debug,
            (
              ground (arith, v.stable),
              (
                v.gpu,
                (
                  ground (arith, v.service),
                  (
                    ground (arith, v.signed),
                    (ground (arith, v.project), (ground (arith, v.reference), tt)),
                  ),
                ),
              ),
            ),
          ),
        ),
      ),
    ),
  ),
)

pub check_debug_nil :
    (allow : Bool) (stat : List ℕ)
    → check_debug false stat ≡ []
    → (stat ≡ codes "disabled-since-boot") × (check_debug allow stat ≡ [])
check_debug_nil allow stat h = ground (arith, same_text_iff stat (codes "disabled-since-boot"))

pub check_gpu_nil :
    (b : Bool) (c : Claims)
    → check_gpu b c ≡ []
    → (b ≡ false) ⊎ (gpu_mode c ≡ codes "ON") × (is_end (gpus c) ≡ false)
check_gpu_nil false c h = inl refl
check_gpu_nil true c h = inr (ground (arith, same_text_iff (gpu_mode c) (codes "ON")))

pub check_gpu_weaker : (a b : Bool) (c : Claims) → check_gpu (a || b) c ≡ [] → check_gpu a c ≡ []
check_gpu_weaker true b c h = h
check_gpu_weaker false b c h = refl

-- A value that a policy names, filled in from the floors, against both.
pub fill-floor :
    (e : Conflict) (floor served got : List ℕ)
    → (if is_empty served then [] else same e served floor) ≡ []
    → not (is_empty (fill floor served)) && not (same_text got (fill floor served)) ≡ false
    → (floor ≡ []) ⊎ (got ≡ floor)
fill-floor e [] served got h k = inl refl
fill-floor e (x ∷ floor) [] got h k = inr ((same_text_iff got (x ∷ floor)).0 (ground arith))
fill-floor e (x ∷ floor) (y ∷ served) got h k = inr (
    (same_text_iff got (y ∷ served)).0 (ground arith)
    ∙ (same_text_iff (y ∷ served) (x ∷ floor)).0 (ground arith))

pub fill-served :
    (test : List ℕ → Bool) (floor served : List ℕ)
    → not (is_empty (fill floor served)) && not (test (fill floor served)) ≡ false
    → not (is_empty served) && not (test served) ≡ false
fill-served test floor [] h = refl
fill-served test floor (x ∷ served) h = h

pub fill-reference :
    (floor served ref : List ℕ)
    → (not (is_empty floor) && not (is_empty served)) && not (ref_under served floor) ≡ false
    → not (is_empty (fill floor served)) && not (ref_under ref (fill floor served)) ≡ false
    → (floor ≡ []) ⊎ (ref_under ref floor ≡ true)
fill-reference [] served ref h k = inl refl
fill-reference (x ∷ floor) [] ref h k = inr (ground arith)
fill-reference (x ∷ floor) (y ∷ served) ref h k =
    inr (ref_under_trans ref (y ∷ served) (x ∷ floor) (ground arith) (ground arith))

pub IsSigned-floor :
    (floors served : List (List ℕ)) (c : Claims)
    → conflict_if (narrow_keys floors served).1 no_trusted_key ≡ []
    → not (is_empty (narrow_keys floors served).0)
        && is_empty (signer_key_id (narrow_keys floors served).0 c)
      ≡ false
    → IsSigned floors c
IsSigned-floor floors served c h k =
    elim (narrow_keys-Within floors served (conflict_nil _ no_trusted_key h)) [
      | inl e ↦ inl e
      | inr w ↦ IsSigned-Within (narrow_keys floors served).0 floors c w.0 w.1 k
    ]

pub IsSigned-served :
    (floors served : List (List ℕ)) (c : Claims)
    → not (is_empty (narrow_keys floors served).0)
        && is_empty (signer_key_id (narrow_keys floors served).0 c)
      ≡ false
    → not (is_empty served) && is_empty (signer_key_id served c) ≡ false
IsSigned-served floors served c k = elim (narrow_keys-served floors served) [
  | inl e ↦ rw e refl
  | inr w ↦ elim (IsSigned-Within (narrow_keys floors served).0 served c w.0 w.1 k) [
    | inl e ↦ rw e refl
    | inr n ↦ ground (arith, n)
  ]
]

pub via :
    (got served floor : List ℕ)
    → same_text got served ≡ true
    → (floor ≡ []) ⊎ (served ≡ floor)
    → (floor ≡ []) ⊎ (got ≡ floor)
via got served floor h (inl e) = inl e
via got served floor h (inr e) = inr ((same_text_iff got served).0 h ∙ e)
