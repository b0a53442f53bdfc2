-- ===== src/Attest/Tighten.antt =====
-- internal/attest/floors.go: what a tightened policy accepts, against the floors and the served policy.
use masseuse_camlink.Prelude.{
  ℕ, ◌≡◌, ◌⊎◌, inl, inr, refl, sym, ap, ◌∙◌, subst, Bool, true, false, ◌&&◌, not, List, [], ◌∷◌,
  ◌++◌, arith, Bool-cases, same_text, same_text_iff, has_prefix, has_prefix_trans, has_prefix_iff,
  is_empty, append_assoc, append-nil,
}
use masseuse_camlink.Attest.Json.{Items, end, item}
use masseuse_camlink.Attest.Release.{valid_release, is_older}
use masseuse_camlink.Attest.Order.{is_older_trans, is_older_asym}
use masseuse_camlink.Attest.Policy.{contains}
use masseuse_camlink.Attest.Floors.{
  Conflict, same, keep_listed, narrow_keys, conflict_if, raise_release, ref_under,
}
use masseuse_camlink.Attest.Claims.{
  Claims, Reason, fail_if, check_release, first_listed, signer_key_id, signatures_of, key_id,
}

pub append_nil {ℓ} : {A : Type ℓ} (xs ys : List A) → xs ++ ys ≡ [] → (xs ≡ []) × (ys ≡ [])
append_nil [] ys h = (refl, h)
append_nil (x ∷ xs) ys h = cc

-- Every key of the first list is in the second.
abbrev pub Within : List (List ℕ) → List (List ℕ) → Type 0
Within ks ls = (id : List ℕ) → contains ks id ≡ true → contains ls id ≡ true

pub contains_same :
    (ls : List (List ℕ)) (k id : List ℕ) → same_text k id ≡ true → contains ls k ≡ contains ls id
contains_same ls k id e = ap (contains ls) ((same_text_iff k id).0 e)

pub keep_listed-Within : (floors ks : List (List ℕ)) → Within (keep_listed floors ks) floors
unfolding keep_listed contains
keep_listed-Within floors [] id h = cc
keep_listed-Within floors (k ∷ ks) id h =
    ground (arith, keep_listed-Within floors ks id, contains_same floors k id)

pub keep_listed-served : (floors ks : List (List ℕ)) → Within (keep_listed floors ks) ks
unfolding keep_listed contains
keep_listed-served floors [] id h = h
keep_listed-served floors (k ∷ ks) id h = ground (arith, keep_listed-served floors ks id)

pub first_listed-Within :
    (ks ls : List (List ℕ)) (vs : Items)
    → Within ks ls
    → is_empty (first_listed ks vs) ≡ false
    → is_empty (first_listed ls vs) ≡ false
unfolding first_listed
first_listed-Within ks ls end w h = h
first_listed-Within ks ls (item v vs) w h =
    ground (arith, w (key_id v), first_listed-Within ks ls vs w)

pub has_prefix-append : (s t u : List ℕ) → has_prefix s (t ++ u) ≡ true → has_prefix s t ≡ true
has_prefix-append s t u h =
    let (r, e) = (has_prefix_iff s (t ++ u)).0 h in
    (has_prefix_iff s t).1 (u ++ r, e ∙ append_assoc t u r)

pub has_prefix_same : (s t : List ℕ) → same_text s t ≡ true → has_prefix s t ≡ true
has_prefix_same s t h = (has_prefix_iff s t).1 ([], (same_text_iff s t).0 h ∙ sym (append-nil t))

pub ref_under-prefix : (r p : List ℕ) → ref_under r p ≡ true → has_prefix r p ≡ true
unfolding ref_under
ref_under-prefix r p h = ground (
  arith,
  has_prefix-append r p (b'@' ∷ []),
  has_prefix-append r p (b':' ∷ []),
  has_prefix_same r p,
)

pub ref_under_trans :
    (r p f : List ℕ) → ref_under r p ≡ true → ref_under p f ≡ true → ref_under r f ≡ true
ref_under_trans r p f h k = elim (Bool-cases (same_text p f)) [
  | inl e ↦ subst (λ x. ref_under r x ≡ true) ((same_text_iff p f).0 e) h
  | inr n ↦ further n
]
  where
    q : has_prefix r p ≡ true
    q = ref_under-prefix r p h

    further : same_text p f ≡ false → ref_under r f ≡ true
    further n =
        unfold ref_under in
        ground (
          arith,
          q,
          has_prefix_trans r p f,
          has_prefix_trans r p (f ++ b'@' ∷ []),
          has_prefix_trans r p (f ++ b':' ∷ []),
          k,
        )

pub same_nil :
    (e : Conflict) (got want : List ℕ) → same e got want ≡ [] → (want ≡ []) ⊎ (got ≡ want)
same_nil e got [] h = inl refl
same_nil e got (w ∷ want) h = inr ((same_text_iff got (w ∷ want)).0 (ground arith))

pub fail_nil : (b : Bool) (e : Reason) → fail_if b e ≡ [] → b ≡ false
fail_nil b e h = ground arith

pub conflict_nil : (b : Bool) (e : Conflict) → conflict_if b e ≡ [] → b ≡ false
conflict_nil b e h = ground arith

-- A list cut down to the floors' one is within it, and within the served one, unless that is empty.
pub narrow_keys-Within :
    (floors served : List (List ℕ))
    → (narrow_keys floors served).1 ≡ false
    → (floors ≡ [])
      ⊎ (is_empty (narrow_keys floors served).0 ≡ false)
        × Within (narrow_keys floors served).0 floors
narrow_keys-Within [] served h = inl refl
narrow_keys-Within (f ∷ fs) [] h = inr (refl, λ id k. k)
narrow_keys-Within (f ∷ fs) (k ∷ ks) h =
    elim (Bool-cases (is_empty (keep_listed (f ∷ fs) (k ∷ ks)))) [
      | inl e ↦ absurd (ground arith)
      | inr e ↦ inr (rw e (e, keep_listed-Within (f ∷ fs) (k ∷ ks)))
    ]

pub narrow_keys-served :
    (floors served : List (List ℕ))
    → (served ≡ [])
      ⊎ (is_empty (narrow_keys floors served).0 ≡ false)
        × Within (narrow_keys floors served).0 served
narrow_keys-served floors [] = inl refl
narrow_keys-served [] (k ∷ ks) = inr (refl, λ id h. h)
narrow_keys-served (f ∷ fs) (k ∷ ks) =
    elim (Bool-cases (is_empty (keep_listed (f ∷ fs) (k ∷ ks)))) [
      | inl e ↦ inr (rw e (refl, λ id h. h))
      | inr e ↦ inr (rw e (e, keep_listed-served (f ∷ fs) (k ∷ ks)))
    ]

-- The image is signed with a key of the list, or the list is empty.
abbrev pub IsSigned : List (List ℕ) → Claims → Type 0
IsSigned keys c = (keys ≡ []) ⊎ (is_empty (signer_key_id keys c) ≡ false)

pub IsSigned-Within :
    (ks ls : List (List ℕ)) (c : Claims)
    → is_empty ks ≡ false
    → Within ks ls
    → not (is_empty ks) && is_empty (signer_key_id ks c) ≡ false
    → IsSigned ls c
IsSigned-Within ks ls c n w h = inr (first_listed-Within ks ls (signatures_of c) w (ground arith))

-- The release is a release, no older than the floor, or there is no floor.
abbrev pub IsReleased : List ℕ → List ℕ → Type 0
IsReleased min v = (min ≡ []) ⊎ (valid_release v ≡ true) × (is_older v min ≡ false)

pub check_release_nil : (min v : List ℕ) → check_release min v ≡ [] → IsReleased min v
check_release_nil [] v h = inl refl
check_release_nil (m ∷ min) v h = inr (ground arith)

pub not_nil :
    (x : ℕ) (xs v : List ℕ)
    → IsReleased (x ∷ xs) v
    → (valid_release v ≡ true) × (is_older v (x ∷ xs) ≡ false)
not_nil x xs v (inl e) = cc
not_nil x xs v (inr h) = h

pub raise_release-IsReleased :
    (floor served v : List ℕ)
    → IsReleased (raise_release floor served) v
    → IsReleased floor v × IsReleased served v
raise_release-IsReleased [] served v h = (inl refl, h)
raise_release-IsReleased (f ∷ fs) [] v h = (h, inl refl)
raise_release-IsReleased (f ∷ fs) (s ∷ ss) v h = elim (Bool-cases (is_older (s ∷ ss) (f ∷ fs))) [
  | inl e ↦
      let (ok, k) = not_nil f fs v (rw e at h) in
      (
        inr (ok, k),
        inr (ok, is_older_trans v (f ∷ fs) (s ∷ ss) k (is_older_asym (s ∷ ss) (f ∷ fs) e)),
      )
  | inr e ↦
      let (ok, k) = not_nil s ss v (rw e at h) in
      (inr (ok, is_older_trans v (s ∷ ss) (f ∷ fs) k e), inr (ok, k))
]
