-- ===== src/Attest/Vouched.antt =====
-- internal/attest/attest.go, `VerifyToken`: what a token that is accepted has passed.
use masseuse_camlink.Prelude.{
  ℕ, ◌≡◌, refl, ◌∙◌, ap, subst, true, false, ◌&&◌, not, some, List, [], ◌∷◌, arith, if_keeps,
  option_keeps, same_text, same_text_iff, split, is_empty, codes, ℤ, ltb_ℤ,
}
use masseuse_camlink.Attest.Policy.{contains}
use masseuse_camlink.Attest.Claims.{Claims}
use masseuse_camlink.Attest.Token.{
  Header, Library, TokenError, Verified, accepted, bad_token, bad_header, bad_alg, no_kid, no_key,
  bad_encoding, not_signed, bad_payload, bad_issuer, bad_audience, no_expiry, expired,
  not_yet_valid, in_future, plus_leeway, minus_leeway, is_zero, check_times, check_payload,
  check_signature, check_parts, verify_token,
}

-- The claims stand in a payload that the key of the token's header has signed.
pub record VouchedBy {K : Type 0} (lib : Library K) (segments : List (List ℕ)) (c : Claims)
    : Type 0 where
  pub first : List ℕ
  pub second : List ℕ
  pub third : List ℕ
  pub parts : segments ≡ first ∷ second ∷ third ∷ []
  pub raw : List ℕ
  pub raw_of : lib.decode first ≡ some raw
  pub head : Header
  pub head_of : lib.header raw ≡ some head
  pub alg : head.alg ≡ codes "RS256"
  pub key : K
  pub key_of : lib.key head.kid ≡ some key
  pub sig : List ℕ
  pub sig_of : lib.decode third ≡ some sig
  pub signature : check_signature lib key first second sig ≡ true
  pub payload : List ℕ
  pub payload_of : lib.decode second ≡ some payload
  pub claims_of : lib.claims payload ≡ some c

-- The claims are for this verifier, at this time.
pub record Timely (issuer aud : List ℕ) (now : ℤ) (c : Claims) : Type 0 where
  pub issuer_is : c.issuer ≡ issuer
  pub audience_has : contains c.audience aud ≡ true
  pub expires : is_zero c.expiry ≡ false
  pub unexpired : ltb_ℤ (plus_leeway c.expiry) now ≡ false
  pub valid : not (is_zero c.not_before) && ltb_ℤ now (minus_leeway c.not_before) ≡ false
  pub issued : not (is_zero c.issued_at) && ltb_ℤ now (minus_leeway c.issued_at) ≡ false

abbrev pub Gives : Type 0 → Claims → Verified → Type 0
Gives A d v = v ≡ accepted d → A

refuted : {A : Type 0} {d : Claims} (e : TokenError) → Gives A d (bad_token e)
refuted e h = cc

check_times-Timely :
    (issuer aud : List ℕ) (now : ℤ) (c d : Claims)
    → check_times issuer aud now c ≡ accepted d
    → (c ≡ d) × Timely issuer aud now c
unfolding check_times
check_times-Timely issuer aud now c d =
    let P = Gives ((c ≡ d) × Timely issuer aud now c) d in
    if_keeps P (not (same_text c.issuer issuer)) (λ _. refuted bad_issuer)
      (λ e1.
        if_keeps P (not (contains c.audience aud)) (λ _. refuted bad_audience)
          (λ e2.
            if_keeps P (is_zero c.expiry) (λ _. refuted no_expiry)
              (λ e3.
                if_keeps P (ltb_ℤ (plus_leeway c.expiry) now) (λ _. refuted expired)
                  (λ e4.
                    if_keeps P (not (is_zero c.not_before) && ltb_ℤ now (minus_leeway c.not_before))
                      (λ _. refuted not_yet_valid)
                      (λ e5.
                        if_keeps P
                          (not (is_zero c.issued_at) && ltb_ℤ now (minus_leeway c.issued_at))
                          (λ _. refuted in_future)
                          (λ e6 h. (
                            cc,
                            record {
                              issuer_is = (same_text_iff c.issuer issuer).0 (ground arith);
                              audience_has = ground arith;
                              expires = e3;
                              unexpired = e4;
                              valid = e5;
                              issued = e6;
                            },
                          )))))))

module _ {K : Type 0} (lib : Library K) where
  check_payload-Timely :
      (issuer aud : List ℕ) (now : ℤ) (b : List ℕ) (c : Claims)
      → check_payload lib issuer aud now b ≡ accepted c
      → ((payload : List ℕ) × (lib.decode b ≡ some payload) × (lib.claims payload ≡ some c))
        × Timely issuer aud now c
  check_payload-Timely issuer aud now b c =
      let P =
        Gives
          (((payload : List ℕ) × (lib.decode b ≡ some payload) × (lib.claims payload ≡ some c))
            × Timely issuer aud now c)
          c in
      option_keeps P (lib.decode b) (λ _. refuted bad_payload)
        (λ payload e1.
          option_keeps P (lib.claims payload) (λ _. refuted bad_payload)
            (λ c' e2 h.
              let (e, t) = check_times-Timely issuer aud now c' c h in
              ((payload, e1, e2 ∙ ap some e), subst (Timely issuer aud now) e t)))

  abbrev Judged : List (List ℕ) → List ℕ → List ℕ → ℤ → Claims → Type 0
  Judged ps issuer aud now c = VouchedBy lib ps c × Timely issuer aud now c

  check_parts-Vouched :
      (ps : List (List ℕ)) (issuer aud : List ℕ) (now : ℤ) (c : Claims)
      → check_parts lib ps issuer aud now ≡ accepted c
      → Judged ps issuer aud now c
  check_parts-Vouched [] issuer aud now c h = cc
  check_parts-Vouched (a ∷ []) issuer aud now c h = cc
  check_parts-Vouched (a ∷ b ∷ []) issuer aud now c h = cc
  check_parts-Vouched (a ∷ b ∷ s ∷ d ∷ ps) issuer aud now c h = cc
  check_parts-Vouched (a ∷ b ∷ s ∷ []) issuer aud now c h0 =
      let P = Gives (Judged (a ∷ b ∷ s ∷ []) issuer aud now c) c in
      option_keeps P (lib.decode a) (λ _. refuted bad_header)
        (λ raw e1.
          option_keeps P (lib.header raw) (λ _. refuted bad_header)
            (λ head e2.
              if_keeps P (not (same_text head.alg (codes "RS256"))) (λ _. refuted bad_alg)
                (λ e3.
                  if_keeps P (is_empty head.kid) (λ _. refuted no_kid)
                    (λ _.
                      option_keeps P (lib.key head.kid) (λ _. refuted no_key)
                        (λ k e4.
                          option_keeps P (lib.decode s) (λ _. refuted bad_encoding)
                            (λ sig e5.
                              if_keeps P (check_signature lib k a b sig)
                                (λ e6 h.
                                  let ((payload, e7, e8), t) =
                                    check_payload-Timely issuer aud now b c h in
                                  (
                                    record {
                                      first = a;
                                      second = b;
                                      third = s;
                                      parts = refl;
                                      raw = raw;
                                      raw_of = e1;
                                      head = head;
                                      head_of = e2;
                                      alg =
                                          (same_text_iff head.alg (codes "RS256")).0 (ground arith);
                                      key = k;
                                      key_of = e4;
                                      sig = sig;
                                      sig_of = e5;
                                      signature = e6;
                                      payload = payload;
                                      payload_of = e7;
                                      claims_of = e8;
                                    },
                                    t,
                                  ))
                                (λ _. refuted not_signed)))))))
        h0

  -- A token that is accepted is signed, and for this verifier at this time.
  pub verify_token-Vouched :
      (token issuer aud : List ℕ) (now : ℤ) (c : Claims)
      → verify_token lib token issuer aud now ≡ accepted c
      → VouchedBy lib (split b'.' token) c × Timely issuer aud now c
  unfolding verify_token
  verify_token-Vouched token issuer aud now c h =
      check_parts-Vouched (split b'.' token) issuer aud now c h
