-- ===== src/Attest/Token.antt =====
-- internal/attest/attest.go: `VerifyToken`, and what `Verify` does with what it has fetched. The
-- standard library's decoding, hashing and signatures, JSON and the key source are parameters.
use masseuse_camlink.Prelude.{
  ℕ, ◌+◌, ◌-◌, ◌^◌, Bool, ◌&&◌, not, Option, none, some, List, [], ◌∷◌, ◌++◌, ltb, leb,
  if◌then◌else◌, same_text, is_empty, split, codes, ℤ, pos, negsuc, ltb_ℤ, eq_ℤ,
}
use masseuse_camlink.Attest.Policy.{Policy, contains}
use masseuse_camlink.Attest.Hosts.{has_suffix_any}
use masseuse_camlink.Attest.Claims.{Claims, Doc, Reason, check_claims}

-- Additions of 60 on int64, which wrap.
abbrev pub leeway : ℕ
leeway = 60

abbrev pub plus_leeway : ℤ → ℤ
plus_leeway (pos n) =
    if ltb (n + leeway) (2 ^ 63) then pos (n + leeway) else negsuc (2 ^ 64 - (n + leeway) - 1)
plus_leeway (negsuc n) = if ltb n leeway then pos (leeway - 1 - n) else negsuc (n - leeway)

abbrev pub minus_leeway : ℤ → ℤ
minus_leeway (pos n) = if leb leeway n then pos (n - leeway) else negsuc (leeway - 1 - n)
minus_leeway (negsuc n) =
    if ltb (n + leeway) (2 ^ 63) then negsuc (n + leeway) else pos (2 ^ 64 - (n + leeway) - 1)

pub record Header : Type 0 where
  pub alg : List ℕ
  pub kid : List ℕ

pub record Library (K : Type 0) : Type 0 where
  -- base64.RawURLEncoding, sha256.Sum256
  pub decode : List ℕ → Option (List ℕ)
  pub encode : List ℕ → List ℕ
  pub hash : List ℕ → List ℕ
  -- json.Unmarshal
  pub header : List ℕ → Option Header
  pub claims : List ℕ → Option Claims
  -- KeySource.Key, rsa.VerifyPKCS1v15
  pub key : List ℕ → Option K
  pub signed : K → List ℕ → List ℕ → Bool
  -- strings.ToLower, net.ParseIP
  pub lower : List ℕ → List ℕ
  pub is_ip : List ℕ → Bool

pub data TokenError : Type 0 where
  not_three_segments bad_header bad_alg no_kid no_key bad_encoding not_signed bad_payload :
      TokenError
  bad_issuer bad_audience no_expiry expired not_yet_valid in_future : TokenError

pub data Verified : Type 0 where
  accepted : Claims → Verified
  bad_token : TokenError → Verified
  refused : List Reason → Verified
  bad_host no_token : Verified

abbrev pub is_zero : ℤ → Bool
is_zero n = eq_ℤ n (pos 0)

-- The checks of the issuer, the audience and the times.
unfoldable pub check_times : List ℕ → List ℕ → ℤ → Claims → Verified
check_times issuer aud now c =
    if not (same_text c.issuer issuer)
    then bad_token bad_issuer
    else if not (contains c.audience aud)
    then bad_token bad_audience
    else if is_zero c.expiry
    then bad_token no_expiry
    else if ltb_ℤ (plus_leeway c.expiry) now
    then bad_token expired
    else if not (is_zero c.not_before) && ltb_ℤ now (minus_leeway c.not_before)
    then bad_token not_yet_valid
    else if not (is_zero c.issued_at) && ltb_ℤ now (minus_leeway c.issued_at)
    then bad_token in_future
    else accepted c

module _ {K : Type 0} (lib : Library K) where
  abbrev pub check_payload : List ℕ → List ℕ → ℤ → List ℕ → Verified
  check_payload issuer aud now b = elim (lib.decode b) [
    | none ↦ bad_token bad_payload
    | some payload ↦ elim (lib.claims payload) [
      | none ↦ bad_token bad_payload
      | some c ↦ check_times issuer aud now c
    ]
  ]

  -- The signature is of the first two segments, as they stand.
  unfoldable pub check_signature : K → List ℕ → List ℕ → List ℕ → Bool
  check_signature k a b sig = lib.signed k (lib.hash (a ++ b'.' ∷ b)) sig

  abbrev pub check_signed : K → List ℕ → List ℕ → List ℕ → List ℕ → List ℕ → ℤ → Verified
  check_signed k a b s issuer aud now = elim (lib.decode s) [
    | none ↦ bad_token bad_encoding
    | some sig ↦
        if check_signature k a b sig then check_payload issuer aud now b else bad_token not_signed
  ]

  abbrev pub check_header : Header → List ℕ → List ℕ → List ℕ → List ℕ → List ℕ → ℤ → Verified
  check_header h a b s issuer aud now =
      if not (same_text h.alg (codes "RS256"))
      then bad_token bad_alg
      else if is_empty h.kid
      then bad_token no_kid
      else elim (lib.key h.kid) [
        | none ↦ bad_token no_key
        | some k ↦ check_signed k a b s issuer aud now
      ]

  abbrev pub check_parts : List (List ℕ) → List ℕ → List ℕ → ℤ → Verified
  check_parts (a ∷ b ∷ s ∷ []) issuer aud now = elim (lib.decode a) [
    | none ↦ bad_token bad_header
    | some raw ↦ elim (lib.header raw) [
      | none ↦ bad_token bad_header
      | some h ↦ check_header h a b s issuer aud now
    ]
  ]
  check_parts ps issuer aud now = bad_token not_three_segments

  -- `VerifyToken`.
  unfoldable pub verify_token : List ℕ → List ℕ → List ℕ → ℤ → Verified
  verify_token token issuer aud now = check_parts (split b'.' token) issuer aud now

  abbrev pub when_accepted : Policy → Doc → List ℕ → List ℕ → Verified → Verified
  when_accepted p doc nonce spki (accepted c) =
      elim (check_claims lib.decode lib.encode lib.hash p c doc nonce spki) [
        | [] ↦ accepted c
        | r ∷ rs ↦ refused (r ∷ rs)
      ]
  when_accepted p doc nonce spki v = v

  -- `Verify` of an https origin and its host, with the document that it has fetched over a connection
  -- whose key hashes to `spki`, for the fresh `nonce`.
  unfoldable pub verify : Policy → List ℕ → List ℕ → Doc → List ℕ → List ℕ → ℤ → Verified
  unfolding verify_token has_suffix_any
  verify p origin host doc nonce key_hash now =
      if not (is_empty p.tee_slot_host_suffixes)
        && not (has_suffix_any lib.lower lib.is_ip host p.tee_slot_host_suffixes)
      then bad_host
      else if is_empty doc.token
      then no_token
      else when_accepted p doc nonce (lib.encode key_hash)
          (verify_token doc.token p.issuer origin now)
