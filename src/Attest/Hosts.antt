-- ===== src/Attest/Hosts.antt =====
-- internal/attest: the DNS suffixes that enclaves live under. `lower` stands for `strings.ToLower`.
use masseuse_camlink.Prelude.{
  ℕ, Bool, true, false, ◌&&◌, ◌||◌, not, List, [], ◌∷◌, if◌then◌else◌, has_prefix, has_suffix,
  has_suffix_trans, trim_last, is_empty, ◌≡◌, All, arith,
}

module _ (lower : List ℕ → List ℕ) where
  -- A suffix as it is compared: in lower case, without a last dot, with a first one.
  unfoldable pub norm : List ℕ → List ℕ
  norm x =
      let s = lower (trim_last b'.' x) in
      if not (is_empty s) && not (has_prefix s (b'.' ∷ [])) then b'.' ∷ s else s

  unfoldable pub any_suffix : List ℕ → List (List ℕ) → Bool
  any_suffix s [] = false
  any_suffix s (f ∷ fs) = (not (is_empty (norm f)) && has_suffix s (norm f)) || any_suffix s fs

  -- `suffixUnderAny`.
  unfoldable pub suffix_under_any : List ℕ → List (List ℕ) → Bool
  suffix_under_any s floors = not (is_empty (norm s)) && any_suffix (norm s) floors

  -- `hasSuffixAny`; `is_ip` stands for `net.ParseIP`.
  unfoldable pub has_suffix_any : (List ℕ → Bool) → List ℕ → List (List ℕ) → Bool
  has_suffix_any is_ip host suffixes =
      let h = lower (trim_last b'.' host) in not (is_ip h) && any_suffix h suffixes

  any_suffix-under :
      (h s : List ℕ) (floors : List (List ℕ))
      → has_suffix h s ≡ true
      → any_suffix s floors ≡ true
      → any_suffix h floors ≡ true
  unfolding any_suffix
  any_suffix-under h s [] k m = m
  any_suffix-under h s (f ∷ fs) k m =
      ground (arith, has_suffix_trans h s (norm f) k, any_suffix-under h s fs k)

  -- A host under suffixes that are all under the floors' is under the floors'.
  pub any_suffix_narrow :
      (h : List ℕ) (ss floors : List (List ℕ))
      → All (λ s. suffix_under_any s floors ≡ true) ss
      → any_suffix h ss ≡ true
      → any_suffix h floors ≡ true
  unfolding any_suffix suffix_under_any
  any_suffix_narrow h [] floors a m = cc
  any_suffix_narrow h (s ∷ ss) floors a m =
      ground (arith, a.0, any_suffix-under h (norm s) floors, any_suffix_narrow h ss floors a.1)
