-- ===== src/Tunnel/Single.antt =====
-- internal/tunnel/tunnel.go: OPENs that are handled one after another reach one target, and only
-- addresses of the private network.
use masseuse_camlink.Prelude.{
  ℕ, ◌≡◌, ◌⊎◌, inl, inr, refl, sym, ap, ◌∙◌, Bool, true, false, not, Option, none, some, List, [],
  ◌∷◌, if_keeps, option_keeps, same_text_iff, is_empty, arith, All,
}
use masseuse_camlink.Tunnel.Policy.{
  Net, Begun, begun, barred, unresolved, Admission, admitted, denied, Open, Outcome, refused,
  answered, dialed, is_private, all_private, resolved, resolve_private, is_port, is_locked_out,
  begin_allow, lock_if, end_allow, allow, allow_reserved, dial, handle, handle_all,
}

module _ {A : Type 0} (net : Net A) where
  -- The address is one of the private network, that the host is, or that its name resolves to with none
  -- outside.
  abbrev pub Vetted : List ℕ → Option (List A) → List ℕ → List ℕ → Type 0
  Vetted host answer port addr =
      (a : A) × (is_private net a ≡ true)
      × (addr ≡ net.join (net.text a) port)
      × ((net.parse host ≡ some a)
          ⊎ (net.parse host ≡ none)
            × ((as' : List A) × (answer ≡ some (a ∷ as')) × (all_private net (a ∷ as') ≡ true)))

  abbrev pub WhenAdmitted : (List ℕ → Type 0) → Admission → Type 0
  WhenAdmitted P (admitted addr) = P addr
  WhenAdmitted P (denied e) = Unit

  resolved-Vetted :
      (host port : List ℕ) (as' : List A)
      → net.parse host ≡ none
      → WhenAdmitted (Vetted host (some as') port) (resolved net port as')
  unfolding all_private
  resolved-Vetted host port [] h = tt
  resolved-Vetted host port (a ∷ as') h =
      if_keeps (WhenAdmitted (Vetted host (some (a ∷ as')) port)) (all_private net (a ∷ as'))
        (λ e. (a, ground arith, refl, inr (h, (as', refl, e)))) (λ _. tt)

  answer-Vetted :
      (host port : List ℕ) (answer : Option (List A))
      → net.parse host ≡ none
      → WhenAdmitted
          (Vetted host answer port)
          (elim answer [ none ↦ denied unresolved | some as' ↦ resolved net port as' ])
  answer-Vetted host port none h = tt
  answer-Vetted host port (some as') h = resolved-Vetted host port as' h

  resolve_private-Vetted :
      (host port : List ℕ) (answer : Option (List A))
      → WhenAdmitted (Vetted host answer port) (resolve_private net host port answer)
  unfolding resolve_private
  resolve_private-Vetted host port answer =
      option_keeps (WhenAdmitted (Vetted host answer port)) (net.parse host)
        (λ e. answer-Vetted host port answer e)
        (λ a e.
          if_keeps (WhenAdmitted (Vetted host answer port)) (is_private net a)
            (λ k. (a, k, refl, inl e)) (λ _. tt))

  -- The target is a host and a port of 1 to 65535, and the address one of the private network for it.
  abbrev pub IsReached : Open A → List ℕ → Type 0
  IsReached o addr =
      (p : List ℕ × List ℕ) × (net.split o.target ≡ some p)
      × (is_port net p.1 ≡ true)
      × Vetted p.0 o.answer p.1 addr

  abbrev AfterAllow : Open A → List ℕ → List ℕ × Admission → Type 0
  AfterAllow o locked (l, admitted addr) =
      (l ≡ o.target) × (is_locked_out locked o.target ≡ false) × IsReached o addr
  AfterAllow o locked (l, denied e) = l ≡ locked

  abbrev AfterBegin : Open A → List ℕ → Begun → Type 0
  AfterBegin o locked (barred e) = Unit
  AfterBegin o locked (begun host port) =
      (net.split o.target ≡ some (host, port))
      × (is_port net port ≡ true)
      × (is_locked_out locked o.target ≡ false)

  begin_allow-AfterBegin :
      (o : Open A) (locked : List ℕ) → AfterBegin o locked (begin_allow net locked o.target)
  unfolding begin_allow
  begin_allow-AfterBegin o locked =
      option_keeps (AfterBegin o locked) (net.split o.target) (λ _. tt)
        (λ p e.
          if_keeps (AfterBegin o locked) (not (is_port net p.1)) (λ _. tt)
            (λ k.
              if_keeps (AfterBegin o locked) (is_locked_out locked o.target) (λ _. tt)
                (λ m. (e, ground arith, m))))

  resolved-AfterAllow :
      (o : Open A) (locked host port : List ℕ) (r : Admission)
      → AfterBegin o locked (begun host port)
      → WhenAdmitted (Vetted host o.answer port) r
      → AfterAllow o locked (lock_if net r o.target locked, r)
  resolved-AfterAllow o locked host port (admitted addr) (e, k, m) v =
      (refl, m, ((host, port), e, k, v))
  resolved-AfterAllow o locked host port (denied x) b v = refl

  end_allow-AfterAllow :
      (o : Open A) (locked : List ℕ) (b : Begun)
      → AfterBegin o locked b
      → AfterAllow o locked (end_allow net o.target o.answer b locked)
  unfolding end_allow
  end_allow-AfterAllow o locked (barred e) h = refl
  end_allow-AfterAllow o locked (begun host port) h =
      resolved-AfterAllow o locked host port (resolve_private net host port o.answer) h
        (resolve_private-Vetted host port o.answer)

  -- A dial: the lock is the target's then, and it was not another's.
  abbrev AfterHandle : Open A → List ℕ → List ℕ × Outcome → Type 0
  AfterHandle o locked (l, dialed addr t) =
      (l ≡ o.target) × (is_locked_out locked o.target ≡ false) × IsReached o addr
  AfterHandle o locked (l, out) = l ≡ locked

  dial-AfterHandle :
      (o : Open A) (locked : List ℕ) (r : List ℕ × Admission)
      → AfterAllow o locked r
      → AfterHandle o locked (dial net o r)
  dial-AfterHandle o locked (l, admitted addr) h = h
  dial-AfterHandle o locked (l, denied e) h = h

  handle-AfterHandle :
      (reserved : List ℕ → Bool) (o : Open A) (locked : List ℕ)
      → AfterHandle o locked (handle net reserved o locked)
  unfolding handle allow
  handle-AfterHandle reserved o locked =
      if_keeps (AfterHandle o locked) (reserved o.target)
        (λ _.
          option_keeps (AfterHandle o locked) (allow_reserved net o.target) (λ _. refl)
            (λ e _. refl))
        (λ _. dial-AfterHandle o locked (allow net o.target o.answer locked) (
          end_allow-AfterAllow o locked (begin_allow net locked o.target)
            (begin_allow-AfterBegin o locked)))

  -- What was dialed, and for which OPEN.
  abbrev pub dials : List (Open A × Outcome) → List (Open A × List ℕ)
  dials [] = []
  dials ((o, refused e) ∷ rest) = dials rest
  dials ((o, answered t) ∷ rest) = dials rest
  dials ((o, dialed addr t) ∷ rest) = (o, addr) ∷ dials rest

  -- The one target, and an address for it.
  abbrev pub IsFor : List ℕ → Open A × List ℕ → Type 0
  IsFor locked d = (d.0.target ≡ locked) × IsReached d.0 d.1

  keeps_lock :
      (o : Open A) (locked : List ℕ) (r : List ℕ × Outcome)
      → is_empty locked ≡ false
      → AfterHandle o locked r
      → r.0 ≡ locked
  keeps_lock o locked (l, refused e) k h = h
  keeps_lock o locked (l, answered t) k h = h
  keeps_lock o locked (l, dialed addr t) k (e, m, v) =
      e ∙ sym ((same_text_iff locked o.target).0 (ground arith))

  module _ (reserved : List ℕ → Bool) where
    handle_all_locked :
        (os : List (Open A)) (locked : List ℕ)
        → is_empty locked ≡ false
        → (handle_all net reserved os locked).0 ≡ locked
    unfolding handle_all
    handle_all_locked [] locked k = refl
    handle_all_locked (o ∷ os) locked k =
        let e =
          keeps_lock o locked (handle net reserved o locked) k
            (handle-AfterHandle reserved o locked) in
        handle_all_locked os (handle net reserved o locked).0 (ap is_empty e ∙ k) ∙ e

    -- The OPEN without a target names no host.
    module _ (nowhere : net.split [] ≡ none) where
      not_nowhere : (t : List ℕ) (p : List ℕ × List ℕ) → net.split t ≡ some p → is_empty t ≡ false
      not_nowhere [] p e = absurd (let k : none ≡ some p = sym nowhere ∙ e in cc)
      not_nowhere (c ∷ t) p e = refl

      with_handled :
          (o : Open A) (locked : List ℕ) (os : List (Open A)) (r : List ℕ × Outcome)
          → AfterHandle o locked r
          → All
              (IsFor (handle_all net reserved os r.0).0)
              (dials (handle_all net reserved os r.0).1)
          → All
              (IsFor (handle_all net reserved os r.0).0)
              (dials ((o, r.1) ∷ (handle_all net reserved os r.0).1))
      with_handled o locked os (l, refused e) h rest = rest
      with_handled o locked os (l, answered t) h rest = rest
      with_handled o locked os (l, dialed addr t) (e, m, v) rest = (
        (sym e ∙ sym (handle_all_locked os l (ap is_empty e ∙ not_nowhere o.target v.0 v.1)), v),
        rest,
      )

      handle_all-IsFor :
          (os : List (Open A)) (locked : List ℕ)
          → All
              (IsFor (handle_all net reserved os locked).0)
              (dials (handle_all net reserved os locked).1)
      unfolding handle_all
      handle_all-IsFor [] locked = tt
      handle_all-IsFor (o ∷ os) locked =
          with_handled o locked os (handle net reserved o locked)
            (handle-AfterHandle reserved o locked)
            (handle_all-IsFor os (handle net reserved o locked).0)

-- Provided that no host and port can be split from an empty target: when OPENs are handled one
-- after another on a tunnel, then all that is dialed, with or without success, is for one target,
-- the one that is locked at the end; its port is between 1 and 65535; and the address dialed is one
-- of the private network, loopback or link-local, which is the target's host itself or the first
-- address of the host's name, no address of which is outside.
pub handle_all-single :
    {A : Type 0} (net : Net A) (reserved : List ℕ → Bool) (os : List (Open A))
    → net.split [] ≡ none
    → All
        (IsFor net (handle_all net reserved os []).0)
        (dials net (handle_all net reserved os []).1)
handle_all-single net reserved os nowhere = handle_all-IsFor net reserved nowhere os []
