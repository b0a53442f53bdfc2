-- ===== src/Estim/Mastago/Arrives.antt =====
-- internal/estim/mastago/device.go, `Ramp`: a ramp that reports no error ends at its target.
use masseuse_camlink.Prelude.{
  ℕ, zero, suc, ◌+◌, Bool, true, false, Option, none, some, List, ◌≡◌, refl, sym, ◌∙◌, subst, arith,
  if_keeps, option_keeps, ℤ, pos, negsuc, pos_part, neg_part, eq_ℤ, eq_ℤ_iff, ltb_ℤ,
}
use masseuse_camlink.Estim.Mastago.Codec.{query_level}
use masseuse_camlink.Estim.Mastago.Device.{Device, Fault}
use masseuse_camlink.Estim.Mastago.Exchange.{Action, Done, query_int}
use masseuse_camlink.Estim.Mastago.Commands.{set_level_raw, level_allowed, pause}
use masseuse_camlink.Estim.Mastago.Ramp.{
  Ended, ends, with_level, is_no_load, poll, nap, suc_ℤ, gap, asked, try_back, read_back,
  ensure_outputting, go_to_zero, climb, settle, stop_unloaded, lower, go_up, ramp,
}
use masseuse_camlink.Estim.Mastago.Writes.{try_keeps}

-- Without an error, the intensity returned is this one.
abbrev pub EndsAt : ℤ → Ended × Device → Type 0
EndsAt target r = r.0.fault ≡ none → r.0.level ≡ target

pub try_back_keeps {κ} :
    (P : Ended × Device → Type κ) (m : Device → Ended × Device)
    (f : ℤ → Fault → Device → Ended × Device) (g : ℤ → Device → Ended × Device) (d : Device)
    → ((n : ℤ) (e : Fault) → (m d).0.fault ≡ some e → P (f n e (m d).1))
    → ((m d).0.fault ≡ none → P (g (m d).0.level (m d).1))
    → P (try_back m f g d)
unfolding try_back
try_back_keeps P m f g d hf hg =
    option_keeps (λ (x : Ended × Device). P x) (m d).0.fault hg λ e h. hf (m d).0.level e h

module _ (pv : List ℕ → Option ℕ) where
  read_back-EndsAt : (n : ℤ) (d : Device) → EndsAt n (read_back pv n d)
  unfolding read_back
  read_back-EndsAt n d =
      try_keeps (λ (r : Ended × Device). EndsAt n r) (query_int pv query_level) d (λ e d' h q. cc)
        λ got d' h. ground (arith, (eq_ℤ_iff got n).0)

  ends_bad : (target n : ℤ) (e : Fault) (d : Device) → EndsAt target (ends n (some e) d)
  ends_bad target n e d h = cc

  with_level-EndsAt : (n : ℤ) (m : Action Done) (d : Device) → EndsAt n (with_level n m d)
  with_level-EndsAt n m d =
      try_keeps (λ (r : Ended × Device). EndsAt n r) m d (λ e d' h q. refl) λ a d' h q. refl

  -- Where `k` steps lead from the intensity below `n`, which was `applied`.
  abbrev LeadsTo : ℤ → ℕ → ℤ → ℤ → Type 0
  LeadsTo target zero applied n = applied ≡ target
  LeadsTo target (suc j) applied n = pos_part n + j + neg_part target ≡ pos_part target + neg_part n

  same_ℤ : (a b : ℤ) → pos_part a + neg_part b ≡ pos_part b + neg_part a → a ≡ b
  same_ℤ (pos a) (pos b) h = ground (arith, h)
  same_ℤ (pos a) (negsuc b) h = absurd (omega (arith, h))
  same_ℤ (negsuc a) (pos b) h = absurd (omega (arith, h))
  same_ℤ (negsuc a) (negsuc b) h = ground (arith, h)

  LeadsTo-suc :
      (target : ℤ) (k : ℕ) (applied got n : ℤ)
      → LeadsTo target (suc k) applied n
      → got ≡ n
      → LeadsTo target k got (suc_ℤ n)
  LeadsTo-suc target zero applied got n h e = e ∙ same_ℤ n target (omega (arith, h))
  LeadsTo-suc target (suc k) applied got (pos n) h e = omega (arith, h)
  LeadsTo-suc target (suc k) applied got (negsuc zero) h e = omega (arith, h)
  LeadsTo-suc target (suc k) applied got (negsuc (suc n)) h e = omega (arith, h)

  pub asked_keeps :
      (P : Ended × Device → Type 0) (q : Device → Bool × Device)
      {k : Bool → Device → Ended × Device} (d : Device)
      → ((b : Bool) (d' : Device) → P (k b d'))
      → P (asked q k d)
  unfolding asked
  asked_keeps P q d h = h (q d).0 (q d).1

  climb-EndsAt :
      (target : ℤ) (k : ℕ) (first : Bool) (applied n : ℤ) (d : Device)
      → LeadsTo target k applied n
      → EndsAt target (climb pv k first applied n d)
  unfolding climb
  climb-EndsAt target zero first applied n d h = λ q. h
  climb-EndsAt target (suc k) first applied n d h =
      let P = λ (r : Ended × Device). EndsAt target r in
      asked_keeps P (nap first) d λ over d1.
        if_keeps (λ (m : Device → Ended × Device). P (m d1)) over (λ e q. cc)
          λ e. asked_keeps P poll d1 λ stop d2.
            if_keeps (λ (m : Device → Ended × Device). P (m d2)) stop (λ e q. cc)
              λ e.
                try_keeps P (set_level_raw pv n) d2 (λ e d' x q. cc)
                  λ a d3 x.
                    try_back_keeps P (read_back pv n) _ _ d3 (λ got e x q. cc)
                      λ x.
                        let r = read_back pv n d3 in
                        climb-EndsAt target k false r.0.level (suc_ℤ n) r.1
                          (LeadsTo-suc target k applied r.0.level n h (read_back-EndsAt n d3 x))

  LeadsTo-from :
      (target current : ℤ) (k : ℕ)
      → pos_part current + k + neg_part target ≡ pos_part target + neg_part current
      → LeadsTo target k current (suc_ℤ current)
  LeadsTo-from target current zero h = same_ℤ current target (omega (arith, h))
  LeadsTo-from target (pos n) (suc j) h = omega (arith, h)
  LeadsTo-from target (negsuc zero) (suc j) h = omega (arith, h)
  LeadsTo-from target (negsuc (suc n)) (suc j) h = omega (arith, h)

  LeadsTo-gap :
      (current target : ℤ)
      → ltb_ℤ target current ≡ false
      → LeadsTo target (gap current target) current (suc_ℤ current)
  LeadsTo-gap current target l = LeadsTo-from target current (gap current target) (ground arith)

  settle-EndsAt : (target : ℤ) (d : Device) → EndsAt target (settle pv target target d)
  unfolding settle
  settle-EndsAt target d =
      if_keeps (λ (m : Device → Ended × Device). EndsAt target (m d)) (eq_ℤ target (pos 0))
        (λ e.
          subst (λ (n : ℤ). EndsAt n (with_level (pos 0) (pause pv) d))
            (sym ((eq_ℤ_iff target (pos 0)).0 e)) (with_level-EndsAt (pos 0) (pause pv) d))
        λ e. with_level-EndsAt target (ensure_outputting pv) d

  stop_unloaded-EndsAt :
      (target : ℤ) (e : Fault) (n : ℤ) (d : Device) → EndsAt target (stop_unloaded pv e n d)
  unfolding stop_unloaded
  stop_unloaded-EndsAt target e n d =
      if_keeps (λ (m : Device → Ended × Device). EndsAt target (m d)) (is_no_load e)
        (λ t.
          try_keeps (λ (r : Ended × Device). EndsAt target r) (pause pv) d (λ p d' x q. cc)
            λ a d' x q. cc)
        λ t q. cc

  lower-EndsAt : (target current : ℤ) (d : Device) → EndsAt target (lower pv target current d)
  unfolding lower
  lower-EndsAt target current d =
      let P = λ (r : Ended × Device). EndsAt target r in
      try_keeps P (set_level_raw pv target) d (λ e d' x. stop_unloaded-EndsAt target e current d')
        λ a d1 x.
          try_back_keeps P (read_back pv target) _ _ d1 (λ got e x q. cc)
            λ x.
              let r = read_back pv target d1 in
              subst (λ (n : ℤ). EndsAt n (with_level r.0.level (ensure_outputting pv) r.1))
                (read_back-EndsAt target d1 x)
                (with_level-EndsAt r.0.level (ensure_outputting pv) r.1)

  go_up-EndsAt :
      (target current : ℤ) (d : Device)
      → ltb_ℤ target current ≡ false
      → EndsAt target (go_up pv target current d)
  unfolding go_up
  go_up-EndsAt target current d l =
      let P = λ (r : Ended × Device). EndsAt target r in
      asked_keeps P poll d λ stop d1.
        if_keeps (λ (m : Device → Ended × Device). P (m d1)) stop (λ e q. cc)
          λ e.
            try_keeps P (ensure_outputting pv) d1 (λ e d' x q. cc)
              λ a d2 x.
                climb-EndsAt target (gap current target) true current (suc_ℤ current) d2
                  (LeadsTo-gap current target l)

  -- If Ramp returns no error, the intensity it returns is its target.
  pub ramp-EndsAt : (target : ℤ) (d : Device) → EndsAt target (ramp pv target d)
  unfolding ramp
  ramp-EndsAt target d =
      let P = λ (r : Ended × Device). EndsAt target r in
      let Q = λ (d : Device) (m : Device → Ended × Device). P (m d) in
      if_keeps (Q d) (level_allowed target)
        (λ ok.
          try_keeps P (query_int pv query_level) d (λ e d' x q. cc)
            λ current d1 x.
              if_keeps (Q d1) (eq_ℤ target current)
                (λ e.
                  subst (λ (n : ℤ). EndsAt target (settle pv target n d1))
                    ((eq_ℤ_iff target current).0 e) (settle-EndsAt target d1))
                λ e.
                  if_keeps (Q d1) (ltb_ℤ target current)
                    (λ l.
                      if_keeps (Q d1) (eq_ℤ target (pos 0))
                        (λ z.
                          subst (λ (n : ℤ). EndsAt n (with_level (pos 0) (go_to_zero pv) d1))
                            (sym ((eq_ℤ_iff target (pos 0)).0 z))
                            (with_level-EndsAt (pos 0) (go_to_zero pv) d1))
                        λ z. lower-EndsAt target current d1)
                    λ l. go_up-EndsAt target current d1 l)
        λ bad q. cc
