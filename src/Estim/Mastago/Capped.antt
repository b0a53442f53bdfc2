-- ===== src/Estim/Mastago/Capped.antt =====
-- internal/estim/mastago: the ramp and what the driver executes keep to the cap.
use masseuse_camlink.Prelude.{
  ℕ, zero, suc, ◌+◌, ◌≤◌, Bool, true, false, Option, List, ◌≡◌, refl, arith, option_keeps, ℤ, pos,
  negsuc, pos_part, neg_part, eq_ℤ, ltb_ℤ, ◌≤ℤ◌,
}
use masseuse_camlink.Estim.Mastago.Codec.{query_level}
use masseuse_camlink.Estim.Mastago.Device.{Device, Fault}
use masseuse_camlink.Estim.Mastago.Exchange.{Action, Done}
use masseuse_camlink.Estim.Mastago.Commands.{level_allowed}
use masseuse_camlink.Estim.Mastago.Ramp.{
  Ended, with_level, is_no_load, nap, suc_ℤ, gap, asked, try_back, climb, settle, stop_unloaded,
  lower, go_up, ramp,
}
use masseuse_camlink.Estim.Mastago.Limits.{
  IsPermitted, Keeps, asks_level, Keeps-pause, Keeps-set_level_raw, Keeps-read_back,
  Keeps-ensure_outputting, Keeps-go_to_zero,
}
use masseuse_camlink.Estim.Mastago.Writes.{
  Sends, Sends-trans, Writes-none, Writes-try, Writes-if, Writes-query_int,
}

nap-sent : (first : Bool) (d : Device) → (nap first d).1.sent ≡ d.sent
nap-sent true d = refl
nap-sent false d = refl

module _ (pv : List ℕ → Option ℕ) (top : ℤ) where
  Keeps-asked :
      {q : Device → Bool × Device} {k : Bool → Device → Ended × Device}
      → Keeps pv top q
      → ((b : Bool) → Keeps pv top (k b))
      → Keeps pv top (asked q k)
  unfolding asked
  Keeps-asked {q} {k} hq hk = record {
    sends = λ d. let r = q d in Sends-trans _ d r.1 (k r.0 r.1).1 (hq.sends d) ((hk r.0).sends r.1);
  }

  Keeps-try_back :
      {m : Device → Ended × Device} {f : ℤ → Fault → Device → Ended × Device}
      {g : ℤ → Device → Ended × Device}
      → Keeps pv top m
      → ((n : ℤ) (e : Fault) → Keeps pv top (f n e))
      → ((n : ℤ) → Keeps pv top (g n))
      → Keeps pv top (try_back m f g)
  unfolding try_back
  Keeps-try_back {m} {f} {g} hm hf hg = record {
    sends = λ d.
        let r : Ended × Device = m d in
        option_keeps (λ (x : Ended × Device). Sends (IsPermitted top) d x.1) r.0.fault
          (λ e. Sends-trans _ d r.1 (g r.0.level r.1).1 (hm.sends d) ((hg r.0.level).sends r.1))
          λ e t.
            Sends-trans _ d r.1 (f r.0.level e r.1).1 (hm.sends d) ((hf r.0.level e).sends r.1);
  }

  Keeps-with_level : (n : ℤ) {m : Action Done} → Keeps pv top m → Keeps pv top (with_level n m)
  Keeps-with_level n h = Writes-try h (λ e. Writes-none λ d. refl) λ a. Writes-none λ d. refl

  -- The last of `k` steps from `n` on is not above the cap.
  abbrev Reaches : ℕ → ℤ → Type 0
  Reaches k n = pos_part n + k + neg_part top ≤ suc (pos_part top + neg_part n)

  Reaches-suc : (k : ℕ) (n : ℤ) → Reaches (suc k) n → Reaches k (suc_ℤ n)
  Reaches-suc k (pos n) h = omega (arith, h)
  Reaches-suc k (negsuc zero) h = omega (arith, h)
  Reaches-suc k (negsuc (suc n)) h = omega (arith, h)

  Keeps-climb :
      (k : ℕ) (first : Bool) (applied n : ℤ)
      → Reaches k n
      → Keeps pv top (climb pv k first applied n)
  unfolding climb
  Keeps-climb zero first applied n h = Writes-none λ d. refl
  Keeps-climb (suc k) first applied n h = Keeps-asked (Writes-none (nap-sent first)) λ over.
      Writes-if over (λ e. Writes-none λ d. refl)
        λ e. Keeps-asked (Writes-none λ d. refl) λ stop.
          Writes-if stop (λ e. Writes-none λ d. refl)
            λ e.
              Writes-try (Keeps-set_level_raw pv top n (omega arith)) (λ e. Writes-none λ d. refl)
                λ a.
                  Keeps-try_back (Keeps-read_back pv top n) (λ got e. Writes-none λ d. refl)
                    λ got. Keeps-climb k false got (suc_ℤ n) (Reaches-suc k n h)

  Reaches-gap :
      (current target : ℤ)
      → target ≤ℤ top
      → ltb_ℤ target current ≡ false
      → eq_ℤ target current ≡ false
      → Reaches (gap current target) (suc_ℤ current)
  Reaches-gap (pos n) (pos m) h l e = ground arith
  Reaches-gap (pos n) (negsuc m) h l e = ground arith
  Reaches-gap (negsuc zero) (pos m) h l e = ground arith
  Reaches-gap (negsuc (suc n)) (pos m) h l e = ground arith
  Reaches-gap (negsuc zero) (negsuc m) h l e = ground arith
  Reaches-gap (negsuc (suc n)) (negsuc m) h l e = ground arith

  Keeps-settle : (target current : ℤ) → Keeps pv top (settle pv target current)
  unfolding settle
  Keeps-settle target current =
      Writes-if _ (λ e. Keeps-with_level (pos 0) (Keeps-pause pv top))
        λ e. Keeps-with_level current (Keeps-ensure_outputting pv top)

  Keeps-stop_unloaded : (e : Fault) (current : ℤ) → Keeps pv top (stop_unloaded pv e current)
  unfolding stop_unloaded
  Keeps-stop_unloaded e current =
      Writes-if (is_no_load e)
        (λ t.
          Writes-try (Keeps-pause pv top) (λ p. Writes-none λ d. refl) λ a. Writes-none λ d. refl)
        λ t. Writes-none λ d. refl

  Keeps-lower : (target current : ℤ) → target ≤ℤ top → Keeps pv top (lower pv target current)
  unfolding lower
  Keeps-lower target current h =
      Writes-try (Keeps-set_level_raw pv top target h) (λ e. Keeps-stop_unloaded e current)
        λ a.
          Keeps-try_back (Keeps-read_back pv top target) (λ got e. Writes-none λ d. refl)
            λ got. Keeps-with_level got (Keeps-ensure_outputting pv top)

  Keeps-go_up :
      (target current : ℤ)
      → Reaches (gap current target) (suc_ℤ current)
      → Keeps pv top (go_up pv target current)
  unfolding go_up
  Keeps-go_up target current h = Keeps-asked (Writes-none λ d. refl) λ stop.
      Writes-if stop (λ e. Writes-none λ d. refl)
        λ e.
          Writes-try (Keeps-ensure_outputting pv top) (λ e. Writes-none λ d. refl)
            λ a. Keeps-climb (gap current target) true current (suc_ℤ current) h

  pub Keeps-ramp : (target : ℤ) → pos 0 ≤ℤ top → target ≤ℤ top → Keeps pv top (ramp pv target)
  unfolding ramp
  Keeps-ramp target z h =
      Writes-if (level_allowed target)
        (λ ok.
          Writes-try (Writes-query_int pv query_level asks_level) (λ e. Writes-none λ d. refl)
            λ current.
              Writes-if (eq_ℤ target current) (λ e. Keeps-settle target current)
                λ e.
                  Writes-if (ltb_ℤ target current)
                    (λ l.
                      Writes-if (eq_ℤ target (pos 0))
                        (λ t. Keeps-with_level (pos 0) (Keeps-go_to_zero pv top z))
                        λ t. Keeps-lower target current h)
                    λ l. Keeps-go_up target current (Reaches-gap current target h l e))
        λ bad. Writes-none λ d. refl
