-- ===== src/Estim/Mastago/Ramp.antt =====
-- internal/estim/mastago/device.go: the ramp, the fail-closed release, and what they are made of.
use masseuse_camlink.Prelude.{
  ℕ, zero, suc, ◌+◌, ◌-◌, Bool, true, false, Option, none, some, List, [], ◌∷◌, ◌==◌, if◌then◌else◌,
  ℤ, pos, negsuc, pos_part, neg_part, eq_ℤ, ltb_ℤ,
}
use masseuse_camlink.Estim.Mastago.Codec.{no_load}
use masseuse_camlink.Estim.Mastago.Device.{
  Device, Fault, refused, ctx_done, cancelled, still_outputting, not_allowed, read_back_as,
}
use masseuse_camlink.Estim.Mastago.Exchange.{Done, done, Action, try, raise, pure, ◌>>=◌}
use masseuse_camlink.Estim.Mastago.Commands.{
  level, outputting, resume, pause, set_level_raw, level_allowed,
}

-- What a ramp returns: an intensity, beside the error if there is one.
pub record Ended : Type 0 where
  pub level : ℤ
  pub fault : Option Fault

abbrev pub ends : ℤ → Option Fault → Device → Ended × Device
ends n e d = (record { level = n; fault = e }, d)

abbrev pub with_level : ℤ → Action Done → Device → Ended × Device
with_level n m = try m (λ e. ends n (some e)) (λ a. ends n none)

unfoldable pub try_back :
    (Device → Ended × Device)
    → (ℤ → Fault → Device → Ended × Device)
    → (ℤ → Device → Ended × Device)
    → Device
    → Ended × Device
try_back m f g d =
    let (r, d') = m d in elim r.fault [ some e ↦ f r.level e d' | none ↦ g r.level d' ]

-- `IsNoLoad`.
abbrev pub is_no_load : Fault → Bool
is_no_load (refused cmd code raw) = code == no_load
is_no_load e = false

-- `cancelled()` is asked; a wait between two steps, and whether the context ended in it.
abbrev pub head_or_false : List Bool → Bool
head_or_false [] = false
head_or_false (b ∷ bs) = b

abbrev pub rest : List Bool → List Bool
rest [] = []
rest (b ∷ bs) = bs

abbrev pub poll : Device → Bool × Device
poll d = (head_or_false d.polls, record d { polls = rest d.polls })

abbrev pub nap : Bool → Device → Bool × Device
nap true d = (false, d)
nap false d = (head_or_false d.sleeps, record d { sleeps = rest d.sleeps })

abbrev pub suc_ℤ : ℤ → ℤ
suc_ℤ (pos n) = pos (suc n)
suc_ℤ (negsuc zero) = pos 0
suc_ℤ (negsuc (suc n)) = negsuc n

-- How a caller goes on after one of the two.
unfoldable pub asked :
    (Device → Bool × Device) → (Bool → Device → Ended × Device) → Device → Ended × Device
asked q k d = let (b, d') = q d in k b d'

-- The steps from one intensity up to another.
abbrev pub gap : ℤ → ℤ → ℕ
gap low high = (pos_part high + neg_part low) - (pos_part low + neg_part high)

module _ (parse_volts : List ℕ → Option ℕ) where
  -- `readBack`.
  unfoldable pub read_back : ℤ → Device → Ended × Device
  read_back want =
      try (level parse_volts) (λ e. ends (pos 0) (some e))
        λ got. ends got (if eq_ℤ got want then none else some (read_back_as got))

  -- `ensureOutputting`.
  unfoldable pub ensure_outputting : Action Done
  unfolding outputting resume
  ensure_outputting = do on ← outputting parse_volts; if on then pure done else resume parse_volts

  unfoldable pub confirm_paused : Action Done
  unfolding outputting
  confirm_paused = do on ← outputting parse_volts; if on then raise still_outputting else pure done

  unfoldable pub zero_level : Action Done
  unfolding set_level_raw confirm_paused
  zero_level =
      try (set_level_raw parse_volts (pos 0))
        (λ e. if is_no_load e then confirm_paused else raise e) pure

  -- `zero`, and `Release`.
  unfoldable pub go_to_zero : Action Done
  unfolding pause zero_level
  go_to_zero = do a ← pause parse_volts; zero_level

  unfoldable pub release : Action Done
  unfolding go_to_zero confirm_paused
  release = do a ← go_to_zero; confirm_paused

  -- The loop upward: `k` steps left, `n` the next one.
  unfoldable pub climb : ℕ → Bool → ℤ → ℤ → Device → Ended × Device
  unfolding set_level_raw read_back
  climb zero first applied n = ends applied none
  climb (suc k) first applied n = asked (nap first) λ over.
      if over
      then ends applied (some ctx_done)
      else asked poll λ stop.
        if stop
        then ends applied (some cancelled)
        else try (set_level_raw parse_volts n) (λ e. ends applied (some e))
            λ a.
              try_back (read_back n) (λ got e. ends applied (some e))
                λ got. climb k false got (suc_ℤ n)

  -- The four cases of `Ramp`.
  unfoldable pub settle : ℤ → ℤ → Device → Ended × Device
  unfolding ensure_outputting pause
  settle target current =
      if eq_ℤ target (pos 0)
      then with_level (pos 0) (pause parse_volts)
      else with_level current ensure_outputting

  unfoldable pub stop_unloaded : Fault → ℤ → Device → Ended × Device
  unfolding pause
  stop_unloaded e current =
      if is_no_load e
      then try (pause parse_volts) (λ p. ends current (some p)) (λ a. ends current (some e))
      else ends current (some e)

  unfoldable pub lower : ℤ → ℤ → Device → Ended × Device
  unfolding set_level_raw read_back ensure_outputting stop_unloaded
  lower target current =
      try (set_level_raw parse_volts target) (λ e. stop_unloaded e current)
        λ a.
          try_back (read_back target) (λ got e. ends got (some e))
            λ got. with_level got ensure_outputting

  unfoldable pub go_up : ℤ → ℤ → Device → Ended × Device
  unfolding ensure_outputting climb
  go_up target current = asked poll λ stop.
      if stop
      then ends current (some cancelled)
      else try ensure_outputting (λ e. ends current (some e))
          λ a. climb (gap current target) true current (suc_ℤ current)

  unfoldable pub ramp_from : ℤ → ℤ → Device → Ended × Device
  unfolding settle go_to_zero lower go_up
  ramp_from target current =
      if eq_ℤ target current
      then settle target current
      else if ltb_ℤ target current
      then (if eq_ℤ target (pos 0) then with_level (pos 0) go_to_zero else lower target current)
      else go_up target current

  -- `Ramp`.
  unfoldable pub ramp : ℤ → Device → Ended × Device
  unfolding ramp_from
  ramp target =
      if level_allowed target
      then try (level parse_volts) (λ e. ends (pos 0) (some e)) (ramp_from target)
      else ends (pos 0) (some not_allowed)
