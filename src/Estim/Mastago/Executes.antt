-- ===== src/Estim/Mastago/Executes.antt =====
-- internal/estim/mastago/driver.go, `Execute`: what the driver writes for a command of the service.
use masseuse_camlink.Prelude.{
  ℕ, Option, none, some, List, refl, arith, ℤ, pos, ltb_ℤ, min_ℤ, max_ℤ, ◌≤ℤ◌,
}
use masseuse_camlink.Estim.Caps
use masseuse_camlink.Estim.Caps.{Command, Verb, between, is_step, level_delta_cap}
use masseuse_camlink.Estim.Mastago.Codec.{query_level, level_max, mode_allowed}
use masseuse_camlink.Estim.Mastago.Device.{Device}
use masseuse_camlink.Estim.Mastago.Driver.{
  ramp_with, top_level, add_int, bring_back, execute_mode, execute_level, execute_delta,
  execute_verb, execute,
}
use masseuse_camlink.Estim.Mastago.Limits.{IsPermitted, Keeps, asks_level, Keeps-set_mode}
use masseuse_camlink.Estim.Mastago.Capped.{Keeps-ramp}
use masseuse_camlink.Estim.Mastago.Writes.{
  Sends, Writes-none, Writes-try, Writes-if, Writes-query_int,
}

module _ (pv : List ℕ → Option ℕ) (top : ℤ) (z : pos 0 ≤ℤ top) where
  Keeps-ramped :
      (m before : Option ℤ) (target : ℤ)
      → target ≤ℤ top
      → Keeps pv top (ramp_with pv m before target)
  unfolding ramp_with
  Keeps-ramped m before target h = record { sends = (Keeps-ramp pv top target z h).sends }

  Keeps-bring_back : (m before : ℤ) → Keeps pv top (bring_back pv m before top)
  unfolding bring_back
  Keeps-bring_back m before =
      Writes-if (ltb_ℤ (pos 0) before)
        (λ e. Keeps-ramped (some m) none (min_ℤ before top) (ground arith))
        λ e. Writes-none λ d. refl

  Keeps-execute_mode : (m : Option ℤ) → Keeps pv top (execute_mode pv m top)
  unfolding execute_mode
  Keeps-execute_mode none = Writes-none λ d. refl
  Keeps-execute_mode (some m) =
      Writes-if (mode_allowed m)
        (λ e.
          Writes-try (Writes-query_int pv query_level asks_level) (λ e. Writes-none λ d. refl)
            λ before.
              Writes-try (Keeps-set_mode pv top m) (λ e. Writes-none λ d. refl)
                λ a. Keeps-bring_back m before)
        λ e. Writes-none λ d. refl

  Keeps-execute_level : (n : Option ℤ) → Keeps pv top (execute_level pv n top)
  unfolding execute_level
  Keeps-execute_level none = Writes-none λ d. refl
  Keeps-execute_level (some n) =
      Writes-if (between (pos 0) top (some n))
        (λ e. Keeps-ramped none none n (unfold between in ground arith)) λ e. Writes-none λ d. refl

  Keeps-execute_delta : (n : Option ℤ) → Keeps pv top (execute_delta pv n top)
  unfolding execute_delta
  Keeps-execute_delta none = Writes-none λ d. refl
  Keeps-execute_delta (some n) =
      Writes-if (is_step level_delta_cap (some n))
        (λ e.
          Writes-try (Writes-query_int pv query_level asks_level) (λ e. Writes-none λ d. refl)
            λ current.
              Keeps-ramped none (some current) (max_ℤ (pos 0) (min_ℤ (add_int current n) top))
                (ground arith))
        λ e. Writes-none λ d. refl

  Keeps-execute_verb : (v : Verb) (cmd : Command) → Keeps pv top (execute_verb pv v cmd top)
  unfolding execute_verb
  Keeps-execute_verb Caps.set_mode cmd = Keeps-execute_mode cmd.mode
  Keeps-execute_verb Caps.set_level cmd = Keeps-execute_level cmd.level
  Keeps-execute_verb Caps.adjust_level cmd = Keeps-execute_delta cmd.delta
  Keeps-execute_verb Caps.status cmd = Writes-none λ d. refl
  Keeps-execute_verb Caps.release cmd = Writes-none λ d. refl
  Keeps-execute_verb Caps.set_ma cmd = Writes-none λ d. refl
  Keeps-execute_verb Caps.adjust_ma cmd = Writes-none λ d. refl
  Keeps-execute_verb (Caps.unsupported v) cmd = Writes-none λ d. refl

top_level-bounds : (cap : ℤ) → (pos 0 ≤ℤ top_level cap) × (top_level cap ≤ℤ level_max)
top_level-bounds cap = ground arith

-- Whatever the unit answers and whenever the link or the context ends: for a command the driver
-- writes nothing but queries, start and pause, programs of the unit, countdowns, and intensities
-- from 0 to the cap it is given, which is at most the unit's 25.
pub execute-IsPermitted :
    (pv : List ℕ → Option ℕ) (cmd : Command) (cap : ℤ) (d : Device)
    → (top_level cap ≤ℤ level_max) × Sends (IsPermitted (top_level cap)) d (execute pv cmd cap d).1
unfolding execute
execute-IsPermitted pv cmd cap d =
    let (z, m) = top_level-bounds cap in
    (m, (Keeps-execute_verb pv (top_level cap) z cmd.verb cmd).sends d)
