-- ===== src/Estim/Mastago/Limits.antt =====
-- internal/estim/mastago: no operation writes an intensity above the cap, or a program that is none.
use masseuse_camlink.Prelude.{ℕ, Option, List, refl, arith, ℤ, pos, ◌≤ℤ◌}
use masseuse_camlink.Estim.Mastago.Codec.{
  mode_allowed, cmd_start, cmd_pause, query_mode, query_level, query_timer, query_paused,
  query_battery, query_load, cmd_set_mode, cmd_set_level, cmd_set_timer, mode_max,
}
use masseuse_camlink.Estim.Mastago.Device.{Device}
use masseuse_camlink.Estim.Mastago.Commands.{
  outputting, resume, pause, set_mode, set_level_raw, level_allowed,
}
use masseuse_camlink.Estim.Mastago.Ramp.{
  read_back, ensure_outputting, confirm_paused, zero_level, go_to_zero, release, is_no_load,
}
use masseuse_camlink.Estim.Mastago.Writes.{
  Writes, Writes-none, Writes-try, Writes-if, Writes-set, Writes-query_int,
}

-- The commands that an operation may write under a cap on the intensity: queries, start and pause, a
-- program of the unit, a countdown, an intensity from 0 to the cap.
pub data IsPermitted (top : ℤ) : List ℕ → Type 0 where
  asks_mode : IsPermitted top query_mode
  asks_level : IsPermitted top query_level
  asks_timer : IsPermitted top query_timer
  asks_paused : IsPermitted top query_paused
  asks_battery : IsPermitted top query_battery
  asks_load : IsPermitted top query_load
  starts : IsPermitted top cmd_start
  pauses : IsPermitted top cmd_pause
  sets_mode : (m : ℤ) → pos 0 ≤ℤ m → m ≤ℤ mode_max → IsPermitted top (cmd_set_mode m)
  sets_level : (n : ℤ) → pos 0 ≤ℤ n → n ≤ℤ top → IsPermitted top (cmd_set_level n)
  sets_timer : (s : ℤ) → IsPermitted top (cmd_set_timer s)

module _ (pv : List ℕ → Option ℕ) (top : ℤ) where
  abbrev pub Keeps {ℓ} : {X : Type ℓ} → (Device → X × Device) → Type 0
  Keeps m = Writes (IsPermitted top) m

  pub Keeps-outputting : Keeps (outputting pv)
  unfolding outputting
  Keeps-outputting =
      Writes-try (Writes-query_int pv query_paused asks_paused) (λ e. Writes-none λ d. refl)
        λ n. Writes-none λ d. refl

  pub Keeps-resume : Keeps (resume pv)
  unfolding resume
  Keeps-resume =
      Writes-try (Writes-set pv cmd_start starts) (λ e. Writes-none λ d. refl)
        λ a. Writes-none λ d. refl

  pub Keeps-pause : Keeps (pause pv)
  unfolding pause
  Keeps-pause =
      Writes-try (Writes-set pv cmd_pause pauses) (λ e. Writes-none λ d. refl)
        λ a. Writes-none λ d. refl

  pub Keeps-set_mode : (m : ℤ) → Keeps (set_mode pv m)
  unfolding set_mode
  Keeps-set_mode m =
      Writes-if (mode_allowed m)
        (λ e.
          Writes-try Keeps-pause (λ e. Writes-none λ d. refl)
            λ a.
              Writes-try
                (Writes-set pv (cmd_set_mode m) (sets_mode m (ground arith) (ground arith)))
                (λ e. Writes-none λ d. refl) λ b. Writes-none λ d. refl)
        λ e. Writes-none λ d. refl

  pub Keeps-set_level_raw : (n : ℤ) → n ≤ℤ top → Keeps (set_level_raw pv n)
  unfolding set_level_raw
  Keeps-set_level_raw n h =
      Writes-if (level_allowed n)
        (λ e.
          Writes-try (Writes-set pv (cmd_set_level n) (sets_level n (ground arith) h))
            (λ e. Writes-none λ d. refl) λ b. Writes-none λ d. refl)
        λ e. Writes-none λ d. refl

  pub Keeps-read_back : (n : ℤ) → Keeps (read_back pv n)
  unfolding read_back
  Keeps-read_back n =
      Writes-try (Writes-query_int pv query_level asks_level) (λ e. Writes-none λ d. refl)
        λ got. Writes-none λ d. refl

  pub Keeps-ensure_outputting : Keeps (ensure_outputting pv)
  unfolding ensure_outputting
  Keeps-ensure_outputting =
      Writes-try Keeps-outputting (λ e. Writes-none λ d. refl)
        λ on. Writes-if on (λ e. Writes-none λ d. refl) (λ e. Keeps-resume)

  Keeps-confirm_paused : Keeps (confirm_paused pv)
  unfolding confirm_paused
  Keeps-confirm_paused =
      Writes-try Keeps-outputting (λ e. Writes-none λ d. refl)
        λ on. Writes-if on (λ e. Writes-none λ d. refl) (λ e. Writes-none λ d. refl)

  pub Keeps-go_to_zero : pos 0 ≤ℤ top → Keeps (go_to_zero pv)
  unfolding go_to_zero zero_level
  Keeps-go_to_zero h =
      Writes-try Keeps-pause (λ e. Writes-none λ d. refl)
        λ a.
          Writes-try (Keeps-set_level_raw (pos 0) h)
            (λ e. Writes-if (is_no_load e) (λ t. Keeps-confirm_paused) (λ t. Writes-none λ d. refl))
            λ b. Writes-none λ d. refl

  pub Keeps-release : pos 0 ≤ℤ top → Keeps (release pv)
  unfolding release
  Keeps-release h =
      Writes-try (Keeps-go_to_zero h) (λ e. Writes-none λ d. refl) λ a. Keeps-confirm_paused
