-- ===== src/Estim/Mastago/Commands.antt =====
-- internal/estim/mastago/device.go: the queries and the settings.
use masseuse_camlink.Prelude.{
  ℕ, Bool, true, false, not, ◌&&◌, Option, none, some, List, if◌then◌else◌, ℤ, pos, eq_ℤ, leb_ℤ,
}
use masseuse_camlink.Estim.Mastago.Codec.{
  level_max, mode_allowed, clamp_timer, cmd_start, cmd_pause, query_mode, query_level, query_timer,
  query_paused, query_battery, query_load, cmd_set_mode, cmd_set_level, cmd_set_timer, parse_hhmmss,
}
use masseuse_camlink.Estim.Mastago.Device.{State, not_allowed, odd_answer}
use masseuse_camlink.Estim.Mastago.Exchange.{
  Done, done, Action, raise, pure, ◌>>=◌, exchange, set, query_int,
}

abbrev pub modify : (State → State) → Action Done
modify f d = pure done (record d { st = f d.st })

-- `SetLevelRaw` and `Ramp` refuse other intensities.
abbrev pub level_allowed : ℤ → Bool
level_allowed n = leb_ℤ (pos 0) n && leb_ℤ n level_max

stamp_timer : ℤ → Action Done
stamp_timer seconds d = pure done (record d {
  st = record d.st { timer_remaining_s = some (clamp_timer seconds); timer_read_at = some d.now };
})

module _ (parse_volts : List ℕ → Option ℕ) where
  -- `Mode`, `Level`, `Outputting`, `Timer`, `Battery` and `Load`.
  abbrev pub mode : Action ℤ
  mode = query_int parse_volts query_mode

  abbrev pub level : Action ℤ
  level = query_int parse_volts query_level

  unfoldable pub outputting : Action Bool
  outputting = do n ← query_int parse_volts query_paused; pure (eq_ℤ n (pos 0))

  unfoldable pub timer : Action ℤ
  timer = do
    r ← exchange parse_volts query_timer true
    elim (parse_hhmmss r.content) [ none ↦ raise (odd_answer query_timer) | some s ↦ pure s ]

  unfoldable pub battery : Action ℕ
  battery = do
    r ← exchange parse_volts query_battery true
    elim (parse_volts r.content) [ none ↦ raise (odd_answer query_battery) | some v ↦ pure v ]

  unfoldable pub load : Action Bool
  load = do n ← query_int parse_volts query_load; pure (not (eq_ℤ n (pos 0)))

  -- `Resume` and `Pause`.
  unfoldable pub resume : Action Done
  resume = do a ← set parse_volts cmd_start; modify (λ st. record st { outputting = some true })

  unfoldable pub pause : Action Done
  pause = do a ← set parse_volts cmd_pause; modify (λ st. record st { outputting = some false })

  -- `SetMode`, `SetLevelRaw` and `SetTimer`.
  change_mode : ℤ → Action Done
  unfolding pause cmd_set_mode
  change_mode m = do
    a ← pause
    b ← set parse_volts (cmd_set_mode m)
    modify (λ st. record st { mode = some m })

  unfoldable pub set_mode : ℤ → Action Done
  unfolding change_mode
  set_mode m = if mode_allowed m then change_mode m else raise not_allowed

  write_level : ℤ → Action Done
  unfolding cmd_set_level
  write_level n = do
    a ← set parse_volts (cmd_set_level n)
    modify (λ st. record st { level = some n })

  unfoldable pub set_level_raw : ℤ → Action Done
  unfolding write_level
  set_level_raw n = if level_allowed n then write_level n else raise not_allowed

  unfoldable pub set_timer : ℤ → Action Done
  unfolding cmd_set_timer stamp_timer
  set_timer seconds = do a ← set parse_volts (cmd_set_timer seconds); stamp_timer seconds
