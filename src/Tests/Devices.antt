-- ===== src/Tests/Devices.antt =====
-- internal/estim: a runtime with a device that answers every call.
use masseuse_camlink.Prelude.{
  ℕ, List, ◌≡◌, ◌⊎◌, ◌↔◌, refl, true, false, none, some, List, [], ◌∷◌, arith, codes, ℤ, pos,
}
use masseuse_camlink.Estim.Caps.{
  Capabilities, Settings, normal, Command, set_level, check_caps, level_max_for, default_settings,
  level_out_of_range, between, default_settings_for, has_power_mode,
}
use masseuse_camlink.Estim.Within.{IsWithin, check_caps_iff}
use masseuse_camlink.Estim.Runtime.Release.{release, health_check, open_device}
use masseuse_camlink.Estim.Runtime.Actuation.{arm, execute}
use masseuse_camlink.Estim.Runtime.Events.{Event, opens, arms, runs, step, run, fresh, IsSafe}
use masseuse_camlink.Estim.Runtime.Safety.{run_fresh-IsSafe}
use masseuse_camlink.Estim.Runtime.Latch.{
  commands, run-cancelled, release-closed, release-failed, health_check-lost,
}
use masseuse_camlink.Estim.Finders.{Attempt, lacks, fails, find, find_from, unusable}
use masseuse_camlink.Estim.Runtime.Window.{run-execute_late}
use masseuse_camlink.Estim.Runtime.Given.{InForce, Actuated, execute-Actuated}
use masseuse_camlink.Estim.Runtime.State.{
  disconnected_status, Fault, good, bad, Device, released, armed, executed, closed, Runtime, Io,
  device_fault, is_held, is_armed, status_of, request_cancel,
}

abbrev caps : Capabilities
caps = record {
  level_max = pos 60;
  modes = pos 1 ∷ pos 2 ∷ [];
  tempo = false;
  power_modes = [];
  level_max_default = pos 0;
}

abbrev device : Device
device = record { kind = []; label = []; port = []; caps = caps; held = false; renews = false }

-- Every call succeeds, at this time.
abbrev at_time : ℕ → Io
at_time t = record {
  now = t;
  later = t;
  ctx_ended = false;
  release = none;
  arm = none;
  execute = none;
  renew = none;
  close = none;
  reading = λ _. good disconnected_status;
}

abbrev lost : Fault
lost = record { text = codes "no reply"; loss = none }

-- The device does not answer.
abbrev silent : Io
silent = record (at_time 5) { release = some lost; reading = λ _. bad lost }

abbrev level : ℤ → Command
level n = record { verb = set_level; mode = none; level = some n; delta = none; percent = none }

abbrev session : List Event
session =
    opens (at_time 1) (some (good device))
    ∷ arms (at_time 2)
    ∷ runs (at_time 3) (level (pos 40))
    ∷ []

-- One command reaches the device, with its own level maximum.
session_calls :
    (run session (fresh 0)).calls
    ≡ executed (level (pos 40)) (pos 60) ∷ armed normal ∷ released ∷ released ∷ []
unfolding run step open_device arm execute check_caps level_max_for between default_settings_for
    has_power_mode
session_calls = refl

run_fresh-IsSafe_example : IsSafe (run session (fresh 0)).calls
run_fresh-IsSafe_example = run_fresh-IsSafe 0 session

abbrev in_session : Runtime
unfolding run step open_device arm execute check_caps level_max_for between default_settings_for
    has_power_mode
in_session = run session (fresh 0)

run-cancelled_example :
    ((run (runs (at_time 4) (level (pos 10)) ∷ []) (request_cancel in_session)).cancel ≡ true)
    × (commands (run (runs (at_time 4) (level (pos 10)) ∷ []) (request_cancel in_session)).calls
        ≡ commands in_session.calls)
run-cancelled_example = run-cancelled (runs (at_time 4) (level (pos 10)) ∷ []) in_session (refl, tt)

run-execute_late_example :
    commands (execute (at_time 1_800_000_000_002) (level (pos 10)) (run session (fresh 0))).0.calls
    ≡ commands (run session (fresh 0)).calls
run-execute_late_example =
    run-execute_late 0 2 session (at_time 1_800_000_000_002) (level (pos 10))
      (tt, (omega arith, (tt, tt))) (omega arith)

held_device : in_session.device ≡ some device
unfolding in_session
held_device = refl

execute-Actuated_example :
    (s : Settings) × InForce in_session s
    × Actuated (at_time 4) (level (pos 70)) device in_session s
execute-Actuated_example =
    execute-Actuated (at_time 4) (level (pos 70)) device in_session refl held_device

release-closed_example :
    ((release silent in_session).0.cancel ≡ true)
    × ((release silent in_session).0.arm_deadline ≡ none)
    × ((in_session.device ≡ none) × ((release silent in_session).0.calls ≡ in_session.calls)
        ⊎ ((release silent in_session).0.device ≡ in_session.device)
          × ((release silent in_session).0.calls ≡ released ∷ in_session.calls)
        ⊎ ((release silent in_session).0.device ≡ none)
          × ((release silent in_session).0.calls ≡ closed false ∷ released ∷ in_session.calls))
release-closed_example = release-closed silent in_session

silent_release : (release silent in_session).1 ≡ some (device_fault lost)
unfolding in_session release
silent_release = refl

release-failed_example :
    ((release silent in_session).0.device ≡ none)
    × ((status_of (release silent in_session).0).level_a ≡ none)
    × ((status_of (release silent in_session).0).level_b ≡ none)
    × ((status_of (release silent in_session).0).adc_override ≡ none)
    × ((status_of (release silent in_session).0).ma_pot_override ≡ none)
    × ((lost.loss ≡ none)
          × ((release silent in_session).0.last.reason ≡ some (codes "stopped_answering"))
        ⊎ ((code : List ℕ) × (lost.loss ≡ some code)
            × ((release silent in_session).0.last.reason ≡ some code)))
release-failed_example = release-failed silent in_session lost refl silent_release

silent_check : (is_held in_session.device ≡ true) × ((health_check silent in_session).1 ≡ false)
unfolding in_session health_check
silent_check = (refl, refl)

health_check-lost_example :
    (false ≡ false)
    × Unit {0}
    × Unit {0}
    × ((is_armed 5 in_session ≡ true) ⊎ Unit {0})
    × ((health_check silent in_session).0.device ≡ none)
    × ((health_check silent in_session).0.calls ≡ closed false ∷ released ∷ in_session.calls)
    × ((health_check silent in_session).0.cancel ≡ true)
    × ((health_check silent in_session).0.arm_deadline ≡ none)
health_check-lost_example = health_check-lost silent in_session silent_check.0 silent_check.1

-- Past the device's maximum, though not past the session's.
level_refused : check_caps (level (pos 61)) caps default_settings ≡ some level_out_of_range
unfolding check_caps between
level_refused = refl

check_caps_iff_example :
    (check_caps (level (pos 60)) caps default_settings ≡ none)
    ↔ IsWithin set_level (level (pos 60)) caps default_settings
check_caps_iff_example = check_caps_iff (level (pos 60)) caps default_settings

-- Families that find nothing, a unit that is out of order, and one that answers.
abbrev attempts : List (Attempt ℕ ℕ)
attempts = lacks 1 false ∷ fails 2 false ∷ []

attempts_fail : find attempts ≡ unusable 2
unfolding find find_from
attempts_fail = refl
