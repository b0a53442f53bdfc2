-- ===== src/Tests/Links.antt =====
-- internal/estim/session.go: a service that attaches a session to a device.
use masseuse_camlink.Prelude.{
  ℕ, ◌-◌, ◌≡◌, ◌≤◌, ◌⊎◌, refl, Bool, true, false, none, some, List, [], ◌∷◌, arith, ℤ, pos, codes,
  length, drop, same_text, replicate,
}
use masseuse_camlink.Estim.Caps.{
  Capabilities, Settings, set_level, Command, normal, check_caps, between, default_settings_for,
  has_power_mode, validate, same_mode,
}
use masseuse_camlink.Estim.Runtime.State.{
  Device, Io, good, disconnected_status, is_armed, armed, released, executed, reset_settings,
}
use masseuse_camlink.Estim.Runtime.Release.{open_device, release, set_settings}
use masseuse_camlink.Estim.Runtime.Actuation.{arm, execute}
use masseuse_camlink.Estim.Runtime.Events.{opens, IsSafe, fresh}
use masseuse_camlink.Estim.Runtime.Events
use masseuse_camlink.Estim.Runtime.Latch.{commands}
use masseuse_camlink.Estim.Session.Outbox.{
  Queued, trim, drop_one, lose, telemetry_count, max_outbox,
}
use masseuse_camlink.Estim.Session.Trimmed.{trim-lose}
use masseuse_camlink.Estim.Session.State.{text, parsed, queue, Message, heartbeat}
use masseuse_camlink.Estim.Session.Handle.{
  companion_attached, device_command, device_settings, control, handle, detach, tick,
}
use masseuse_camlink.Estim.Session.Tasks.{run_some}
use masseuse_camlink.Estim.Session.Flush.{Messages}
use masseuse_camlink.Estim.Session.Steps.{
  System, Step, handles, ticks, operates, proceeds, flushes, detaches, step, run, new_system,
}
use masseuse_camlink.Estim.Session.Driving.{Leads}
use masseuse_camlink.Estim.Session.Driven.{run-IsSafe}
use masseuse_camlink.Estim.Session.Orderly.{IsOrderly, count}
use masseuse_camlink.Estim.Session.Single.{run-IsOrderly}
use masseuse_camlink.Estim.Session.Stale.{quiet-detached}
use masseuse_camlink.Estim.Session.Gone.{run-detached}

abbrev caps : Capabilities
caps = record {
  level_max = pos 60;
  modes = pos 1 ∷ [];
  tempo = false;
  power_modes = [];
  level_max_default = pos 0;
}

abbrev unit : Device
unit = record {
  kind = codes "tens";
  label = [];
  port = [];
  caps = caps;
  held = false;
  renews = false;
}

-- Every call succeeds, at this time.
abbrev meets : ℕ → Io
meets t = record {
  now = t;
  later = t;
  ctx_ended = false;
  release = none;
  arm = none;
  execute = none;
  renew = none;
  close = none;
  reading = λ _. good disconnected_status;
}

abbrev sid : List ℕ
sid = codes "s1"

abbrev level : ℤ → Command
level n = record { verb = set_level; mode = none; level = some n; delta = none; percent = none }

abbrev attaches : Step
attaches = handles (meets 2) none sid (control (companion_attached sid))

abbrev commands_level : ℕ → Step
commands_level t =
    handles (meets t) none sid
      (control (device_command sid (text (codes "c1")) (parsed (level (pos 40)))))

-- The device is found, the session attached and the device armed, and two commands come in; the second
-- one while the first still runs.
abbrev steps : List Step
steps =
    operates (opens (meets 1) (some (good unit)))
    ∷ attaches
    ∷ proceeds (meets 3) (meets 3) 0
    ∷ commands_level 4
    ∷ commands_level 5
    ∷ proceeds (meets 6) (meets 6) 0
    ∷ proceeds (meets 6) (meets 6) 0
    ∷ []

steps_calls :
    (run steps (new_system 0)).session.runtime.calls
    ≡ executed (level (pos 40)) (pos 60) ∷ armed normal ∷ released ∷ released ∷ []
unfolding run step run_some handle same_text queue reset_settings Events.step open_device execute
    arm check_caps between default_settings_for has_power_mode
steps_calls = refl

run-IsSafe_example :
    Leads (fresh 0) (run steps (new_system 0)).session.runtime
    × IsSafe (run steps (new_system 0)).session.runtime.calls
run-IsSafe_example = run-IsSafe 0 steps

run-IsOrderly_example : IsOrderly (run steps (new_system 0)).session
run-IsOrderly_example = run-IsOrderly 0 steps

-- The session is detached before the goroutine that arms has run: the device is armed all the same.
abbrev detached_early : List Step
detached_early =
    operates (opens (meets 1) (some (good unit)))
    ∷ attaches
    ∷ detaches (meets 3) []
    ∷ proceeds (meets 4) (meets 4) 0
    ∷ []

detached_armed :
    ((run detached_early (new_system 0)).session.attached ≡ false)
    × (is_armed 5 (run detached_early (new_system 0)).session.runtime ≡ true)
unfolding run step run_some detach handle same_text queue reset_settings Events.step open_device arm
    release
detached_armed = (refl, refl)

-- Settings of one session, that are applied when another has been attached.
abbrev low : Settings
low = record { power_mode = normal; level_max = pos 10 }

abbrev settings_late : List Step
settings_late =
    attaches
    ∷ handles (meets 3) none sid (control (device_settings sid (some low)))
    ∷ handles (meets 4) none (codes "s2") (control (companion_attached (codes "s2")))
    ∷ proceeds (meets 5) (meets 5) 0
    ∷ []

settings_late_hold :
    ((run settings_late (new_system 0)).session.session_id ≡ codes "s2")
    × ((run settings_late (new_system 0)).session.runtime.settings ≡ some low)
unfolding run step run_some handle same_text queue reset_settings Events.step set_settings validate
    same_mode default_settings_for
settings_late_hold = (refl, refl)

abbrev working : System
unfolding run step run_some handle same_text queue reset_settings Events.step open_device execute
    arm check_caps between default_settings_for has_power_mode
working = run steps (new_system 0)

-- Nobody acknowledges anything for 16 seconds.
quiet-detached_example :
    let s = (run (commands_level 7 ∷ flushes ∷ []) working).session in
    ((tick (meets 16_000_000_000) s).attached ≡ false)
    × ((s.attached ≡ false)
        ⊎ ((tick (meets 16_000_000_000) s).runtime.cancel ≡ true)
          × ((tick (meets 16_000_000_000) s).runtime.arm_deadline ≡ none)
          × ((tick (meets 16_000_000_000) s).runtime.settings ≡ none))
unfolding working
quiet-detached_example =
    quiet-detached (commands_level 7 ∷ flushes ∷ []) working (meets 16_000_000_000) (tt, (tt, tt))
      (omega arith)

run-detached_example :
    let t =
      (run
        (commands_level 9 ∷ ticks (meets 10) ∷ [])
        (record { session = detach (meets 8) [] true working.session; pending = none })).session in
    (t.attached ≡ false)
    × (t.runtime.cancel ≡ true)
    × (commands t.runtime.calls ≡ commands working.session.runtime.calls)
unfolding count working
run-detached_example =
    run-detached (meets 8) [] true working.session none (commands_level 9 ∷ ticks (meets 10) ∷ [])
      refl (tt, (tt, tt))

abbrev note : List ℕ → Bool → Queued Message
note id telemetry = record { session_id = id; message = heartbeat; telemetry = telemetry }

abbrev full : Messages
full = note sid false ∷ note sid true ∷ replicate 64 (note sid false)

trim-lose_example :
    (trim full
      ≡ drop
          (length full - max_outbox - telemetry_count full)
          (lose (length full - max_outbox) full))
    × (length (trim full) ≤ max_outbox)
trim-lose_example = trim-lose full

-- The telemetry goes, and the oldest message.
trim-full : trim full ≡ replicate 64 (note sid false)
unfolding trim drop_one
trim-full = refl
