-- ===== src/Tests/Units.antt =====
-- internal/estim/mastago: runs of the reference unit's driver.
use masseuse_camlink.Prelude.{
  arith, ℕ, ◌*◌, ◌^◌, true, false, Option, none, some, List, [], ◌∷◌, ◌++◌, ◌≡◌, refl, codes,
  decimal, pos, ◌≤ℤ◌, concat,
}
use masseuse_camlink.Estim.Caps
use masseuse_camlink.Estim.Caps.{Command}
use masseuse_camlink.Estim.Mastago.Codec.{
  format_hhmmss, cmd_pause, cmd_set_level, query_level, query_paused, level_max,
}
use masseuse_camlink.Estim.Mastago.Reply.{decode_reply, last_int, loss_reason}
use masseuse_camlink.Estim.Mastago.Framing.{
  lines, on_notify, notified, IsPartial, notified-on_notify,
}
use masseuse_camlink.Estim.Mastago.Device.{
  State, Device, Turn, line, link_ends, lost, read_back_as, writes,
}
use masseuse_camlink.Estim.Mastago.Exchange.{ok, err, done, try, set, query_int}
use masseuse_camlink.Estim.Mastago.Ramp.{release, ramp, climb, asked, try_back}
use masseuse_camlink.Estim.Mastago.Driver.{top_level, execute}
use masseuse_camlink.Estim.Mastago.Readings.{label_for, counted_down, telemetry}
use masseuse_camlink.Estim.Mastago.Writes.{Sends}
use masseuse_camlink.Estim.Mastago.Limits.{IsPermitted}
use masseuse_camlink.Estim.Mastago.Executes.{execute-IsPermitted}
use masseuse_camlink.Estim.Mastago.Paused.{SaysPaused}
use masseuse_camlink.Estim.Mastago.Confirmed.{AtMostAsked, release_confirms}
use masseuse_camlink.Estim.Mastago.Arrives.{EndsAt, ramp-EndsAt}
use masseuse_camlink.Estim.Mastago.Climbs.{Climbed, climb-IsClimb}
use masseuse_camlink.Estim.Mastago.Works.{answers, Acks, Shows, works, rests}
use masseuse_camlink.Estim.Mastago.Reaches.{ShowsOn, ramp_works}

abbrev no_volts : List ℕ → Option ℕ
no_volts s = none

abbrev unknown_state : State
unknown_state = record {
  mode = none;
  level = none;
  outputting = none;
  timer_remaining_s = none;
  timer_read_at = none;
  battery_volts = none;
  load_detected = none;
  shutdown_reason = none;
  device_level_changes = 0;
  last_heartbeat = none;
}

abbrev connected : List Turn → Device
connected ts = record {
  st = unknown_state;
  now = 0;
  closed = false;
  link_err = none;
  turns = ts;
  polls = [];
  sleeps = [];
  sent = [];
}

-- Lines of the unit.
abbrev level_ok : List ℕ
level_ok = codes "+CSTR:OK\r"

abbrev level_one : List ℕ
level_one = codes "+CSTR:1\r"

abbrev level_two : List ℕ
level_two = codes "+CSTR:2\r"

abbrev unit_on : List ℕ
unit_on = codes "+QPOWP:0\r"

level_answer : last_int (decode_reply (codes "++CSTR:1,12\r")).content ≡ some (pos 12)
unfolding last_int decode_reply
level_answer = refl

no_load_answer : (decode_reply (codes "\t+CSTR ERROR:102\r")).code ≡ 102
unfolding decode_reply
no_load_answer = refl

countdown_half_hour : format_hhmmss (pos 1800) ≡ codes "003000"
unfolding format_hhmmss decimal
countdown_half_hour = refl

abbrev chunks : List (List ℕ)
chunks = codes "+CSTR:" ∷ codes "3\r\n+CHEART\r" ∷ codes "\nOK" ∷ []

empty-IsPartial : IsPartial []
unfolding lines
empty-IsPartial = refl

notified-on_notify_example :
    (notified [] chunks ≡ on_notify [] (concat chunks)) × IsPartial (notified [] chunks).1
notified-on_notify_example = notified-on_notify chunks [] empty-IsPartial

-- The unit is without contact: it refuses the intensity zero, and says that it is paused.
abbrev bare : Device
bare = connected (
    answers 1 (codes "+QPOWP:OK\r")
    ∷ answers 2 (codes "+CSTR ERROR:102\r")
    ∷ answers 3 (codes "+QPOWP:1\r")
    ∷ answers 4 (codes "+QPOWP:1\r")
    ∷ [])

abbrev bare_released : Device
bare_released = record (connected []) {
  st = record unknown_state { outputting = some false; load_detected = some false };
  now = 4;
  sent = cmd_pause ∷ codes "AT+CSTR=0,0" ∷ query_paused ∷ query_paused ∷ [];
}

bare_released_lem : release no_volts bare ≡ (ok done, bare_released)
unfolding release try set query_int decimal
bare_released_lem = refl

release_confirms_example :
    (bare_released.st.outputting ≡ some false)
    × SaysPaused no_volts bare.turns bare_released
    × (asked : List (List ℕ)) × AtMostAsked asked
    × (bare_released.sent
        ≡ bare.sent ++ cmd_pause ∷ cmd_set_level (pos 0) ∷ (asked ++ query_paused ∷ []))
release_confirms_example = release_confirms no_volts bare bare_released bare_released_lem

-- The unit switches itself off while the pause is on its way.
abbrev failing : Device
failing = connected (
    record { before = []; writing = writes; after = line 1 (codes "+QPOWD:2\r") ∷ link_ends ∷ [] }
    ∷ [])

failing_release :
    (release no_volts failing).0
    ≡ err (lost (record { reason = codes "battery_off"; announced = some (pos 2) }))
unfolding release try set last_int loss_reason
failing_release = refl

-- From one to two, on a unit that works.
abbrev working : Device
working =
    connected
      (answers 1 level_one ∷ answers 2 unit_on ∷ answers 3 level_ok ∷ answers 4 level_two ∷ [])

level_one-Shows : Shows (pos 1) level_one
unfolding decode_reply last_int
level_one-Shows = (refl, refl, refl, refl, refl)

level_two-Shows : Shows (pos 2) level_two
unfolding decode_reply last_int
level_two-Shows = (refl, refl, refl, refl, refl)

level_ok-Acks : Acks level_ok
unfolding decode_reply
level_ok-Acks = (refl, refl, refl)

unit_on-ShowsOn : ShowsOn unit_on
unfolding decode_reply last_int
unit_on-ShowsOn = (refl, refl, refl, refl, refl)

ramp_works_example : (ramp no_volts (pos 2) working).0 ≡ record { level = pos 2; fault = none }
ramp_works_example =
    ramp_works no_volts 1 2 1 2 level_one unit_on (answers 3 level_ok ∷ answers 4 level_two ∷ [])
      working (omega arith) (omega arith) level_one-Shows unit_on-ShowsOn
      (works 3 4 level_ok level_two level_ok-Acks level_two-Shows rests) (refl, refl, refl, refl)

ramp-EndsAt_example : EndsAt (pos 2) (ramp no_volts (pos 2) working)
ramp-EndsAt_example = ramp-EndsAt no_volts (pos 2) working

climb-IsClimb_example : Climbed 1 (pos 2) working (climb no_volts 1 true (pos 1) (pos 2) working).1
climb-IsClimb_example = climb-IsClimb no_volts 1 true (pos 1) (pos 2) working

-- The service asks for five more; the session allows two.
abbrev more : Command
more = record {
  verb = Caps.adjust_level;
  mode = none;
  level = none;
  delta = some (pos 5);
  percent = none;
}

abbrev asked_twice : Device
asked_twice = connected (
    answers 0 level_one
    ∷ answers 1 level_one
    ∷ answers 2 unit_on
    ∷ answers 3 level_ok
    ∷ answers 4 level_two
    ∷ [])

more_run :
    (execute no_volts more (pos 2) asked_twice).1.sent
    ≡ query_level ∷ query_level ∷ query_paused ∷ codes "AT+CSTR=0,2" ∷ query_level ∷ []
unfolding execute Caps.is_step try query_int ramp asked set try_back decimal
more_run = refl

execute-IsPermitted_example :
    (top_level (pos 2) ≤ℤ level_max)
    × Sends
        (IsPermitted (top_level (pos 2)))
        asked_twice
        (execute no_volts more (pos 2) asked_twice).1
execute-IsPermitted_example = execute-IsPermitted no_volts more (pos 2) asked_twice

-- The unit takes the two and shows a five: the ramp fails with what it had before.
abbrev misreading : Device
misreading = connected (
    answers 1 level_one
    ∷ answers 2 unit_on
    ∷ answers 3 level_ok
    ∷ answers 4 (codes "+CSTR:5\r")
    ∷ [])

misread_ramp :
    (ramp no_volts (pos 2) misreading).0
    ≡ record { level = pos 1; fault = some (read_back_as (pos 5)) }
unfolding ramp try query_int set asked try_back
misread_ramp = refl

label_of_unit : label_for (codes "MASTOGO G-12AB") ≡ codes "Mastago TENS G-12AB"
unfolding label_for
label_of_unit = refl

-- Half a minute after the countdown was read.
counted_half_minute : counted_down (40 * 10 ^ 9) (some (10 * 10 ^ 9)) (pos 45) ≡ pos 15
unfolding counted_down
counted_half_minute = refl

abbrev read_device : Device
read_device = connected (answers 5 level_two ∷ answers 6 unit_on ∷ [])

telemetry_run :
    (telemetry no_volts (λ v. pos 0) read_device).0
    ≡ ok (record {
      level_a = pos 2;
      outputting = true;
      load_detected = none;
      mode = none;
      timer_remaining_s = none;
    })
unfolding telemetry try query_int
telemetry_run = refl
