-- ===== src/Estim/Mastago/Device.antt =====
-- internal/estim/mastago/device.go: what the device has learned of the unit, and one exchange with it.
-- A script says what the unit and the system do: a turn for each exchange. The goroutine that watches
-- the link and the callback of the notifications run only where an exchange waits or between two.
use masseuse_camlink.Prelude.{
  ℕ, suc, Bool, true, false, not, ◌&&◌, ◌||◌, Option, none, some, List, [], ◌∷◌, ltb, ◌==◌,
  if◌then◌else◌, is_empty, length, codes, same_text, ℤ, pos, negsuc, eq_ℤ,
}
use masseuse_camlink.Estim.Mastago.Codec.{no_load, parse_hhmmss}
use masseuse_camlink.Estim.Mastago.Reply.{
  Kind, ack, value, error, heartbeat, Reply, decode_reply, ints, last_int, loss_reason,
}

-- `State`; none is an unknown. A voltage stands for the bits of the float that holds it.
pub record State : Type 0 where
  pub mode : Option ℤ
  pub level : Option ℤ
  pub outputting : Option Bool
  pub timer_remaining_s : Option ℤ
  pub timer_read_at : Option ℕ
  pub battery_volts : Option ℕ
  pub load_detected : Option Bool
  pub shutdown_reason : Option ℤ
  pub device_level_changes : ℕ
  pub last_heartbeat : Option ℕ

-- The error of a link that ended: the reason code, and the number that the unit gave.
pub record Loss : Type 0 where
  pub reason : List ℕ
  pub announced : Option ℤ

-- A line that arrives at an instant; the link ends; the context of the exchange ends.
pub data Event : Type 0 where
  line : ℕ → List ℕ → Event
  link_ends ctx_ends : Event

-- The write of a command: the context may end in the gap before it.
pub data Writing : Type 0 where
  writes gap_ends disconnected : Writing
  write_error : ℕ → Writing

-- What arrives before a command is written, and after it up to the end of its exchange.
pub record Turn : Type 0 where
  pub before : List Event
  pub writing : Writing
  pub after : List Event

-- `waiter`.
pub record Waiter : Type 0 where
  pub name : List ℕ
  pub query : Bool

-- `Device`, with the script, and the commands written so far. `polls` answers `cancelled()`, and
-- `sleeps` says of each wait between two steps whether the context ended in it.
pub record Device : Type 0 where
  pub st : State
  pub now : ℕ
  pub closed : Bool
  pub link_err : Option Loss
  pub turns : List Turn
  pub polls : List Bool
  pub sleeps : List Bool
  pub sent : List (List ℕ)

pub data Fault : Type 0 where
  lost : Loss → Fault
  refused : List ℕ → ℕ → List ℕ → Fault
  write_failed : ℕ → Fault
  timed_out : List ℕ → Fault
  ctx_done cancelled still_outputting not_allowed : Fault
  odd_answer : List ℕ → Fault
  read_back_as : ℤ → Fault

-- `waiter.accept`.
unfoldable pub accept_as : Waiter → Reply → Kind → Bool
accept_as w r error = is_empty r.name || same_text r.name w.name
accept_as w r ack = not w.query && same_text r.name w.name
accept_as w r value = w.query && (same_text r.name w.name && not r.unsolicited)
accept_as w r _ = false

abbrev pub accept : Waiter → Reply → Bool
accept w r = accept_as w r r.kind

abbrev pub accepted : Waiter → Option Reply → Bool
accepted w none = false
accepted w (some r) = accept w r

-- `linkErrLocked`.
unfoldable pub link_err_locked : Device → Loss
link_err_locked d = elim d.link_err [
  | some e ↦ e
  | none ↦ elim d.st.shutdown_reason [
    | some code ↦ record { reason = loss_reason code; announced = some code }
    | none ↦ record { reason = codes "link_lost"; announced = none }
  ]
]

-- `watchLink`, once the link has ended: it ends once.
unfoldable pub watch_link : Device → Device
unfolding link_err_locked
watch_link d =
    if d.closed then d else record d { closed = true; link_err = some (link_err_locked d) }

abbrev set_level : Reply → ℤ → State → State
set_level r n st = record st {
  device_level_changes =
      if ltb 1 (length (ints r.content)) || r.unsolicited
      then suc st.device_level_changes
      else st.device_level_changes;
  level = some n;
}

abbrev with_int : Reply → (ℤ → State) → State → State
with_int r f st = elim (last_int r.content) [ none ↦ st | some n ↦ f n ]

module _ (parse_volts : List ℕ → Option ℕ) where
  -- The reports and answers that carry a value, by name.
  unfoldable pub fold_value : ℕ → Reply → State → State
  fold_value now r st =
      if same_text r.name (codes "CSTR")
      then with_int r (λ n. set_level r n st) st
      else if same_text r.name (codes "CMODE")
      then with_int r (λ n. record st { mode = some n }) st
      else if same_text r.name (codes "CDCLK")
      then elim (parse_hhmmss r.content) [
        | none ↦ st
        | some s ↦ record st { timer_remaining_s = some s; timer_read_at = some now }
      ]
      else if same_text r.name (codes "QPOWP")
      then with_int r (λ n. record st { outputting = some (eq_ℤ n (pos 0)) }) st
      else if same_text r.name (codes "QPOWS")
      then with_int r (λ n. record st { outputting = some (not (eq_ℤ n (pos 0))) }) st
      else if same_text r.name (codes "CBC")
      then elim (parse_volts r.content) [
        | none ↦ st
        | some v ↦ record st { battery_volts = some v }
      ]
      else if same_text r.name (codes "CLOAD")
      then with_int r (λ n. record st { load_detected = some (not (eq_ℤ n (pos 0))) }) st
      else if same_text r.name (codes "CLKEND")
      then record st {
        timer_remaining_s = some (pos 0);
        timer_read_at = some now;
        outputting = some false;
      }
      else if same_text r.name (codes "QPOWD")
      then record st {
        shutdown_reason = elim (last_int r.content) [ none ↦ some (negsuc 0) | some n ↦ some n ];
      }
      else st

  unfoldable pub fold_as : Kind → ℕ → Reply → State → State
  unfolding fold_value
  fold_as heartbeat now r st = record st { last_heartbeat = some now }
  fold_as error now r st =
      if r.code == no_load then record st { load_detected = some false } else st
  fold_as value now r st = fold_value now r st
  fold_as _ now r st = st

  -- `fold`.
  abbrev pub fold : ℕ → Reply → State → State
  fold now r st = fold_as r.kind now r st

  -- `handleLine`: the reply, if the line is not blank.
  unfoldable pub handle_line : ℕ → List ℕ → Device → Device × Option Reply
  unfolding fold_as decode_reply
  handle_line t l d =
      let r = decode_reply l in
      let d' = record d { now = t } in
      if is_empty r.raw then (d', none) else (record d' { st = fold t r d.st }, some r)

  -- What arrives while no command waits.
  unfoldable pub idle : List Event → Device → Device
  unfolding handle_line watch_link
  idle [] d = d
  idle (line t l ∷ es) d = idle es (handle_line t l d).0
  idle (link_ends ∷ es) d = idle es (watch_link d)
  idle (ctx_ends ∷ es) d = idle es d
