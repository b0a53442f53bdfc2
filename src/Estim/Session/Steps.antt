-- ===== src/Estim/Session/Steps.antt =====
-- internal/estim/session.go: a `Session` under any sequence of what its goroutines do, with the
-- Runtime's own operations between them.
use masseuse_camlink.Prelude.{ℕ, Bool, true, false, Option, none, some, List, [], ◌∷◌}
use masseuse_camlink.Estim.Runtime.State.{Descriptor, Io}
use masseuse_camlink.Estim.Runtime.Telemetry.{Sampled, offer}
use masseuse_camlink.Estim.Runtime.Events.{fresh}
use masseuse_camlink.Estim.Runtime.Events
use masseuse_camlink.Estim.Session.State.{Session}
use masseuse_camlink.Estim.Session.Handle.{
  Selection, Inbound, handle, tick, telemetry_tick, device_changed, units_changed, detach,
}
use masseuse_camlink.Estim.Session.Tasks.{run_some}
use masseuse_camlink.Estim.Session.Flush.{Messages, Sent, begin_flush, send_next}

-- `pending` is what a `Flush` that runs has still to send.
pub record System : Type 0 where
  pub session : Session
  pub pending : Option Messages

pub data Step : Type 0 where
  handles : Io → Option Selection → List ℕ → Inbound → Step
  ticks : Io → Step
  ticks_telemetry flushes : Step
  offers : Sampled → Step
  changes : ℕ → Descriptor → Bool → Option (List (List ℕ)) → Step
  lists : Option (List (List ℕ)) → Step
  detaches : Io → List ℕ → Step
  proceeds : Io → Io → ℕ → Step
  sends : Io → Sent → Step
  operates : Events.Event → Step

-- `Flush` is called by `Run` only, one call after another.
abbrev pub start_flush : Session → Option Messages → System
start_flush s none = record { session = (begin_flush s).0; pending = some (begin_flush s).1 }
start_flush s (some pending) = record { session = s; pending = some pending }

abbrev pub flush_on : Io → Sent → Session → Option Messages → System
flush_on io answer s none = record { session = s; pending = none }
flush_on io answer s (some pending) = record {
  session = (send_next io answer pending s).0;
  pending = (send_next io answer pending s).1;
}

-- A step that leaves what is pending.
unfoldable pub session_step : Step → Session → Session
session_step (handles io choose sid m) s = handle io choose sid m s
session_step (ticks io) s = tick io s
session_step ticks_telemetry s = telemetry_tick s
session_step (offers f) s = record s { telemetry = offer f s.telemetry }
session_step (changes now d connected units) s = device_changed now d connected units s
session_step (lists units) s = units_changed units s
session_step (detaches io reason) s = detach io reason true s
session_step (proceeds io next n) s = run_some io next n s
session_step (operates e) s = record s { runtime = Events.step e s.runtime }
session_step e s = s

unfoldable pub step : Step → System → System
unfolding session_step
step flushes y = start_flush y.session y.pending
step (sends io answer) y = flush_on io answer y.session y.pending
step e y = record y { session = session_step e y.session }

unfoldable pub run : List Step → System → System
run [] y = y
run (e ∷ es) y = run es (step e y)

-- A session before its first message, of a runtime with its `ArmWindow`.
abbrev pub new_session : ℕ → Session
new_session window = record {
  runtime = fresh window;
  telemetry = record { cap = 0; frames = []; dropped = 0 };
  session_id = [];
  attached = false;
  last_ack = 0;
  busy = false;
  arming = false;
  last_deferral = none;
  outbox = [];
  tasks = [];
}

abbrev pub new_system : ℕ → System
new_system window = record { session = new_session window; pending = none }
