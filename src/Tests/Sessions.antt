-- ===== src/Tests/Sessions.antt =====
-- internal/mux: a session of each end, with one stream between them.
use masseuse_camlink.Prelude.{
  ◌+◌, ◌≤◌, ◌≡◌, refl, true, false, none, some, List, [], ◌∷◌, ◌++◌, arith, length, codes,
}
use masseuse_camlink.Frame
use masseuse_camlink.Frame.{Frame, Source, wire, ReadError}
use masseuse_camlink.Frame.Stream.{ended}
use masseuse_camlink.Mux.Stream.{Stream, reset, max_inbound, bytes, read, new_stream}
use masseuse_camlink.Mux.Session.{
  Session, new, lookup, find, frame, store, insert, send, write_error, deliver,
}
use masseuse_camlink.Mux.ReadLoop.{handle, read_loop, offer, on_open}
use masseuse_camlink.Mux.Calls.{open_start, write_to}
use masseuse_camlink.Mux.Buffer.{IsBounded, pending, read-IsBounded}
use masseuse_camlink.Mux.Invariant.{Inv}
use masseuse_camlink.Mux.Runs.{arrives, accepts_next, reads, ends, run, run-new-Inv}
use masseuse_camlink.Mux.Transfer.{takes_all, data_frame, handle_all, write_to-handle_all}
use masseuse_camlink.Mux.Endings.{GivenUp, deliver_overflow, read_loop_returns}

abbrev open_frame : Frame
open_frame = frame Frame.type_open 1 (codes "rtsp")

abbrev dialer : Session
unfolding open_start new insert new_stream send write_error Frame.encode
dialer = (open_start takes_all (codes "rtsp") (new true)).0

abbrev listener : Session
unfolding handle on_open new insert new_stream offer find
listener = (handle takes_all open_frame (new false)).0

-- The OPEN that goes out is the one that the other end takes.
opens_with : dialer.sent ≡ open_frame ∷ []
unfolding dialer
opens_with = refl

dialer_live :
    ((dialer.heap 0).dead ≡ false)
    × ((dialer.heap 0).write_closed ≡ false)
    × ((dialer.heap 0).id ≡ 1)
unfolding dialer
dialer_live = (refl, refl, refl)

listener_live :
    (lookup (dialer.heap 0).id listener ≡ some 0)
    × ((listener.heap 0).dead ≡ false)
    × ((listener.heap 0).peer_closed ≡ false)
unfolding dialer listener find
listener_live = (refl, refl, refl)

listener-IsBounded : IsBounded (listener.heap 0)
unfolding listener
listener-IsBounded = record { counted = refl; limited = omega arith }

listener_room : (listener.heap 0).queued + length (codes "DESCRIBE") ≤ max_inbound
unfolding listener
listener_room = omega arith

write_to-handle_all_example :
    (fs : List Frame) × (write_to takes_all 0 (codes "DESCRIBE") dialer
      ≡ (record dialer { sent = dialer.sent ++ fs }, length (codes "DESCRIBE"), none))
    × (pending ((handle_all fs listener).heap 0).queue
        ≡ pending (listener.heap 0).queue ++ codes "DESCRIBE")
write_to-handle_all_example =
    write_to-handle_all 0 0 (codes "DESCRIBE") dialer listener dialer_live.0 dialer_live.1
      listener_live.0 listener-IsBounded listener_live.1 listener_live.2 listener_room

run-new-Inv_example : Inv (
    run takes_all
      (arrives open_frame
        ∷ accepts_next true
        ∷ arrives (data_frame 1 (codes "hi"))
        ∷ reads 0 10
        ∷ ends
        ∷ [])
      (new false))
run-new-Inv_example =
    run-new-Inv takes_all
      (arrives open_frame
        ∷ accepts_next true
        ∷ arrives (data_frame 1 (codes "hi"))
        ∷ reads 0 10
        ∷ ends
        ∷ [])
      false

abbrev full : Stream
full = record {
  id = 1;
  queue = codes "abc" ∷ codes "de" ∷ [];
  queued = 5;
  peer_closed = false;
  write_closed = false;
  dead = false;
  err = none;
  opened = false;
  open_err = none;
}

full-IsBounded : IsBounded full
full-IsBounded = record { counted = refl; limited = omega arith }

abbrev read_once : Stream
read_once = record full { queue = codes "c" ∷ codes "de" ∷ []; queued = 3 }

read_two : read 2 full ≡ bytes (codes "ab") read_once
unfolding read
read_two = refl

read-IsBounded_example :
    IsBounded read_once
    × (codes "ab" ++ pending read_once.queue ≡ pending full.queue)
    × (length (codes "ab") ≤ 2)
    × (3 + length (codes "ab") ≡ 5)
read-IsBounded_example = read-IsBounded 2 full (codes "ab") read_once full-IsBounded read_two

listener_running : listener.done ≡ false
unfolding listener
listener_running = refl

-- A session whose stream is at its limit: what it has queued is counted as 8 MiB.
abbrev loaded : Session
loaded = store 0 (record full { queued = max_inbound }) listener

deliver_overflow_example :
    GivenUp
      (reset (codes "receive buffer overflow"))
      (loaded.heap 0)
      ((deliver takes_all 0 (codes "x") loaded).heap 0)
    × ((deliver takes_all 0 (codes "x") loaded).heap 1 ≡ loaded.heap 1)
    × (lookup 1 (deliver takes_all 0 (codes "x") loaded) ≡ none)
    × (lookup 3 (deliver takes_all 0 (codes "x") loaded) ≡ lookup 3 loaded)
    × ((deliver takes_all 0 (codes "x") loaded).sent
        ≡ loaded.sent ++ frame Frame.type_reset 1 (codes "receive buffer overflow") ∷ [])
deliver_overflow_example =
    deliver_overflow 0 1 3 (codes "x") loaded refl refl (omega arith) (λ e. cc) (λ e. cc)

read_loop_returns_example :
    ((read_loop takes_all (λ _. 0) 30 (ended (wire open_frame)) (new false)).1 ≡ true)
    × ((read_loop takes_all (λ _. 0) 30 (ended (wire open_frame)) (new false)).0.done ≡ true)
read_loop_returns_example =
    read_loop_returns takes_all (λ _. 0) 30 (ended (wire open_frame)) (new false) (omega arith)
