-- ===== src/Mux/Stream.antt =====
-- internal/mux/mux.go, `Stream`: the state that a stream's own mutex guards, and what each method
-- does to it.
use masseuse_camlink.Prelude.{
  ℕ, ◌+◌, ◌-◌, Bool, true, false, ◌||◌, Option, none, some, List, [], ◌∷◌, ◌++◌, ltb, ◌==◌,
  if◌then◌else◌, length, take, drop, min,
}
use masseuse_camlink.Frame

-- The most undelivered bytes a stream may hold before it is reset: 8 << 20.
abbrev pub max_inbound : ℕ
max_inbound = 8388608

-- The errors of the package and of its callees. A reason or message is its bytes.
pub data Err : Type 0 where
  session_closed stream_closed not_opener not_acceptor eof closed_pipe cancelled : Err
  refused reset protocol : List ℕ → Err
  unwritable : Frame.Error → Err
  io : ℕ → Err

pub record Stream : Type 0 where
  pub id : ℕ
  pub queue : List (List ℕ)
  pub queued : ℕ
  pub peer_closed : Bool
  pub write_closed : Bool
  pub dead : Bool
  pub err : Option Err
  -- `openOnce` has run, and the channel `opened` is closed.
  pub opened : Bool
  pub open_err : Option Err

unfoldable pub new_stream : ℕ → Stream
new_stream id = record {
  id = id;
  queue = [];
  queued = 0;
  peer_closed = false;
  write_closed = false;
  dead = false;
  err = none;
  opened = false;
  open_err = none;
}

-- What `deliver` decides under the lock.
pub data Delivery : Type 0 where
  ignored overflow : Delivery
  queued_as : Stream → Delivery

unfoldable pub enqueue : List ℕ → Stream → Delivery
enqueue p st =
    if st.dead || st.peer_closed
    then ignored
    else if ltb max_inbound (st.queued + length p)
    then overflow
    else queued_as (record st { queue = st.queue ++ p ∷ []; queued = st.queued + length p })

-- The answer to an OPEN: the function given to `openOnce.Do`, run at the first answer only.
unfoldable pub settle_open : Option Err → Stream → Stream
settle_open e st = if st.opened then st else record st { opened = true; open_err = e }

-- `markDead`: `deadOnce` has run exactly if `dead` is set. The queue is dropped.
unfoldable pub mark_dead : Err → Stream → Stream
unfolding settle_open
mark_dead e st =
    if st.dead
    then st
    else settle_open (some e) (record st { dead = true; err = some e; queue = []; queued = 0 })

-- One pass of `Read` under the lock; `wait` is the select on `notify` and `done`.
pub data Taken : Type 0 where
  bytes : List ℕ → Stream → Taken
  ended : Option Err → Taken
  wait : Taken

-- `copy(p, head)` into a buffer of `n` bytes.
unfoldable pub take_head : ℕ → List ℕ → List (List ℕ) → Stream → Taken
take_head n head rest st =
    let k = min n (length head) in
    bytes (take k head) (record st {
      queue = if k == length head then rest else drop k head ∷ rest;
      queued = st.queued - k;
    })

unfoldable pub read_empty : Stream → Taken
read_empty st = if st.dead then ended st.err else if st.peer_closed then ended (some eof) else wait

unfoldable pub read_queue : ℕ → List (List ℕ) → Stream → Taken
unfolding take_head read_empty
read_queue n [] st = read_empty st
read_queue n (head ∷ rest) st = take_head n head rest st

unfoldable pub read : ℕ → Stream → Taken
unfolding read_queue
read n st = read_queue n st.queue st
