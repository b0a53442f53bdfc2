-- ===== src/Serve/Gate.antt =====
-- internal/serve/gate.go, `track`: whole frames are dropped while the tunnel is behind, and what goes
-- out is one continuous stream. A packet is the fields of `rtp.Packet` that are used; instants are
-- nanoseconds of the monotonic clock, so that a later one is never smaller.
pub mod Kind
pub mod Dropping
pub mod Counting
pub mod Continuity
pub mod Aggregates
use masseuse_camlink.Prelude.{
  ℕ, ◌+◌, ◌-◌, ◌%◌, ◌^◌, Bool, true, false, ◌&&◌, not, Option, none, some, List, ltb, ◌==◌,
  if◌then◌else◌,
}
use Kind.{UnitKind, unit_other, unit_frame, unit_key, h264_kind, h265_kind}

pub record Packet : Type 0 where
  pub timestamp : ℕ  -- uint32
  pub ssrc : ℕ  -- uint32
  pub sequence_number : ℕ  -- uint16
  pub payload : List ℕ

-- What `newTrack` chose for `kind`: nil, `h264Kind` or `h265Kind`.
pub data Codec : Type 0 where
  unknown h264 h265 : Codec

pub record Track : Type 0 where
  pub clock : ℕ
  pub kind : Codec
  -- Continuity.
  pub started : Bool
  pub ssrc : ℕ
  pub next_seq : ℕ
  pub ts_off : ℕ
  pub last_ts : ℕ
  pub last_at : ℕ
  pub fresh : Bool
  -- Access units of the incoming stream.
  pub in_ts : ℕ
  pub in_have : Bool
  -- Gate state.
  pub dropping : Bool
  pub undecided : Bool
  pub dropped_frames : ℕ
  pub dropped_packets : ℕ
  pub episode_at : ℕ
  pub peak : ℕ

-- `newTrack` for a media of this clock rate and codec.
unfoldable pub new_track : ℕ → Codec → Track
new_track clock kind = record {
  clock = clock;
  kind = kind;
  started = false;
  ssrc = 0;
  next_seq = 0;
  ts_off = 0;
  last_ts = 0;
  last_at = 0;
  fresh = false;
  in_ts = 0;
  in_have = false;
  dropping = false;
  undecided = false;
  dropped_frames = 0;
  dropped_packets = 0;
  episode_at = 0;
  peak = 0;
}

-- `beginsAccessUnit`: the answer, and the timestamp remembered.
abbrev pub begins : Track → Packet → Bool
begins t pkt = not (t.in_have && pkt.timestamp == t.in_ts)

abbrev pub remember : Track → Packet → Track
remember t pkt = if begins t pkt then record t { in_ts = pkt.timestamp; in_have = true } else t

-- `gateEpisode`.
pub record Episode : Type 0 where
  pub frames : ℕ
  pub packets : ℕ
  pub over : ℕ
  pub peak : ℕ

abbrev pub kind_of : Codec → Bool → List ℕ → UnitKind
kind_of unknown true p = unit_key
kind_of unknown false p = unit_frame
kind_of h264 b p = h264_kind p
kind_of h265 b p = h265_kind p

abbrev pub classify : Track → Packet → Bool → UnitKind
classify t pkt b = kind_of t.kind b pkt.payload

-- The start of an access unit: an episode of dropping may begin, and every unit met while dropping is
-- undecided.
unfoldable pub enter : Track → Bool → ℕ → ℕ → Track
enter t congested backlog now =
    let u =
      if not t.dropping && congested
      then record t {
        dropping = true;
        episode_at = now;
        peak = backlog;
        dropped_frames = 0;
        dropped_packets = 0;
      }
      else t in
    record u { undecided = u.dropping }

-- The first packet that says what its access unit is settles it.
unfoldable pub settle : UnitKind → Track → Bool → ℕ → Track × Option Episode
settle unit_key t congested now = if congested then (record t { undecided = false }, none) else (
  record t { undecided = false; dropping = false },
  some (record {
    frames = t.dropped_frames;
    packets = t.dropped_packets;
    over = now - t.episode_at;
    peak = t.peak;
  }),
)
settle unit_frame t congested now = (record t { undecided = false }, none)
settle unit_other t congested now = (t, none)

abbrev pub u64 : ℕ → ℕ
u64 n = n % 2 ^ 64

-- A packet that goes, or is counted as dropped.
unfoldable pub conclude : Bool → ℕ → Track × Option Episode → Track × Bool × Option Episode
conclude b backlog (t, ended) = if not t.dropping then (t, true, ended) else (
  record t {
    peak = if ltb t.peak backlog then backlog else t.peak;
    dropped_frames = if b then u64 (t.dropped_frames + 1) else t.dropped_frames;
    dropped_packets = u64 (t.dropped_packets + 1);
  },
  false,
  none,
)

-- `admit`: the track, whether the packet goes out, and the episode that it ends.
unfoldable pub admit : Track → Packet → Bool → ℕ → ℕ → Track × Bool × Option Episode
unfolding enter settle conclude
admit t pkt congested backlog now =
    let b = begins t pkt in
    let u = remember t pkt in
    let v = if b then enter u congested backlog now else u in
    conclude b backlog
      (if v.undecided then settle (classify v pkt b) v congested now else (v, none))

abbrev pub u16 : ℕ → ℕ
u16 n = n % 2 ^ 16

abbrev pub u32 : ℕ → ℕ
u32 n = n % 2 ^ 32

-- `stamp`. The clock ticks of a gap go through floating point in the source: `ticks gap clock` stands
-- for `uint32(gap.Seconds()*float64(clock))`.
module _ (ticks : ℕ → ℕ → ℕ) where
  -- The timestamp that a new generation starts at.
  abbrev pub want : Track → ℕ → ℕ
  want t now =
      let w = u32 (t.last_ts + ticks (now - t.last_at) t.clock) in
      if w == t.last_ts then u32 (w + 1) else w

  -- The continuity as it is for this packet.
  unfoldable pub continue_with : Track → Packet → ℕ → Track
  continue_with t pkt now =
      if not t.started
      then record t {
        started = true;
        ssrc = pkt.ssrc;
        next_seq = pkt.sequence_number;
        ts_off = 0;
        fresh = false;
      }
      else if t.fresh
      then record t { fresh = false; ts_off = u32 (want t now + 2 ^ 32 - pkt.timestamp) }
      else t

  unfoldable pub stamp : Track → Packet → ℕ → Track × Packet
  unfolding continue_with
  stamp t pkt now =
      let u = continue_with t pkt now in
      let ts = u32 (pkt.timestamp + u.ts_off) in
      (
        record u { next_seq = u16 (u.next_seq + 1); last_ts = ts; last_at = now },
        record pkt { ssrc = u.ssrc; sequence_number = u.next_seq; timestamp = ts },
      )
