-- ===== src/Gateway/Server.antt =====
-- internal/gateway/gateway.go, `Server`: which connector is expected, which is attached, and the target
-- that is relayed to. An operation runs as a whole under the lock of the source; expectations are told
-- apart by an `id`, as the source does by their address. Base64, hex, SHA-256 and lower case are
-- parameters.
use masseuse_camlink.Prelude.{
  ℕ, suc, ◌*◌, Bool, true, false, ◌&&◌, ◌||◌, not, Option, none, some, List, [], ◌∷◌, ◌==◌, ltb,
  leb, if◌then◌else◌, same_text, is_empty, length, trim_right, contains_any, codes, ℤ, pos, negsuc,
}

pub record Expectation : Type 0 where
  pub id : ℕ
  pub key : List ℕ
  pub key_str : List ℕ
  pub ticket_hash : List ℕ
  pub expires_at : ℕ
  pub attached_once : Bool

pub record Attached : Type 0 where
  pub session : ℕ
  pub key_str : List ℕ
  pub since : ℕ

-- `next` is the next `id`, and the next session. `live` are the sessions that run, `waiting` the
-- ids of the expectations whose tickets connections have shown that still shake hands. `owner` is the key
-- of the connector that the target was set for, which the source does not keep.
pub record Server : Type 0 where
  pub expect : Option Expectation
  pub attached : Option Attached
  pub target : List ℕ
  pub next : ℕ
  pub live : List ℕ
  pub waiting : List ℕ
  pub owner : List ℕ

pub record ExpectRequest : Type 0 where
  pub connector_key : List ℕ
  pub ticket_hash : List ℕ
  pub expires_at : ℤ

pub record TargetRequest : Type 0 where
  pub host : List ℕ
  pub port : ℤ

pub data Response : Type 0 where
  ok bad_request conflict : Response

pub record Codecs : Type 0 where
  pub decode : List ℕ → Option (List ℕ)
  pub hex : List ℕ → Option (List ℕ)
  pub hash : List ℕ → List ℕ
  pub lower : List ℕ → List ℕ
  -- strings.TrimSpace, and net.JoinHostPort with strconv.Itoa.
  pub trim : List ℕ → List ℕ
  pub join : List ℕ → ℤ → List ℕ

-- A session that is closed runs no longer.
unfoldable pub close_session : ℕ → List ℕ → List ℕ
close_session n [] = []
close_session n (i ∷ is) = let rest = close_session n is in if i == n then rest else i ∷ rest

abbrev pub close_old : Option Attached → List ℕ → List ℕ
close_old none live = live
close_old (some a) live = close_session a.session live

abbrev pub attached_to : ℕ → Expectation → Server → Server
attached_to now e s = record s {
  expect = some (record e { attached_once = true });
  attached = some (record { session = s.next; key_str = e.key_str; since = now });
  next = suc s.next;
  live = s.next ∷ close_old s.attached s.live;
}

-- `attach`, of a connection that has proved itself under the expectation `id`, with the new session: it
-- is closed at once if that is not the expectation any more.
unfoldable pub attach : ℕ → ℕ → Server → Server
attach now id s = elim s.expect [
  | none ↦ record s { next = suc s.next }
  | some e ↦ if e.id == id then attached_to now e s else record s { next = suc s.next }
]

abbrev pub is_session : ℕ → Option Attached → Bool
is_session n none = false
is_session n (some a) = a.session == n

-- `detach`.
unfoldable pub detach : ℕ → Server → Server
detach n s = if is_session n s.attached then record s { attached = none } else s

-- `dropConnector`.
unfoldable pub drop_connector : Server → Server
drop_connector s = record s { attached = none; live = close_old s.attached s.live }

-- The first half of `handleClear`; `dropConnector` is the other.
unfoldable pub clear : Server → Server
clear s = record s { expect = none; target = [] }

abbrev pub keyed : List ℕ → Option Attached → Option Expectation → Bool
keyed key (some a) prev = same_text a.key_str key
keyed key none none = false
keyed key none (some e) = same_text e.key_str key

abbrev pub is_attached : Option Attached → Bool
is_attached none = false
is_attached (some a) = true

-- `handleExpect` with an expectation that is valid.
unfoldable pub expect_connector : Expectation → Server → Server
expect_connector exp s =
    if keyed exp.key_str s.attached s.expect
    then record s {
      expect = some (record exp { attached_once = is_attached s.attached || exp.attached_once });
      next = suc s.next;
    }
    else record s {
      expect = some exp;
      attached = none;
      target = [];
      next = suc s.next;
      live = close_old s.attached s.live;
    }

abbrev pub at_seconds : ℤ → ℕ
at_seconds (pos n) = n * 1_000_000_000
at_seconds (negsuc n) = 0

abbrev pub is_future : ℕ → ℤ → Bool
is_future now (pos n) = not (n == 0) && not (ltb (n * 1_000_000_000) now)
is_future now (negsuc n) = false

abbrev pub has_length : ℕ → Option (List ℕ) → Bool
has_length n none = false
has_length n (some s) = length s == n

abbrev pub bytes_of : Option (List ℕ) → List ℕ
bytes_of none = []
bytes_of (some s) = s

abbrev pub is_port : ℤ → Bool
is_port (pos n) = leb 1 n && leb n 65535
is_port (negsuc n) = false

module _ (c : Codecs) where
  -- `expectationFor`.
  unfoldable pub expectation_for : ℕ → List ℕ → Option Expectation → Option Expectation
  expectation_for now ticket none = none
  expectation_for now ticket (some e) =
      let raw = bytes_of (c.decode (trim_right b'=' ticket)) in
      if is_empty raw || not (same_text (c.hash raw) e.ticket_hash)
      then none
      else if not e.attached_once && ltb e.expires_at now
      then none
      else some e

  -- `handleExpect`.
  unfoldable pub handle_expect : ℕ → ExpectRequest → Server → Server × Response
  unfolding expect_connector
  handle_expect now req s =
      let key = c.decode (trim_right b'=' req.connector_key) in
      let hash = c.hex (c.lower req.ticket_hash) in
      if (not (has_length 32 key) || not (has_length 32 hash)) || not (is_future now req.expires_at)
      then (s, bad_request)
      else (
        expect_connector
            (record {
              id = s.next;
              key = bytes_of key;
              key_str = req.connector_key;
              ticket_hash = bytes_of hash;
              expires_at = at_seconds req.expires_at;
              attached_once = false;
            })
            s,
        ok,
      )

  abbrev pub set_target : List ℕ → Option Attached → Server → Server × Response
  set_target t none s = (s, conflict)
  set_target t (some a) s = (record s { target = t; owner = a.key_str }, ok)

  -- `handleTarget`.
  unfoldable pub handle_target : TargetRequest → Server → Server × Response
  handle_target req s =
      let host = c.trim req.host in
      if (is_empty host || contains_any host (codes " /\\@")) || not (is_port req.port)
      then (s, bad_request)
      else set_target (c.join host req.port) s.attached s

  abbrev pub wait_for : Option Expectation → Server → Server
  wait_for none s = s
  wait_for (some e) s = record s { waiting = e.id ∷ s.waiting }

  -- `handleTunnel` up to its handshake.
  unfoldable pub dial : ℕ → List ℕ → Server → Server
  unfolding expectation_for
  dial now ticket s = wait_for (expectation_for now ticket s.expect) s

-- What `relay` opens: the session, and the target.
abbrev pub relay : Option Attached → List ℕ → Option (ℕ × List ℕ)
relay none target = none
relay (some a) [] = none
relay (some a) (c ∷ target) = some (a.session, c ∷ target)
