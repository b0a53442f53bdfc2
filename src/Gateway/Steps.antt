-- ===== src/Gateway/Steps.antt =====
-- internal/gateway/gateway.go: the tunnels that shake hands, and any sequence of what happens to a
-- `Server`.
use masseuse_camlink.Prelude.{ℕ, zero, suc, Bool, Option, none, some, List, [], ◌∷◌, if◌then◌else◌}
use masseuse_camlink.Gateway.Server.{
  Server, ExpectRequest, TargetRequest, Codecs, close_session, attach, detach, drop_connector,
  clear, handle_expect, handle_target, dial,
}

unfoldable pub take : ℕ → List ℕ → Option (ℕ × List ℕ)
take n [] = none
take zero (i ∷ is) = some (i, is)
take (suc n) (i ∷ is) = elim (take n is) [ none ↦ none | some p ↦ some (p.0, i ∷ p.1) ]

-- The handshake at a position of those that wait ends well, or not.
unfoldable pub finish : ℕ → Bool → ℕ → Server → Server
unfolding take attach
finish now proved n s = elim (take n s.waiting) [
  | none ↦ s
  | some p ↦ let t : Server = record s { waiting = p.1 } in if proved then attach now p.0 t else t
]

pub data Event : Type 0 where
  expects : ℕ → ExpectRequest → Event
  targets : TargetRequest → Event
  clears drops : Event
  dials : ℕ → List ℕ → Event
  finishes : ℕ → Bool → ℕ → Event
  -- A session ends by itself, and `handleTunnel` detaches one that has ended.
  ends detaches : ℕ → Event

unfoldable pub step : Codecs → Event → Server → Server
unfolding handle_expect handle_target dial finish
step c (expects now req) s = (handle_expect c now req s).0
step c (targets req) s = (handle_target c req s).0
step c clears s = clear s
step c drops s = drop_connector s
step c (dials now ticket) s = dial c now ticket s
step c (finishes now proved n) s = finish now proved n s
step c (ends n) s = record s { live = close_session n s.live }
step c (detaches n) s = detach n (record s { live = close_session n s.live })

unfoldable pub run : Codecs → List Event → Server → Server
run c [] s = s
run c (e ∷ es) s = run c es (step c e s)

-- `New`.
abbrev pub new_server : Server
new_server = record {
  expect = none;
  attached = none;
  target = [];
  next = 0;
  live = [];
  waiting = [];
  owner = [];
}
