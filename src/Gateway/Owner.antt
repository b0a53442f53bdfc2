-- ===== src/Gateway/Owner.antt =====
-- internal/gateway/gateway.go: one session at a time, and a target for the connector it was set for.
use masseuse_camlink.Prelude.{
  ℕ, ◌≡◌, inl, inr, refl, sym, subst, Bool, true, false, ◌||◌, not, Option, none, some, List, [],
  ◌∷◌, ◌==◌, if_keeps, option_keeps, trim_right, is_empty, contains_any, codes, arith,
}
use masseuse_camlink.Gateway.Server.{
  has_length, is_future, bytes_of, at_seconds, is_port, Expectation, Attached, Server,
  ExpectRequest, TargetRequest, Codecs, Response, close_session, attached_to, attach, is_session,
  detach, drop_connector, clear, keyed, is_attached, expect_connector, expectation_for,
  handle_expect, set_target, handle_target, wait_for, dial,
}
use masseuse_camlink.Gateway.Steps.{
  take, finish, Event, expects, targets, clears, drops, dials, finishes, ends, detaches, step, run,
  new_server,
}
use masseuse_camlink.Gateway.Invariant.{
  IsKeyOf, IsExpected, IsOwned, close_session-All, close_old-All, IsOwner, own_attached, own_alone,
  unexpected, keyed-IsExpected, keyed-IsOwner, close_session_nil,
}

attach-IsOwned : (now id : ℕ) (s : Server) → IsOwned s → IsOwned (attach now id s)
unfolding attach
attach-IsOwned now id s h =
    option_keeps IsOwned s.expect (λ _. h)
      (λ e k.
        if_keeps IsOwned (e.id == id)
          (λ _. (
            (ground arith, close_old-All s.attached s.live (attached_to now e s).attached h.0),
            refl,
            own_attached s.target s.owner e s.attached
                (subst (λ x. IsOwner s.target s.owner s.attached x) k h.2),
          ))
          (λ _. h))

ended-IsOwned :
    (n : ℕ) (s : Server) → IsOwned s → IsOwned (record s { live = close_session n s.live })
ended-IsOwned n s h =
    (close_session-All (λ i. is_session i s.attached ≡ true) n s.live h.0, h.1, h.2)

detach-IsOwned :
    (n : ℕ) (s : Server)
    → IsOwned s
    → IsOwned (detach n (record s { live = close_session n s.live }))
unfolding detach
detach-IsOwned n s h =
    if_keeps IsOwned (is_session n s.attached)
      (λ e. (
        rw (close_session_nil s.attached n s.live e h.0) tt,
        tt,
        own_alone s.target s.owner s.attached s.expect h.2,
      ))
      (λ _. ended-IsOwned n s h)

drop_connector-IsOwned : (s : Server) → IsOwned s → IsOwned (drop_connector s)
unfolding drop_connector
drop_connector-IsOwned s h = (
  close_old-All s.attached s.live none h.0,
  tt,
  own_alone s.target s.owner s.attached s.expect h.2,
)

clear-IsOwned : (s : Server) → IsOwned s → IsOwned (clear s)
unfolding clear
clear-IsOwned s h = (h.0, unexpected s.attached, inl refl)

expect_connector-IsOwned :
    (e : Expectation) (s : Server) → IsOwned s → IsOwned (expect_connector e s)
unfolding expect_connector
expect_connector-IsOwned e s h =
    let x : Expectation = record e { attached_once = is_attached s.attached || e.attached_once } in
    if_keeps IsOwned (keyed e.key_str s.attached s.expect)
      (λ k. (
        h.0,
        keyed-IsExpected x s.attached s.expect k,
        keyed-IsOwner s.target s.owner x s.attached s.expect k h.2,
      ))
      (λ _. (close_old-All s.attached s.live none h.0, tt, inl refl))

module _ (c : Codecs) where
  handle_expect-IsOwned :
      (now : ℕ) (req : ExpectRequest) (s : Server)
      → IsOwned s
      → IsOwned (handle_expect c now req s).0
  unfolding handle_expect
  handle_expect-IsOwned now req s h =
      let key = c.decode (trim_right b'=' req.connector_key) in
      let hash = c.hex (c.lower req.ticket_hash) in
      if_keeps (λ (r : Server × Response). IsOwned r.0)
        ((not (has_length 32 key) || not (has_length 32 hash))
          || not (is_future now req.expires_at))
        (λ _. h)
        (λ _.
          expect_connector-IsOwned
            (record {
              id = s.next;
              key = bytes_of key;
              key_str = req.connector_key;
              ticket_hash = bytes_of hash;
              expires_at = at_seconds req.expires_at;
              attached_once = false;
            })
            s h)

  set_target-IsOwned :
      (t : List ℕ) (a : Option Attached) (s : Server)
      → s.attached ≡ a
      → IsOwned s
      → IsOwned (set_target c t a s).0
  set_target-IsOwned t none s e h = h
  set_target-IsOwned t (some a) s e h = (
    h.0,
    h.1,
    inr (subst (IsKeyOf a.key_str) (sym e) refl, subst (λ x. IsExpected x s.expect) e h.1),
  )

  handle_target-IsOwned :
      (req : TargetRequest) (s : Server) → IsOwned s → IsOwned (handle_target c req s).0
  unfolding handle_target
  handle_target-IsOwned req s h =
      if_keeps (λ (r : Server × Response). IsOwned r.0)
        ((is_empty (c.trim req.host) || contains_any (c.trim req.host) (codes " /\\@"))
          || not (is_port req.port))
        (λ _. h) (λ _. set_target-IsOwned (c.join (c.trim req.host) req.port) s.attached s refl h)

  wait_for-IsOwned : (o : Option Expectation) (s : Server) → IsOwned s → IsOwned (wait_for c o s)
  wait_for-IsOwned none s h = h
  wait_for-IsOwned (some e) s h = h

  dial-IsOwned :
      (now : ℕ) (ticket : List ℕ) (s : Server) → IsOwned s → IsOwned (dial c now ticket s)
  unfolding dial
  dial-IsOwned now ticket s h = wait_for-IsOwned (expectation_for c now ticket s.expect) s h

finish-IsOwned :
    (now : ℕ) (proved : Bool) (n : ℕ) (s : Server) → IsOwned s → IsOwned (finish now proved n s)
unfolding finish
finish-IsOwned now proved n s h =
    option_keeps IsOwned (take n s.waiting) (λ _. h)
      (λ p _.
        if_keeps IsOwned proved (λ _. attach-IsOwned now p.0 (record s { waiting = p.1 }) h)
          (λ _. h))

step-IsOwned : (c : Codecs) (e : Event) (s : Server) → IsOwned s → IsOwned (step c e s)
unfolding step
step-IsOwned c (expects now req) s h = handle_expect-IsOwned c now req s h
step-IsOwned c (targets req) s h = handle_target-IsOwned c req s h
step-IsOwned c clears s h = clear-IsOwned s h
step-IsOwned c drops s h = drop_connector-IsOwned s h
step-IsOwned c (dials now ticket) s h = dial-IsOwned c now ticket s h
step-IsOwned c (finishes now proved n) s h = finish-IsOwned now proved n s h
step-IsOwned c (ends n) s h = ended-IsOwned n s h
step-IsOwned c (detaches n) s h = detach-IsOwned n s h

run-IsOwned : (c : Codecs) (es : List Event) (s : Server) → IsOwned s → IsOwned (run c es s)
unfolding run
run-IsOwned c [] s h = h
run-IsOwned c (e ∷ es) s h = run-IsOwned c es (step c e s) (step-IsOwned c e s h)

-- Under any sequence of control requests, tunnels that come, shake hands, end and are detached, and
-- sessions dropped: every session that runs is the one attached; the connector attached is the one
-- expected, if one is; and a target, if there is one, was set while a connector with the key of the
-- one attached, and of the one expected, was attached.
pub run_new-IsOwned : (c : Codecs) (es : List Event) → IsOwned (run c es new_server)
run_new-IsOwned c es = run-IsOwned c es new_server (tt, tt, inl refl)
