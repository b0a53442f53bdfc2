-- ===== src/Tests/Services.antt =====
-- internal/rendezvous: runs of the client of the service.
use masseuse_camlink.Prelude.{
  concat, map, true, false, none, some, List, [], ◌∷◌, ◌++◌, ◌*◌, ◌≡◌, refl, arith, All, codes, pos,
  trim_space,
}
use masseuse_camlink.Rendezvous.Backoff.{
  Bounds, Round, second, min_of, IsDrawn, AreFair, delays, delays-AreFair,
}
use masseuse_camlink.Rendezvous.Events.{
  Message, Sent, message, keepalive, nothing, read, body, events_of, AreSendable,
}
use masseuse_camlink.Rendezvous.Client.{
  Response, on_online, Decoders, ends_here, goes_silent, dispatch, stream,
}
use masseuse_camlink.Rendezvous.Calls.{IsFull, stream-AreFull, stream-body}

abbrev usual : Bounds
usual = record { min_backoff = 0; max_backoff = 0 }

-- Three failures at once, the second of them for too many requests.
abbrev failures : List Round
failures =
    record { lasted = second; status = none; random = 0 }
    ∷ record { lasted = second; status = some 429; random = second }
    ∷ record { lasted = second; status = some 500; random = 2 * second }
    ∷ []

failures-delays : delays usual (min_of usual) failures ≡ (500000000 ∷ 30 * second ∷ 4 * second ∷ [])
unfolding delays
failures-delays = refl

-- A greatest backoff of ten seconds, and a refusal for too many requests.
abbrev eager : Bounds
eager = record { min_backoff = second; max_backoff = 10 * second }

eager-delays :
    delays eager (min_of eager) (record { lasted = 0; status = some 429; random = 0 } ∷ [])
    ≡ 30 * second ∷ []
unfolding delays
eager-delays = refl

failures-IsDrawn : IsDrawn usual (min_of usual) failures
unfolding IsDrawn
failures-IsDrawn = omega arith

delays-AreFair_example : AreFair usual failures (delays usual (min_of usual) failures)
delays-AreFair_example = delays-AreFair usual failures (omega arith) failures-IsDrawn

abbrev code_message : Message
code_message = record { name = codes "code"; first = codes "{"; others = codes "}" ∷ [] }

abbrev sent : List Sent
sent = keepalive (codes " hello") ∷ message code_message ∷ []

sent-AreSendable : AreSendable sent
unfolding AreSendable trim_space
sent-AreSendable = ((refl, refl), tt)

sent_read : read nothing (body sent) ≡ record { name = codes "code"; text = codes "{\n}" } ∷ []
unfolding read body
sent_read = refl

-- Data that begin with an empty line lose it.
empty_line_lost :
    read nothing (codes "data:" ∷ codes "data: x" ∷ [] ∷ [])
    ≡ record { name = []; text = codes "x" } ∷ []
unfolding read
empty_line_lost = refl

abbrev decoders : Decoders
decoders = record {
  code = λ s. some (codes "123456", pos 0);
  paired = λ s. some s;
  dial = λ s. none;
  clear = λ s. (s, []);
  estim = λ s. some (s, s);
}

abbrev good : Response
good = record { status = 200; body = [] }

stream-AreFull_example : All IsFull (stream decoders true good (body sent) goes_silent).0
stream-AreFull_example = stream-AreFull decoders true good (body sent) goes_silent

stream-body_example :
    (stream decoders true good (body sent) ends_here).0
    ≡ on_online true
      ∷ (concat (map (dispatch decoders true) (events_of sent)) ++ on_online false ∷ [])
stream-body_example = stream-body decoders true good sent ends_here refl sent-AreSendable
