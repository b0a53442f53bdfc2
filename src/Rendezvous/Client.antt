-- ===== src/Rendezvous/Client.antt =====
-- internal/rendezvous/rendezvous.go: the client's requests by the answers to them, and what the events
-- of a stream make it call. JSON is decoded elsewhere: the decoders are parameters, none for an error.
use masseuse_camlink.Prelude.{
  ℕ, ◌/◌, Bool, true, false, not, ◌&&◌, ◌||◌, Option, none, some, List, [], ◌∷◌, ◌++◌, leb, ◌==◌,
  if◌then◌else◌, is_empty, length, take, codes, same_text, trim_space, ℤ, pos, leb_ℤ,
}
use masseuse_camlink.Rendezvous.Events.{Event, nothing, read}

pub data Error : Type 0 where
  status_error : ℕ → List ℕ → Error
  session_gone : List ℕ → Error
  malformed no_stream_token no_heartbeat : Error
  silent broken ended context : Error

pub record Response : Type 0 where
  pub status : ℕ
  pub body : List ℕ

unfoldable pub truncate : List ℕ → ℕ → List ℕ
truncate s n = if leb (length s) n then s else take n s ++ codes "..."

abbrev pub excerpt : List ℕ → List ℕ
excerpt body = trim_space (truncate body 200)

-- `Heartbeat` and `ReportSource`, given the service's answer.
unfoldable pub posted : Response → Option Error
unfolding truncate
posted r = if r.status / 100 == 2 then none else some (status_error r.status (excerpt r.body))

-- `PostEstim`: nothing is sent for no messages.
unfoldable pub post_estim : List (List ℕ) → Response → Option Error
unfolding posted truncate
post_estim [] r = none
post_estim (m ∷ ms) r =
    if r.status == 409 || r.status == 410 then some (session_gone (excerpt r.body)) else posted r

pub record HelloResponse : Type 0 where
  pub stream_token : List ℕ
  pub code : List ℕ
  pub code_expires_at_ms : ℤ
  pub heartbeat_every_ms : ℤ

pub data Answer {ℓ} (A : Type ℓ) : Type ℓ where
  ok : A → Answer A
  failed : Error → Answer A

abbrev checked : Option HelloResponse → Answer HelloResponse
checked none = failed malformed
checked (some h) =
    if is_empty h.stream_token
    then failed no_stream_token
    else if leb_ℤ h.heartbeat_every_ms (pos 0)
    then failed no_heartbeat
    else ok h

-- `Hello`.
unfoldable pub hello : (List ℕ → Option HelloResponse) → Response → Answer HelloResponse
unfolding truncate
hello decode r =
    if r.status == 200
    then checked (decode r.body)
    else failed (status_error r.status (excerpt r.body))

pub record FaceOffer : Type 0 where
  pub kind : List ℕ
  pub label : List ℕ
  pub ready : Bool

pub record Source : Type 0 where
  pub kind : List ℕ
  pub label : List ℕ
  pub ready : Bool
  pub wanted : Bool
  pub face : Option FaceOffer

-- `ReportSource`: the labels that are signed and sent.
abbrev pub short_face : Option FaceOffer → Option FaceOffer
short_face none = none
short_face (some f) = some (record f { label = take 64 f.label })

unfoldable pub short_source : Source → Source
short_source s = record s { label = take 64 s.label; face = short_face s.face }

pub record Dial : Type 0 where
  pub session_id : List ℕ
  pub origin : List ℕ
  pub ticket : List ℕ
  pub ticket_hash : List ℕ
  pub expires_at_ms : ℤ

-- `Handler` and `EstimReceiver`: what is called.
pub data Call : Type 0 where
  on_code : List ℕ → ℤ → Call
  on_paired : List ℕ → Call
  on_dial : Dial → Call
  on_clear on_estim : List ℕ → List ℕ → Call
  on_online : Bool → Call

abbrev pub call_if : Bool → Call → List Call
call_if b c = if b then c ∷ [] else []

-- The decoders of the events' data. That of `clear` gives what it has when it fails.
pub record Decoders : Type 0 where
  pub code : List ℕ → Option (List ℕ × ℤ)
  pub paired : List ℕ → Option (List ℕ)
  pub dial : List ℕ → Option Dial
  pub clear : List ℕ → List ℕ × List ℕ
  pub estim : List ℕ → Option (List ℕ × List ℕ)

-- How the reading of the body ends: the client's context ends, the body is at its end or fails, or
-- nothing came for as long as the client waits.
pub data Ending : Type 0 where
  cancels ends_here fails goes_silent : Ending

abbrev ending_error : Ending → Error
ending_error cancels = context
ending_error ends_here = ended
ending_error fails = broken
ending_error goes_silent = silent

unfoldable pub on_some {ℓ} : {A : Type ℓ} → Option A → (A → List Call) → List Call
on_some none f = []
on_some (some a) f = f a

abbrev pub dial_is_full : Dial → Bool
dial_is_full d = not (is_empty d.origin || (is_empty d.ticket || is_empty d.ticket_hash))

module _ (decoders : Decoders) (receives : Bool) where
  -- `dispatch`; `receives` says that the handler serves a device.
  unfoldable pub dispatch : Event → List Call
  unfolding on_some same_text
  dispatch e =
      if same_text e.name (codes "code")
      then on_some (decoders.code e.text) (λ v. call_if (not (is_empty v.0)) (on_code v.0 v.1))
      else if same_text e.name (codes "paired")
      then on_some (decoders.paired e.text) (λ h. call_if (not (is_empty h)) (on_paired h))
      else if same_text e.name (codes "dial")
      then on_some (decoders.dial e.text) (λ d. call_if (dial_is_full d) (on_dial d))
      else if same_text e.name (codes "clear")
      then (let v = decoders.clear e.text in on_clear v.0 v.1 ∷ [])
      else if same_text e.name (codes "estim") && receives
      then on_some (decoders.estim e.text) (λ v. call_if (not (is_empty v.1)) (on_estim v.0 v.1))
      else []

  unfoldable pub dispatch_all : List Event → List Call
  unfolding dispatch
  dispatch_all [] = []
  dispatch_all (e ∷ es) = dispatch e ++ dispatch_all es

  -- `Stream`: the status of the answer, the lines that come, and how they end.
  unfoldable pub stream : Response → List (List ℕ) → Ending → List Call × Error
  unfolding dispatch_all truncate read
  stream r lines end =
      if r.status == 200
      then (
        on_online true ∷ (dispatch_all (read nothing lines) ++ on_online false ∷ []),
        ending_error end,
      )
      else ([], status_error r.status (excerpt r.body))
