-- ===== src/Rendezvous/Calls.antt =====
-- internal/rendezvous/rendezvous.go: what a handler is told while a stream is attached.
use masseuse_camlink.Prelude.{
  concat, map, ℕ, Bool, true, false, ◌&&◌, Option, none, some, List, [], ◌∷◌, ◌++◌, ◌≡◌, refl,
  arith, if_keeps, is_empty, same_text, codes, All, ◌==◌,
}
use masseuse_camlink.Rendezvous.Events.{
  Event, Sent, AreSendable, nothing, read, body, events_of, read-body,
}
use masseuse_camlink.Rendezvous.Client.{
  Response, Call, on_code, on_paired, on_dial, on_clear, on_estim, on_online, Decoders, call_if,
  on_some, dispatch, dispatch_all, Ending, stream,
}

-- A call with all that its receiver needs.
abbrev pub IsFull : Call → Type 0
IsFull (on_code c t) = is_empty c ≡ false
IsFull (on_paired h) = is_empty h ≡ false
IsFull (on_dial d) =
    (is_empty d.origin ≡ false) × (is_empty d.ticket ≡ false) × (is_empty d.ticket_hash ≡ false)
IsFull (on_clear s r) = (true ≡ true)
IsFull (on_estim s m) = is_empty m ≡ false
IsFull (on_online b) = (true ≡ true)

abbrev AreFull : List Call → Type 0
AreFull cs = All IsFull cs

AreFull-append : (cs ds : List Call) → AreFull cs → AreFull ds → AreFull (cs ++ ds)
AreFull-append [] ds h k = k
AreFull-append (c ∷ cs) ds h k = (h.0, AreFull-append cs ds h.1 k)

call_if-AreFull : (b : Bool) (c : Call) → (b ≡ true → IsFull c) → AreFull (call_if b c)
call_if-AreFull true c h = (h refl, tt)
call_if-AreFull false c h = tt

on_some-AreFull {ℓ} :
    {A : Type ℓ} (o : Option A) (f : A → List Call)
    → ((a : A) → AreFull (f a))
    → AreFull (on_some o f)
unfolding on_some
on_some-AreFull none f h = tt
on_some-AreFull (some a) f h = h a

module _ (decoders : Decoders) (receives : Bool) where
  dispatch-AreFull : (e : Event) → AreFull (dispatch decoders receives e)
  unfolding dispatch
  dispatch-AreFull e =
      if_keeps AreFull (same_text e.name (codes "code"))
        (λ h. on_some-AreFull (decoders.code e.text) _ λ v. call_if-AreFull _ _ λ q. ground arith)
        λ h.
          if_keeps AreFull (same_text e.name (codes "paired"))
            (λ h.
              on_some-AreFull (decoders.paired e.text) _ λ v. call_if-AreFull _ _ λ q. ground arith)
            λ h.
              if_keeps AreFull (same_text e.name (codes "dial"))
                (λ h.
                  on_some-AreFull (decoders.dial e.text) _
                    λ v. call_if-AreFull _ _ λ q. ground arith)
                λ h.
                  if_keeps AreFull (same_text e.name (codes "clear")) (λ h. (refl, tt))
                    λ h.
                      if_keeps AreFull (same_text e.name (codes "estim") && receives)
                        (λ h.
                          on_some-AreFull (decoders.estim e.text) _
                            λ v. call_if-AreFull _ _ λ q. ground arith)
                        λ h. tt

  dispatch_all-AreFull : (es : List Event) → AreFull (dispatch_all decoders receives es)
  unfolding dispatch_all
  dispatch_all-AreFull [] = tt
  dispatch_all-AreFull (e ∷ es) =
      AreFull-append (dispatch decoders receives e) _ (dispatch-AreFull e) (dispatch_all-AreFull es)

  -- Whatever the lines of a stream are and whatever the decoders make of them, the handler gets no
  -- code, pairing or device message that is empty, and no dial without an origin, a ticket and its
  -- hash.
  pub stream-AreFull :
      (r : Response) (lines : List (List ℕ)) (end : Ending)
      → All IsFull (stream decoders receives r lines end).0
  unfolding stream
  stream-AreFull r lines end =
      if_keeps (λ (p : List Call × _). AreFull p.0) (r.status == 200)
        (λ h. (
          refl,
          AreFull-append (dispatch_all decoders receives (read nothing lines)) _
              (dispatch_all-AreFull (read nothing lines)) (refl, tt),
        ))
        λ h. tt

  dispatch_all-concat :
      (es : List Event)
      → dispatch_all decoders receives es ≡ concat (map (dispatch decoders receives) es)
  unfolding dispatch_all
  dispatch_all-concat [] = refl
  dispatch_all-concat (e ∷ es) = rw (dispatch_all-concat es) refl

  -- If an attached stream carries events with trimmed names, whose data do not begin with an empty
  -- line, and comments between them: the handler is told that the client is online, then what each
  -- event calls for, once, in order and with its data unchanged, then that it is offline.
  pub stream-body :
      (r : Response) (ss : List Sent) (end : Ending)
      → r.status ≡ 200
      → AreSendable ss
      → (stream decoders receives r (body ss) end).0
        ≡ on_online true
          ∷ (concat (map (dispatch decoders receives) (events_of ss)) ++ on_online false ∷ [])
  unfolding stream
  stream-body r ss end h k = rw (h, read-body ss k, dispatch_all-concat (events_of ss)) refl
