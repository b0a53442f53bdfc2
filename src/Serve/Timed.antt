-- ===== src/Serve/Timed.antt =====
-- internal/serve/timed.go, `TimedWriter`: packets held until their source has said what time it is. A
-- packet is opaque; instants are nanoseconds, and a written time of none is that of the forwarding.
use masseuse_camlink.Prelude.{
  ℕ, ◌-◌, ◌^◌, ◌<◌, Bool, true, false, ◌&&◌, Option, none, some, List, [], ◌∷◌, ◌++◌, append_assoc,
  append-nil, ◌≡◌, refl, sym, ap, ◌∙◌, arith, ltb, ◌==◌, ==_iff, if◌then◌else◌, if_keeps,
  Bool-cases, inl, inr, option_keeps, is_empty, length, map,
}

abbrev pub hold_for_time : ℕ
hold_for_time = 10 ^ 9

abbrev pub hold_packets : ℕ
hold_packets = 256

-- `mediaHold`; one that the writer does not have yet is empty.
pub record Hold {ℓ} (P : Type ℓ) : Type ℓ where
  pub settled : Bool
  pub held : List P
  pub since : ℕ

-- `TimedWriter`: the holds by the number of their media.
abbrev pub Writer {ℓ} : Type ℓ → Type ℓ
Writer P = ℕ → Hold P

-- A packet that is written into the publication.
pub record Written {ℓ} (P : Type ℓ) : Type ℓ where
  pub packet : P
  pub time : Option ℕ

-- A call of `Write`: what `timeOf` answers at the time, none throughout if there is none, and the errors
-- of the publication.
pub record Call {ℓ} (P : Type ℓ) : Type ℓ where
  pub media : ℕ
  pub packet : P
  pub now : ℕ
  pub time_of : P → Option ℕ
  pub fails : P → Option (List ℕ)

module _ {ℓ} {P : Type ℓ} where
  abbrev pub no_hold : Hold P
  no_hold = record { settled = false; held = []; since = 0 }

  abbrev pub new_writer : Writer P
  new_writer m = no_hold

  -- `settle`.
  abbrev pub settle : Hold P → Hold P
  settle h = record h { settled = true; held = [] }

  abbrev pub stamped : (P → Option ℕ) → P → Written P
  stamped time p = record { packet = p; time = time p }

  -- `flush`: the packets held, and the one that came with the report.
  unfoldable pub flush : (P → Option ℕ) → List P → List (Written P)
  flush time ps = map (stamped time) ps

  -- The first of the errors.
  unfoldable pub first_error : (P → Option (List ℕ)) → List (Written P) → Option (List ℕ)
  first_error fails [] = none
  first_error fails (w ∷ ws) = elim (fails w.packet) [
    | none ↦ first_error fails ws
    | some e ↦ some e
  ]

  -- The hold with one packet more, from its first packet on.
  abbrev pub hold : ℕ → P → Hold P → Hold P
  hold now p h = record h {
    held = h.held ++ p ∷ [];
    since = if is_empty h.held then now else h.since;
  }

  abbrev pub may_wait : ℕ → Hold P → Bool
  may_wait now h = ltb (now - h.since) hold_for_time && ltb (length h.held) hold_packets

  -- `Write` on the media's hold: the hold after it, and what is written.
  unfoldable pub write_held : Call P → Hold P → Hold P × List (Written P)
  unfolding flush
  write_held c h =
      let later = hold c.now c.packet h in
      if h.settled then (h, stamped c.time_of c.packet ∷ []) else elim (c.time_of c.packet) [
        | some t ↦ (settle h, flush c.time_of (h.held ++ c.packet ∷ []))
        | none ↦
            if may_wait c.now later
            then (later, [])
            else (settle later, flush (λ p. none) later.held)
      ]

  abbrev pub with_hold : ℕ → Hold P → Writer P → Writer P
  with_hold m h w n = if n == m then h else w n

  -- `Write`, with its error.
  unfoldable pub write : Call P → Writer P → Writer P × List (Written P) × Option (List ℕ)
  unfolding write_held first_error
  write c w =
      let r = write_held c (w c.media) in (with_hold c.media r.0 w, r.1, first_error c.fails r.1)

  -- Calls one after another: what is written for one media.
  unfoldable pub write_all : ℕ → Writer P → List (Call P) → Writer P × List (Written P)
  unfolding write
  write_all m w [] = (w, [])
  write_all m w (c ∷ cs) =
      let (w', out, e) = write c w in
      let (last, more) = write_all m w' cs in (last, (if m == c.media then out else []) ++ more)

  -- The packets of one media, in order.
  unfoldable pub given : ℕ → List (Call P) → List P
  given m [] = []
  given m (c ∷ cs) = (if m == c.media then c.packet ∷ [] else []) ++ given m cs

  abbrev pub packets : List (Written P) → List P
  packets ws = map (λ (w : Written P). w.packet) ws

  map-flush : (time : P → Option ℕ) (ps : List P) → packets (flush time ps) ≡ ps
  unfolding flush
  map-flush time [] = refl
  map-flush time (p ∷ ps) = ap (◌∷◌ p) (map-flush time ps)

  -- Fewer packets than the bound wait, and none once the hold is over.
  abbrev pub IsHeld : Hold P → Type ℓ
  IsHeld h = (length h.held < hold_packets) × (h.settled ≡ true → h.held ≡ [])

  -- What is written and what is held are what was held and what came.
  abbrev Keeps : P → Hold P → Hold P × List (Written P) → Type ℓ
  Keeps p h r = (packets r.1 ++ r.0.held ≡ h.held ++ p ∷ []) × IsHeld r.0

  write_held-Keeps : (c : Call P) (h : Hold P) → IsHeld h → Keeps c.packet h (write_held c h)
  unfolding write_held
  write_held-Keeps c h k =
      let later = hold c.now c.packet h in
      let all = h.held ++ c.packet ∷ [] in
      if_keeps (λ (r : Hold P × List (Written P)). Keeps c.packet h r) h.settled
        (λ s. (rw (k.1 s) refl, k))
        λ s.
          option_keeps (λ (r : Hold P × List (Written P)). Keeps c.packet h r) (c.time_of c.packet)
            (λ e.
              if_keeps (λ (r : Hold P × List (Written P)). Keeps c.packet h r)
                (may_wait c.now later) (λ m. (refl, (ground (arith, m), λ q. cc (q, s))))
                λ m. (append-nil _ ∙ map-flush (λ p. none) all, (omega arith, λ q. refl)))
            λ t e. (append-nil _ ∙ map-flush c.time_of all, (omega arith, λ q. refl))

  abbrev pub AreHeld : Writer P → Type ℓ
  AreHeld w = (m : ℕ) → IsHeld (w m)

  write-AreHeld : (c : Call P) (w : Writer P) → AreHeld w → AreHeld (write c w).0
  unfolding write
  write-AreHeld c w k m =
      if_keeps IsHeld (m == c.media) (λ e. (write_held-Keeps c (w c.media) (k c.media)).1) λ e. k m

  packets-append : (a b : List (Written P)) → packets (a ++ b) ≡ packets a ++ packets b
  packets-append [] b = refl
  packets-append (x ∷ a) b = ap (◌∷◌ x.packet) (packets-append a b)

  -- One call, for the packet's own media and for another.
  write_step :
      (m : ℕ) (c : Call P) (w : Writer P)
      → AreHeld w
      → packets (if m == c.media then (write c w).1 else []) ++ ((write c w).0 m).held
        ≡ (w m).held ++ (if m == c.media then c.packet ∷ [] else [])
  unfolding write
  write_step m c w k = elim (Bool-cases (m == c.media)) [
    | inl e ↦ rw e (rw ((==_iff m c.media).0 e) (write_held-Keeps c (w c.media) (k c.media)).0)
    | inr e ↦ rw e (sym (append-nil (w m).held))
  ]

  -- What a writer does for one media over any calls.
  write_all-Keeps :
      (m : ℕ) (w : Writer P) (cs : List (Call P))
      → AreHeld w
      → (packets (write_all m w cs).1 ++ ((write_all m w cs).0 m).held ≡ (w m).held ++ given m cs)
        × AreHeld (write_all m w cs).0
  unfolding write_all given
  write_all-Keeps m w [] k = (sym (append-nil (w m).held), k)
  write_all-Keeps m w (c ∷ cs) k =
      let ih = write_all-Keeps m (write c w).0 cs (write-AreHeld c w k) in
      let out = if m == c.media then (write c w).1 else [] in
      let came = if m == c.media then c.packet ∷ [] else [] in
      let r = write_all m (write c w).0 cs in
      let left = (r.0 m).held in
      (
        ap (λ (ps : List P). ps ++ left) (packets-append out r.1)
            ∙ append_assoc (packets out) (packets r.1) left
            ∙ ap (◌++◌ (packets out)) ih.0
            ∙ sym (append_assoc (packets out) ((write c w).0 m).held (given m cs))
            ∙ ap (λ (ps : List P). ps ++ given m cs) (write_step m c w k)
            ∙ append_assoc (w m).held came (given m cs),
        ih.1,
      )

  new_writer-AreHeld : AreHeld new_writer
  new_writer-AreHeld m = (omega arith, λ q. refl)

  -- Over any writes to a new TimedWriter, whatever the source's times are: what has been written
  -- for a media, followed by what is held for it, is all its packets, each once and in order; fewer
  -- than 256 are held, and none once the hold is over.
  pub write_all_new :
      (m : ℕ) (cs : List (Call P))
      → (packets (write_all m new_writer cs).1 ++ ((write_all m new_writer cs).0 m).held
          ≡ given m cs)
        × IsHeld ((write_all m new_writer cs).0 m)
  write_all_new m cs = let (e, h) = write_all-Keeps m new_writer cs new_writer-AreHeld in (e, h m)
