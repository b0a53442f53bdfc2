-- ===== src/Estim/Mastago/Turns.antt =====
-- internal/estim/mastago/device.go: the turns that the unit takes. An exchange uses up one, and an
-- answer that is heard later stood in a later one.
use masseuse_camlink.Prelude.{
  subst, ℕ, Bool, true, false, Option, List, [], ◌∷◌, ◌≡◌, refl, ◌∙◌, arith, if◌then◌else◌,
  if_keeps, pos,
}
use mathlib.Core.List.{Memᴰ}
use masseuse_camlink.Estim.Mastago.Codec.{cmd_pause, cmd_set_level, query_paused}
use masseuse_camlink.Estim.Mastago.Reply.{Reply}
use masseuse_camlink.Estim.Mastago.Device.{
  Event, line, link_ends, ctx_ends, Writing, writes, gap_ends, disconnected, write_error, Turn,
  Waiter, Device, Fault, watch_link, handle_line, idle,
}
use masseuse_camlink.Estim.Mastago.Exchange.{
  Result, ok, err, Action, branch, try, next_turn, later_turns, ready, await, write, exchange, set,
  query_int,
}
use masseuse_camlink.Estim.Mastago.Commands.{outputting, pause, set_level_raw}
use masseuse_camlink.Estim.Mastago.Ramp.{is_no_load, confirm_paused, zero_level, go_to_zero}

-- Every turn of the second list is one of the first.
abbrev pub Later : List Turn → List Turn → Type 0
Later ts us = (t : Turn) → Memᴰ t us → Memᴰ t ts

later_turns-Later : (ts : List Turn) → Later ts (later_turns ts)
later_turns-Later [] t m = m
later_turns-Later (u ∷ us) t m = Memᴰ.tail m

Later-refl : (ts us : List Turn) → us ≡ ts → Later ts us
Later-refl ts us e t m = subst (Memᴰ t) e m

-- A line of the turn that is next stood in one of the turns.
pub next_turn-Memᴰ :
    (ts : List Turn) (e : Event) → Memᴰ e (next_turn ts).after → Memᴰ (next_turn ts) ts
next_turn-Memᴰ [] e m = elim m [ ]
next_turn-Memᴰ (t ∷ ts) e m = Memᴰ.head refl

-- What an operation leaves of the turns was there before it.
pub record Consumes {ℓ} {X : Type ℓ} (m : Device → X × Device) : Type 0 where
  pub later : (d : Device) → Later d.turns (m d).1.turns

module _ {ℓ μ} {A : Type ℓ} {X : Type μ} where
  Later-branch :
      (f : Fault → Device → X × Device) (g : A → Device → X × Device) (d d' : Device) (r : Result A)
      → Later d.turns d'.turns
      → ((e : Fault) → Consumes (f e))
      → ((a : A) → Consumes (g a))
      → Later d.turns (branch r (λ e. f e d') (λ a. g a d')).1.turns
  Later-branch f g d d' (ok a) s hf hg t m = s t ((hg a).later d' t m)
  Later-branch f g d d' (err e) s hf hg t m = s t ((hf e).later d' t m)

  Consumes-try :
      {m : Action A} {f : Fault → Device → X × Device} {g : A → Device → X × Device}
      → Consumes m
      → ((e : Fault) → Consumes (f e))
      → ((a : A) → Consumes (g a))
      → Consumes (try m f g)
  unfolding try
  Consumes-try {m} {f} {g} hm hf hg = record {
    later = λ d. Later-branch f g d (m d).1 (m d).0 (hm.later d) hf hg;
  }

Consumes-none {μ} :
    {X : Type μ} {m : Device → X × Device} → ((d : Device) → (m d).1.turns ≡ d.turns) → Consumes m
Consumes-none {m} h = record { later = λ d. Later-refl d.turns (m d).1.turns (h d) }

Consumes-if {μ} :
    {X : Type μ} (b : Bool) {f g : Device → X × Device}
    → Consumes f
    → Consumes g
    → Consumes (if b then f else g)
Consumes-if true hf hg = hf
Consumes-if false hf hg = hg

module _ (pv : List ℕ → Option ℕ) where
  idle-turns : (es : List Event) (d : Device) → (idle pv es d).turns ≡ d.turns
  unfolding idle handle_line watch_link
  idle-turns [] d = refl
  idle-turns (line t l ∷ es) d = ground (arith, idle-turns es (handle_line pv t l d).0)
  idle-turns (link_ends ∷ es) d = ground (arith, idle-turns es (watch_link d))
  idle-turns (ctx_ends ∷ es) d = idle-turns es d

  await-turns :
      (cmd : List ℕ) (w : Waiter) (es : List Event) (d : Device)
      → (await pv cmd w es d).1.turns ≡ d.turns
  unfolding await handle_line watch_link
  await-turns cmd w [] d = refl
  await-turns cmd w (line t l ∷ es) d =
      ground (arith, await-turns cmd w es (handle_line pv t l d).0)
  await-turns cmd w (link_ends ∷ es) d = ground arith
  await-turns cmd w (ctx_ends ∷ es) d = refl

  write-turns :
      (cmd : List ℕ) (q : Bool) (t : Turn) (w : Writing) (d : Device)
      → (write pv cmd q t w d).1.turns ≡ d.turns
  unfolding write
  write-turns cmd q t writes d = await-turns cmd _ t.after _
  write-turns cmd q t gap_ends d = refl
  write-turns cmd q t disconnected d = refl
  write-turns cmd q t (write_error n) d = refl

  exchange-turns :
      (cmd : List ℕ) (q : Bool) (d : Device) → (exchange pv cmd q d).1.turns ≡ later_turns d.turns
  unfolding exchange
  exchange-turns cmd q d =
      let t : Turn = next_turn d.turns in
      let d' : Device = ready pv d in
      let same : d'.turns ≡ later_turns d.turns =
        idle-turns t.before (record d { turns = later_turns d.turns }) in
      if_keeps (λ (r : Result Reply × Device). r.1.turns ≡ later_turns d.turns) d'.closed
        (λ e. same) λ e. write-turns cmd q t t.writing d' ∙ same

  Consumes-exchange : (cmd : List ℕ) (q : Bool) → Consumes (exchange pv cmd q)
  Consumes-exchange cmd q = record {
    later = λ d t m. later_turns-Later d.turns t (subst (Memᴰ t) (exchange-turns cmd q d) m);
  }

  Consumes-set : (cmd : List ℕ) → Consumes (set pv cmd)
  unfolding set
  Consumes-set cmd =
      Consumes-try (Consumes-exchange cmd false) (λ e. Consumes-none λ d. refl)
        λ a. Consumes-none λ d. refl

  Consumes-query_int : (cmd : List ℕ) → Consumes (query_int pv cmd)
  unfolding query_int
  Consumes-query_int cmd =
      Consumes-try (Consumes-exchange cmd true) (λ e. Consumes-none λ d. refl)
        λ r. Consumes-none λ d. ground arith

  Consumes-outputting : Consumes (outputting pv)
  unfolding outputting
  Consumes-outputting =
      Consumes-try (Consumes-query_int query_paused) (λ e. Consumes-none λ d. refl)
        λ n. Consumes-none λ d. refl

  Consumes-confirm_paused : Consumes (confirm_paused pv)
  unfolding confirm_paused
  Consumes-confirm_paused =
      Consumes-try Consumes-outputting (λ e. Consumes-none λ d. refl)
        λ on. Consumes-if on (Consumes-none λ d. refl) (Consumes-none λ d. refl)

  Consumes-zero_level : Consumes (zero_level pv)
  unfolding zero_level set_level_raw
  Consumes-zero_level =
      Consumes-try
        (Consumes-try (Consumes-set (cmd_set_level (pos 0))) (λ e. Consumes-none λ d. refl)
          λ b. Consumes-none λ d. refl)
        (λ e. Consumes-if (is_no_load e) Consumes-confirm_paused (Consumes-none λ d. refl))
        λ b. Consumes-none λ d. refl

  pub Consumes-go_to_zero : Consumes (go_to_zero pv)
  unfolding go_to_zero pause
  Consumes-go_to_zero =
      Consumes-try
        (Consumes-try (Consumes-set cmd_pause) (λ e. Consumes-none λ d. refl)
          λ a. Consumes-none λ d. refl)
        (λ e. Consumes-none λ d. refl) λ a. Consumes-zero_level
