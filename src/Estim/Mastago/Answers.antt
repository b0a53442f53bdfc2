-- ===== src/Estim/Mastago/Answers.antt =====
-- internal/estim/mastago/device.go: the answer that ends an exchange is one to the command, and the
-- device's state has taken it in.
use masseuse_camlink.Prelude.{
  ℕ, Bool, true, Option, none, some, List, [], ◌∷◌, ◌≡◌, refl, ◌∙◌, ap, subst, arith, if_keeps,
  is_empty, option_keeps, same_text, same_text_iff, has_prefix, codes, ℤ, pos, eq_ℤ,
}
use mathlib.Core.List.{Memᴰ}
use masseuse_camlink.Estim.Mastago.Codec.{query_paused, command_name}
use masseuse_camlink.Estim.Mastago.Reply.{
  Kind, unknown, ack, value, error, heartbeat, Reply, decode_reply, last_int,
}
use masseuse_camlink.Estim.Mastago.Device.{
  State, Event, line, link_ends, ctx_ends, Writing, writes, gap_ends, disconnected, write_error,
  Turn, Waiter, Device, accept_as, accepted, fold, fold_as, fold_value, handle_line,
}
use masseuse_camlink.Estim.Mastago.Exchange.{
  Result, ok, err, Action, answer, answer_as, next_turn, ready, await, write, exchange, query_int,
}
use masseuse_camlink.Estim.Mastago.Commands.{outputting}
use masseuse_camlink.Estim.Mastago.Writes.{try_keeps}

module _ (pv : List ℕ → Option ℕ) where
  -- The answer stood in a line that arrived, and the state is some state into which it was folded.
  abbrev TookIn : List Event → Reply → Device → Type 0
  TookIn es r d =
      (t : ℕ) × (l : List ℕ) × (st : State) × Memᴰ (line t l) es
      × (decode_reply l ≡ r)
      × (d.st ≡ fold pv t r st)

  -- An answer to a query carries a value under the query's name.
  abbrev pub Answered : List Event → List ℕ → Result Reply × Device → Type 0
  Answered es name (err e, d) = (true ≡ true)
  Answered es name (ok r, d) = (r.kind ≡ value) × (r.name ≡ name) × TookIn es r d

  Answered-later :
      (e : Event) (es : List Event) (name : List ℕ) (x : Result Reply × Device)
      → Answered es name x
      → Answered (e ∷ es) name x
  Answered-later e es name (err f, d) h = refl
  Answered-later e es name (ok r, d) (k, n, (t, l, st, m, c, q)) =
      (k, n, (t, l, st, Memᴰ.tail m, c, q))

  answer_as-Answered :
      (es : List Event) (cmd name : List ℕ) (r : Reply) (k : Kind) (d : Device)
      → accept_as (record { name = name; query = true }) r k ≡ true
      → r.kind ≡ k
      → TookIn es r d
      → Answered es name (answer_as cmd r k, d)
  unfolding accept_as
  answer_as-Answered es cmd name r error d h e k = refl
  answer_as-Answered es cmd name r ack d h e k = cc
  answer_as-Answered es cmd name r unknown d h e k = cc
  answer_as-Answered es cmd name r heartbeat d h e k = cc
  answer_as-Answered es cmd name r value d h e k =
      (e, (same_text_iff r.name name).0 (ground arith), k)

  abbrev Folded : ℕ → List ℕ → State → Device × Option Reply → Type 0
  Folded t l st (d, none) = (true ≡ true)
  Folded t l st (d, some r) = (decode_reply l ≡ r) × (d.st ≡ fold pv t r st)

  handle_line-Folded : (t : ℕ) (l : List ℕ) (d : Device) → Folded t l d.st (handle_line pv t l d)
  unfolding handle_line
  handle_line-Folded t l d =
      if_keeps (λ (p : Device × Option Reply). Folded t l d.st p) (is_empty (decode_reply l).raw)
        (λ e. refl) λ e. (refl, refl)

  module _ (cmd name : List ℕ) where
    answer-Answered :
        (es : List Event) (t : ℕ) (l : List ℕ) (st : State) (p : Device × Option Reply)
        → Folded t l st p
        → accepted (record { name = name; query = true }) p.1 ≡ true
        → Answered (line t l ∷ es) name (answer cmd p.1, p.0)
    answer-Answered es t l st (d, none) h e = cc
    answer-Answered es t l st (d, some r) (c, q) e =
        answer_as-Answered (line t l ∷ es) cmd name r r.kind d e refl
          (t, l, st, Memᴰ.head refl, c, q)

    await-Answered :
        (es : List Event) (d : Device)
        → Answered es name (await pv cmd (record { name = name; query = true }) es d)
    unfolding await
    await-Answered [] d = refl
    await-Answered (line t l ∷ es) d =
        let p : Device × Option Reply = handle_line pv t l d in
        let w : Waiter = record { name = name; query = true } in
        if_keeps (λ (r : Result Reply × Device). Answered (line t l ∷ es) name r) (accepted w p.1)
          (answer-Answered es t l d.st p (handle_line-Folded t l d))
          λ e. Answered-later (line t l) es name _ (await-Answered es p.0)
    await-Answered (link_ends ∷ es) d = refl
    await-Answered (ctx_ends ∷ es) d = refl

  write-Answered :
      (cmd : List ℕ) (t : Turn) (w : Writing) (d : Device)
      → Answered t.after (command_name cmd) (write pv cmd true t w d)
  unfolding write
  write-Answered cmd t writes d = await-Answered cmd (command_name cmd) t.after _
  write-Answered cmd t gap_ends d = refl
  write-Answered cmd t disconnected d = refl
  write-Answered cmd t (write_error n) d = refl

  pub exchange-Answered :
      (cmd : List ℕ) (d : Device)
      → Answered (next_turn d.turns).after (command_name cmd) (exchange pv cmd true d)
  unfolding exchange
  exchange-Answered cmd d =
      let t : Turn = next_turn d.turns in
      if_keeps (λ (r : Result Reply × Device). Answered t.after (command_name cmd) r)
        (ready pv d).closed (λ e. refl) λ e. write-Answered cmd t t.writing (ready pv d)

  fold_paused :
      (t : ℕ) (r : Reply) (n : ℤ) (st : State)
      → r.kind ≡ value
      → r.name ≡ codes "QPOWP"
      → last_int r.content ≡ some n
      → (fold pv t r st).outputting ≡ some (eq_ℤ n (pos 0))
  unfolding fold_as fold_value same_text
  fold_paused t r n st k h e = rw (k, h) (cc e)

  -- An integer that was read is the last one of an answer.
  abbrev pub ReadAs : List Event → List ℕ → Result ℤ × Device → Type 0
  ReadAs es name (err e, d) = (true ≡ true)
  ReadAs es name (ok n, d) =
      (r : Reply) × Answered es name (ok r, d) × (last_int r.content ≡ some n)

  pub query_int-ReadAs :
      (cmd : List ℕ) (d : Device)
      → ReadAs (next_turn d.turns).after (command_name cmd) (query_int pv cmd d)
  unfolding query_int
  query_int-ReadAs cmd d =
      let name : List ℕ = command_name cmd in
      let es : List Event = (next_turn d.turns).after in
      try_keeps (λ (x : Result ℤ × Device). ReadAs es name x) (exchange pv cmd true) d
        (λ e d' h. refl)
        λ r d' h.
          let a : Answered es name (ok r, d') =
            subst (Answered es name) h (exchange-Answered cmd d) in
          option_keeps (λ (m : Action ℤ). ReadAs es name (m d')) (last_int r.content) (λ e. refl)
            λ n e. (r, a, e)

  abbrev pub Known : Result Bool × Device → Type 0
  Known (err e, d) = (true ≡ true)
  Known (ok b, d) = d.st.outputting ≡ some b

  -- The state holds the output that the unit answered.
  pub outputting-Known : (d : Device) → Known (outputting pv d)
  unfolding outputting command_name has_prefix
  outputting-Known d =
      try_keeps (λ (x : Result Bool × Device). Known x) (query_int pv query_paused) d
        (λ e d' h. refl)
        λ n d' h.
          let (r, a, l) =
            subst (ReadAs (next_turn d.turns).after (codes "QPOWP")) h
              (query_int-ReadAs query_paused d) in
          let (k, nm, (t, ln, st, m, c, e)) = a in
          ap (λ (s : State). s.outputting) e ∙ fold_paused t r n st k nm l
