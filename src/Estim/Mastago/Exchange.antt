-- ===== src/Estim/Mastago/Exchange.antt =====
-- internal/estim/mastago/device.go, `exchange`: a command written, and the wait for its answer.
use masseuse_camlink.Prelude.{
  ℕ, Bool, true, false, Option, none, some, List, [], ◌∷◌, ◌++◌, if◌then◌else◌, ℤ,
}
use masseuse_camlink.Estim.Mastago.Codec.{command_name}
use masseuse_camlink.Estim.Mastago.Reply.{Kind, error, Reply, last_int}
use masseuse_camlink.Estim.Mastago.Device.{
  Event, line, link_ends, ctx_ends, Writing, writes, gap_ends, disconnected, write_error, Turn,
  Waiter, Device, Fault, lost, refused, write_failed, timed_out, ctx_done, odd_answer, accepted,
  accept_as, link_err_locked, watch_link, handle_line, idle,
}

pub data Result {ℓ} (A : Type ℓ) : Type ℓ where
  ok : A → Result A
  err : Fault → Result A

pub data Done : Type 0 where
  done : Done

-- An operation of the device: the device comes back with an error too.
abbrev pub Action {ℓ} : Type ℓ → Type ℓ
Action A = Device → Result A × Device

-- How a caller goes on, whatever type it returns.
abbrev pub branch {ℓ κ} : {A : Type ℓ} {R : Type κ} → Result A → (Fault → R) → (A → R) → R
branch (err e) f g = f e
branch (ok a) f g = g a

unfoldable pub try {ℓ κ} :
    {A : Type ℓ} {R : Type κ} → Action A → (Fault → Device → R) → (A → Device → R) → Device → R
try m f g d = let (r, d') = m d in branch r (λ e. f e d') (λ a. g a d')

abbrev pub raise {ℓ} : {A : Type ℓ} → Fault → Action A
raise e d = (err e, d)

abbrev pub pure {ℓ} : {A : Type ℓ} → A → Action A
pure a d = (ok a, d)

infixl 5 ◌>>=◌
abbrev pub ◌>>=◌ {ℓ κ} : {A : Type ℓ} {B : Type κ} → Action A → (A → Action B) → Action B
m >>= k = try m raise k

abbrev pub silent : Turn
silent = record { before = []; writing = writes; after = [] }

abbrev pub next_turn : List Turn → Turn
next_turn [] = silent
next_turn (t ∷ ts) = t

abbrev pub later_turns : List Turn → List Turn
later_turns [] = []
later_turns (t ∷ ts) = ts

-- A refusal is an error.
abbrev pub answer_as : List ℕ → Reply → Kind → Result Reply
answer_as cmd r error = err (refused cmd r.code r.raw)
answer_as cmd r _ = ok r

abbrev pub answer : List ℕ → Option Reply → Result Reply
answer cmd none = err (timed_out cmd)
answer cmd (some r) = answer_as cmd r r.kind

module _ (parse_volts : List ℕ → Option ℕ) where
  -- The wait: its timer fires when nothing more arrives.
  unfoldable pub await : List ℕ → Waiter → List Event → Action Reply
  unfolding handle_line watch_link link_err_locked accept_as
  await cmd w [] d = raise (timed_out cmd) d
  await cmd w (line t l ∷ es) d =
      let p = handle_line parse_volts t l d in
      let rest = await cmd w es p.0 in if accepted w p.1 then (answer cmd p.1, p.0) else rest
  await cmd w (link_ends ∷ es) d = let d' = watch_link d in raise (lost (link_err_locked d')) d'
  await cmd w (ctx_ends ∷ es) d = raise ctx_done d

  abbrev wrote : List ℕ → Device → Device
  wrote cmd d = record d { sent = d.sent ++ cmd ∷ [] }

  unfoldable pub write : List ℕ → Bool → Turn → Writing → Action Reply
  unfolding await command_name link_err_locked
  write cmd query t writes d =
      await cmd (record { name = command_name cmd; query = query }) t.after (wrote cmd d)
  write cmd query t gap_ends d = raise ctx_done d
  write cmd query t disconnected d = raise (lost (link_err_locked d)) (wrote cmd d)
  write cmd query t (write_error n) d = raise (write_failed n) (wrote cmd d)

  -- What the unit and the link did before the command.
  abbrev pub ready : Device → Device
  ready d = idle parse_volts (next_turn d.turns).before (record d { turns = later_turns d.turns })

  unfoldable pub exchange : List ℕ → Bool → Action Reply
  unfolding write idle link_err_locked
  exchange cmd query d =
      let t = next_turn d.turns in
      let d' = ready d in
      let on = write cmd query t t.writing d' in
      if d'.closed then raise (lost (link_err_locked d')) d' else on

  -- `set` and `queryInt`.
  unfoldable pub set : List ℕ → Action Done
  unfolding exchange
  set cmd = do r ← exchange cmd false; pure done

  unfoldable pub query_int : List ℕ → Action ℤ
  unfolding exchange last_int
  query_int cmd = do
    r ← exchange cmd true
    elim (last_int r.content) [ none ↦ raise (odd_answer cmd) | some n ↦ pure n ]
