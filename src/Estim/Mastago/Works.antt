-- ===== src/Estim/Mastago/Works.antt =====
-- internal/estim/mastago: with a unit that works, the ramp gets to its target.
use masseuse_camlink.Prelude.{
  ℕ, zero, suc, ◌+◌, ◌≤◌, Bool, true, false, Option, none, some, List, [], ◌∷◌, ◌++◌, ◌≡◌, ◌≢◌, ◌⊎◌,
  inl, inr, refl, sym, ◌∙◌, ap, arith, is_empty, same_text_iff, has_prefix, trim_space, trim_start,
  trim_end, until_byte, codes, ℤ, pos, eq_ℤ_iff,
}
use masseuse_camlink.Estim.Mastago.Codec.{command_name, query_level, cmd_set_level}
use masseuse_camlink.Estim.Mastago.Reply.{
  Kind, unknown, ack, value, error, heartbeat, Reply, decode_reply, last_int,
}
use masseuse_camlink.Estim.Mastago.Device.{
  line, writes, Turn, Waiter, Device, Fault, accept_as, fold, handle_line, idle,
}
use masseuse_camlink.Estim.Mastago.Exchange.{
  ok, done, Action, answer_as, try, await, write, exchange, set, query_int,
}
use masseuse_camlink.Estim.Mastago.Commands.{set_level_raw, level_allowed}
use masseuse_camlink.Estim.Mastago.Ramp.{
  Ended, head_or_false, rest, read_back, suc_ℤ, nap, poll, asked, try_back, climb,
}

-- A turn in which the unit answers with one line.
abbrev pub answers : ℕ → List ℕ → Turn
answers t l = record { before = []; writing = writes; after = line t l ∷ [] }

-- The lines of a unit that takes an intensity, and that shows one.
abbrev pub Acks : List ℕ → Type 0
Acks l =
    let r = decode_reply l in (is_empty r.raw ≡ false) × (r.kind ≡ ack) × (r.name ≡ codes "CSTR")

abbrev pub Shows : ℤ → List ℕ → Type 0
Shows n l =
    let r = decode_reply l in
    (is_empty r.raw ≡ false)
    × (r.kind ≡ value)
    × (r.name ≡ codes "CSTR")
    × (r.unsolicited ≡ false)
    × (last_int r.content ≡ some n)

-- Over `k` steps from `n` on, the unit takes each intensity and shows it.
pub data IsWorking : ℕ → ℤ → List Turn → Type 0 where
  rests : {n : ℤ} {ts : List Turn} → IsWorking zero n ts
  works :
      {k : ℕ} {n : ℤ} {ts : List Turn} (t u : ℕ) (a l : List ℕ)
      → Acks a
      → Shows n l
      → IsWorking k (suc_ℤ n) ts
      → IsWorking (suc k) n (answers t a ∷ answers u l ∷ ts)

-- The link is up, the next turns are these, and nothing stops the ramp.
abbrev pub IsUp : List Turn → Device → Type 0
IsUp ts d = (d.closed ≡ false) × (d.turns ≡ ts) × (d.polls ≡ []) × (d.sleeps ≡ [])

pub try_ok :
    {A R : Type 0} (m : Action A) (f : Fault → Device → R) (g : A → Device → R) (d d' : Device)
    (a : A)
    → m d ≡ (ok a, d')
    → try m f g d ≡ g a d'
unfolding try
try_ok m f g d d' a e = rw e refl

try_back_ok :
    (m : Device → Ended × Device) (f : ℤ → Fault → Device → Ended × Device)
    (g : ℤ → Device → Ended × Device) (d d' : Device) (n : ℤ)
    → m d ≡ (record { level = n; fault = none }, d')
    → try_back m f g d ≡ g n d'
unfolding try_back
try_back_ok m f g d d' n e =
    ap
      (λ (x : Ended × Device). elim x.0.fault as (λ _. Ended × Device) [
        | some e ↦ f x.0.level e x.1
        | none ↦ g x.0.level x.1
      ])
      e

module _ (pv : List ℕ → Option ℕ) where
  await_lem :
      (cmd : List ℕ) (w : Waiter) (t : ℕ) (l : List ℕ) (d : Device)
      → is_empty (decode_reply l).raw ≡ false
      → accept_as w (decode_reply l) (decode_reply l).kind ≡ true
      → answer_as cmd (decode_reply l) (decode_reply l).kind ≡ ok (decode_reply l)
      → await pv cmd w (line t l ∷ []) d
        ≡ (ok (decode_reply l), record d { now = t; st = fold pv t (decode_reply l) d.st })
  unfolding await handle_line
  await_lem cmd w t l d h k e = rw h (rw (k, e) refl)

  -- An exchange that is answered.
  pub exchange_lem :
      (cmd : List ℕ) (q : Bool) (t : ℕ) (l : List ℕ) (ts : List Turn) (d : Device)
      → IsUp (answers t l ∷ ts) d
      → is_empty (decode_reply l).raw ≡ false
      → accept_as
          (record { name = command_name cmd; query = q })
          (decode_reply l)
          (decode_reply l).kind
        ≡ true
      → answer_as cmd (decode_reply l) (decode_reply l).kind ≡ ok (decode_reply l)
      → (d' : Device) × (exchange pv cmd q d ≡ (ok (decode_reply l), d')) × IsUp ts d'
  unfolding exchange write idle
  exchange_lem cmd q t l ts d (c, u, p, s) h k e =
      let sent = record d { closed = false; turns = ts; sent = d.sent ++ cmd ∷ [] } in
      (
        record sent { now = t; st = fold pv t (decode_reply l) d.st },
        rw (u, c) (await_lem cmd (record { name = command_name cmd; query = q }) t l sent h k e),
        (refl, refl, p, s),
      )

  name_of_level : (n : ℤ) → command_name (cmd_set_level n) ≡ codes "CSTR"
  unfolding command_name cmd_set_level trim_space trim_start trim_end until_byte has_prefix
  name_of_level n = refl

  pub accepts_named :
      (name : List ℕ) (q : Bool) (r : Reply) (k : Kind)
      → r.name ≡ name
      → ((q ≡ false) × (k ≡ ack)) ⊎ ((q ≡ true) × (k ≡ value) × (r.unsolicited ≡ false))
      → accept_as (record { name = name; query = q }) r k ≡ true
  unfolding accept_as
  accepts_named name q r k m (inl (h, e)) = rw (h, e) ((same_text_iff r.name name).1 m)
  accepts_named name q r k m (inr (h, e, u)) =
      rw (h, e, u) (ground (arith, (same_text_iff r.name name).1 m))

  pub answered_as : (cmd : List ℕ) (r : Reply) (k : Kind) → k ≢ error → answer_as cmd r k ≡ ok r
  answered_as cmd r error h = absurd (h refl)
  answered_as cmd r ack h = refl
  answered_as cmd r value h = refl
  answered_as cmd r unknown h = refl
  answered_as cmd r heartbeat h = refl

  set_lem :
      (cmd : List ℕ) (r : Reply) (d d' : Device)
      → exchange pv cmd false d ≡ (ok r, d')
      → set pv cmd d ≡ (ok done, d')
  unfolding set try
  set_lem cmd r d d' e = cc e

  pub query_int_lem :
      (cmd : List ℕ) (r : Reply) (n : ℤ) (d d' : Device)
      → exchange pv cmd true d ≡ (ok r, d')
      → last_int r.content ≡ some n
      → query_int pv cmd d ≡ (ok n, d')
  unfolding query_int try
  query_int_lem cmd r n d d' e i = cc (e, i)

  set_level_lem :
      (n : ℤ) (t : ℕ) (l : List ℕ) (ts : List Turn) (d : Device)
      → level_allowed n ≡ true
      → Acks l
      → IsUp (answers t l ∷ ts) d
      → (d' : Device) × (set_level_raw pv n d ≡ (ok done, d')) × IsUp ts d'
  unfolding set_level_raw try
  set_level_lem n t l ts d a (h, k, m) up =
      let r : Reply = decode_reply l in
      let cmd = cmd_set_level n in
      let (d', e, up') =
        exchange_lem cmd false t l ts d up h
          (accepts_named (command_name cmd) false r r.kind (m ∙ sym (name_of_level n))
            (inl (refl, k)))
          (answered_as cmd r r.kind (λ q. cc (q, k))) in
      (record d' { st = record d'.st { level = some n } }, rw a (cc (set_lem cmd r d d' e)), up')

  read_back_lem :
      (n : ℤ) (t : ℕ) (l : List ℕ) (ts : List Turn) (d : Device)
      → Shows n l
      → IsUp (answers t l ∷ ts) d
      → (d' : Device) × (read_back pv n d ≡ (record { level = n; fault = none }, d')) × IsUp ts d'
  unfolding read_back try command_name has_prefix
  read_back_lem n t l ts d (h, k, m, un, i) up =
      let r : Reply = decode_reply l in
      let (d', e, up') =
        exchange_lem query_level true t l ts d up h
          (accepts_named (codes "CSTR") true r r.kind m (inr (refl, k, un)))
          (answered_as query_level r r.kind (λ q. cc (q, k))) in
      (d', cc (query_int_lem query_level r n d d' e i, (eq_ℤ_iff n n).1 refl), up')

  asks_nothing :
      (first : Bool) (ts : List Turn) (d : Device)
      → IsUp ts d
      → ((nap first d).0 ≡ false) × IsUp ts (nap first d).1
  asks_nothing true ts d up = (refl, up)
  asks_nothing false ts d (c, u, p, s) = (ap head_or_false s, (c, u, p, ap rest s))

  pub polls_nothing :
      (ts : List Turn) (d : Device) → IsUp ts d → ((poll d).0 ≡ false) × IsUp ts (poll d).1
  polls_nothing ts d (c, u, p, s) = (ap head_or_false p, (c, u, ap rest p, s))

  climb_step :
      (k : ℕ) (first : Bool) (applied n : ℤ) (d d3 d4 : Device)
      → (nap first d).0 ≡ false
      → (poll (nap first d).1).0 ≡ false
      → set_level_raw pv n (poll (nap first d).1).1 ≡ (ok done, d3)
      → read_back pv n d3 ≡ (record { level = n; fault = none }, d4)
      → climb pv (suc k) first applied n d ≡ climb pv k false n (suc_ℤ n) d4
  unfolding climb asked
  climb_step k first applied n d d3 d4 e1 e2 e3 e4 = rw e1 (
      rw e2 (
        try_ok (set_level_raw pv n) _ _ _ d3 done e3 ∙ try_back_ok (read_back pv n) _ _ d3 d4 n e4))

  pub climb_works :
      (k : ℕ) (first : Bool) (applied : ℤ) (m : ℕ) (ts : List Turn) (d : Device)
      → IsWorking k (pos m) ts
      → IsUp ts d
      → m + k ≤ 26
      → (climb pv k first applied (pos m) d).0.fault ≡ none
  unfolding climb
  climb_works zero first applied m ts d w up h = refl
  climb_works (suc k) first applied m ts d (works {ts = us} t u a l ha hl w) up h =
      let (e1, up1) = asks_nothing first ts d up in
      let d1 = (nap first d).1 in
      let (e2, up2) = polls_nothing ts d1 up1 in
      let d2 = (poll d1).1 in
      let (d3, e3, up3) =
        set_level_lem (pos m) t a (answers u l ∷ us) d2 (ground (arith, h)) ha up2 in
      let (d4, e4, up4) = read_back_lem (pos m) u l us d3 hl up3 in
      let ih = climb_works k false (pos m) (suc m) us d4 w up4 (omega (arith, h)) in
      rw (climb_step k first applied (pos m) d d3 d4 e1 e2 e3 e4) ih
