-- ===== src/Estim/Mastago/Paused.antt =====
-- internal/estim/mastago/device.go, `confirmPaused`: the unit is asked whether it is paused.
use masseuse_camlink.Prelude.{
  ℕ, ℤ, Bool, true, false, Option, some, List, [], ◌∷◌, ◌++◌, ◌≡◌, ◌≢◌, inl, inr, refl, sym, ◌∙◌,
  subst, has_prefix, if◌then◌else◌, pos, eq_ℤ, eq_ℤ_iff, codes, Bool-cases,
}
use masseuse_camlink.Estim.Mastago.Codec.{query_paused, command_name}
use masseuse_camlink.Estim.Mastago.Reply.{decode_reply, Reply, value, last_int}
use masseuse_camlink.Estim.Mastago.Device.{Turn, line, State, Device, still_outputting, fold}
use masseuse_camlink.Estim.Mastago.Exchange.{
  next_turn, Result, ok, err, Done, done, raise, pure, query_int,
}
use masseuse_camlink.Estim.Mastago.Commands.{outputting}
use masseuse_camlink.Estim.Mastago.Ramp.{confirm_paused}
use masseuse_camlink.Estim.Mastago.Writes.{try_keeps, Tried, Tried-query_int, written}
use mathlib.Core.List.{Memᴰ}
use masseuse_camlink.Estim.Mastago.Turns.{Later, next_turn-Memᴰ}
use masseuse_camlink.Estim.Mastago.Answers.{Known, outputting-Known, ReadAs, query_int-ReadAs}

-- What a device that operated well has written.
abbrev pub Sent {ℓ} : {A : Type ℓ} → List (List ℕ) → Device → Result A × Device → Type 0
Sent new d (err e, d') = (true ≡ true)
Sent new d (ok a, d') = (d'.sent ≡ d.sent ++ new)

module _ (pv : List ℕ → Option ℕ) where
  -- The state is one into which an answer of the unit was just taken, from a line that arrived after
  -- a command of the script, and the answer says that the unit is paused.
  pub record SaysPaused (turns : List Turn) (d : Device) : Type 0 where
    pub turn : Turn
    pub is_turn : Memᴰ turn turns
    pub at : ℕ
    pub text : List ℕ
    pub arrived : Memᴰ (line at text) turn.after
    pub reply : Reply
    pub decoded : decode_reply text ≡ reply
    pub kind : reply.kind ≡ value
    pub name : reply.name ≡ codes "QPOWP"
    pub number : ℤ
    pub read : last_int reply.content ≡ some number
    pub paused : number ≢ pos 0
    pub before : State
    pub taken_in : d.st ≡ fold pv at reply before

  pub SaysPaused-Later :
      (ts us : List Turn) (d : Device) → Later ts us → SaysPaused us d → SaysPaused ts d
  SaysPaused-Later ts us d k h = record {
    turn = h.turn;
    is_turn = k h.turn h.is_turn;
    at = h.at;
    text = h.text;
    arrived = h.arrived;
    reply = h.reply;
    decoded = h.decoded;
    kind = h.kind;
    name = h.name;
    number = h.number;
    read = h.read;
    paused = h.paused;
    before = h.before;
    taken_in = h.taken_in;
  }

  abbrev Heard : List Turn → Result Bool × Device → Type 0
  Heard ts (err e, d) = (true ≡ true)
  Heard ts (ok true, d) = (true ≡ true)
  Heard ts (ok false, d) = SaysPaused ts d

  outputting-Heard : (d : Device) → Heard d.turns (outputting pv d)
  unfolding outputting command_name has_prefix
  outputting-Heard d =
      try_keeps (λ (x : Result Bool × Device). Heard d.turns x) (query_int pv query_paused) d
        (λ e d' h. refl)
        λ n d' h.
          let (r, a, int) =
            subst (ReadAs pv (next_turn d.turns).after (codes "QPOWP")) h
              (query_int-ReadAs pv query_paused d) in
          let (k, nm, (t, l, st, m, c, e)) = a in
          elim (Bool-cases (eq_ℤ n (pos 0))) [
            | inl z ↦ rw z refl
            | inr z ↦ rw z (record {
              turn = next_turn d.turns;
              is_turn = next_turn-Memᴰ d.turns (line t l) m;
              text = l;
              arrived = m;
              decoded = c;
              reply = r;
              kind = k;
              name = nm;
              number = n;
              read = int;
              paused = λ q. cc (sym z ∙ (eq_ℤ_iff n (pos 0)).1 q);
              at = t;
              before = st;
              taken_in = e;
            })
          ]

  outputting-Sent : (d : Device) → Sent (query_paused ∷ []) d (outputting pv d)
  unfolding outputting
  outputting-Sent d =
      try_keeps (λ (x : Result Bool × Device). Sent (query_paused ∷ []) d x)
        (query_int pv query_paused) d (λ e d' h. refl)
        λ n d' h. written query_paused d n d' (
          subst (λ (x : Result ℤ × Device). Tried query_paused d x) h
            (Tried-query_int pv query_paused d))

  -- The unit was asked, and has answered that it does not output.
  abbrev pub Confirmed : Device → Result Done × Device → Type 0
  Confirmed d (err e, d') = (true ≡ true)
  Confirmed d (ok a, d') =
      (d'.sent ≡ d.sent ++ query_paused ∷ [])
      × (d'.st.outputting ≡ some false)
      × SaysPaused d.turns d'

  pub confirm_paused-Confirmed : (d : Device) → Confirmed d (confirm_paused pv d)
  unfolding confirm_paused
  confirm_paused-Confirmed d =
      try_keeps (λ (r : Result Done × Device). Confirmed d r) (outputting pv) d (λ e d' h. refl)
        λ on d' h.
          settled on d'
            (subst (λ (x : Result Bool × Device). Sent (query_paused ∷ []) d x) h
              (outputting-Sent d))
            (subst (λ (x : Result Bool × Device). Known pv x) h (outputting-Known pv d))
            (subst (λ (x : Result Bool × Device). Heard d.turns x) h (outputting-Heard d))
    where
      settled :
          (on : Bool) (d' : Device)
          → Sent {A = Bool} (query_paused ∷ []) d (ok on, d')
          → d'.st.outputting ≡ some on
          → Heard d.turns (ok on, d')
          → Confirmed d ((if on then raise still_outputting else pure done) d')
      settled true d' s h k = refl
      settled false d' s h k = (s, h, k)
