-- ===== src/Estim/Mastago/Writes.antt =====
-- internal/estim/mastago/device.go: which commands an operation writes. An exchange writes its own
-- command at most once; what holds of the commands of the parts holds of the whole.
use masseuse_camlink.Prelude.{
  option_keeps, ℤ, subst, ℕ, Bool, true, false, Option, List, [], ◌∷◌, ◌++◌, ◌≡◌, ◌⊎◌, inl, inr,
  refl, sym, ap, ◌∙◌, arith, append_assoc, append-nil, if◌then◌else◌, All, if_keeps,
}
use masseuse_camlink.Estim.Mastago.Reply.{Reply, last_int}
use masseuse_camlink.Estim.Mastago.Device.{
  Event, line, link_ends, ctx_ends, Writing, writes, gap_ends, disconnected, write_error, Turn,
  Waiter, Device, Fault, refused, watch_link, handle_line, idle,
}
use masseuse_camlink.Estim.Mastago.Exchange.{
  Done, Result, ok, err, Action, branch, try, next_turn, later_turns, ready, await, write, exchange,
  set, query_int,
}

All-append {ℓ κ} :
    {A : Type ℓ} (P : A → Type κ) (xs ys : List A) → All P xs → All P ys → All P (xs ++ ys)
All-append P [] ys h k = k
All-append P (x ∷ xs) ys h k = (h.0, All-append P xs ys h.1 k)

-- The second device has written more, and all of that is in `P`.
abbrev pub Sends {κ} : (List ℕ → Type κ) → Device → Device → Type κ
Sends P d d' = (new : List (List ℕ)) × (d'.sent ≡ d.sent ++ new) × All P new

pub record Writes {ℓ κ} {X : Type ℓ} (P : List ℕ → Type κ) (m : Device → X × Device) : Type κ where
  pub sends : (d : Device) → Sends P d (m d).1

module _ {κ} (P : List ℕ → Type κ) where
  pub Sends-same : (d d' : Device) → d'.sent ≡ d.sent → Sends P d d'
  Sends-same d d' h = ([], h ∙ sym (append-nil d.sent), tt)

  pub Sends-trans : (a b c : Device) → Sends P a b → Sends P b c → Sends P a c
  Sends-trans a b c (xs, e, h) (ys, f, k) = (
    xs ++ ys,
    f ∙ ap (λ (s : List (List ℕ)). s ++ ys) e ∙ append_assoc a.sent xs ys,
    All-append P xs ys h k,
  )

module _ {ℓ μ κ} {A : Type ℓ} {X : Type μ} {P : List ℕ → Type κ} where
  Sends-branch :
      (f : Fault → Device → X × Device) (g : A → Device → X × Device) (d d' : Device) (r : Result A)
      → Sends P d d'
      → ((e : Fault) → Writes P (f e))
      → ((a : A) → Writes P (g a))
      → Sends P d (branch r (λ e. f e d') (λ a. g a d')).1
  Sends-branch f g d d' (ok a) s hf hg = Sends-trans P d d' (g a d').1 s ((hg a).sends d')
  Sends-branch f g d d' (err e) s hf hg = Sends-trans P d d' (f e d').1 s ((hf e).sends d')

  pub Writes-try :
      {m : Action A} {f : Fault → Device → X × Device} {g : A → Device → X × Device}
      → Writes P m
      → ((e : Fault) → Writes P (f e))
      → ((a : A) → Writes P (g a))
      → Writes P (try m f g)
  unfolding try
  Writes-try {m} {f} {g} hm hf hg = record {
    sends = λ d. Sends-branch f g d (m d).1 (m d).0 (hm.sends d) hf hg;
  }

-- What writes nothing.
pub Writes-none {μ κ} :
    {X : Type μ} {P : List ℕ → Type κ} {m : Device → X × Device}
    → ((d : Device) → (m d).1.sent ≡ d.sent)
    → Writes P m
Writes-none {P} {m} h = record { sends = λ d. Sends-same P d (m d).1 (h d) }

pub Writes-if {μ κ} :
    {X : Type μ} {P : List ℕ → Type κ} (b : Bool) {f g : Device → X × Device}
    → (b ≡ true → Writes P f)
    → (b ≡ false → Writes P g)
    → Writes P (if b then f else g)
Writes-if true hf hg = hf refl
Writes-if false hf hg = hg refl

idle-sent : (pv : List ℕ → Option ℕ) (es : List Event) (d : Device) → (idle pv es d).sent ≡ d.sent
unfolding idle handle_line watch_link
idle-sent pv [] d = refl
idle-sent pv (line t l ∷ es) d = ground (arith, idle-sent pv es (handle_line pv t l d).0)
idle-sent pv (link_ends ∷ es) d = ground (arith, idle-sent pv es (watch_link d))
idle-sent pv (ctx_ends ∷ es) d = idle-sent pv es d

await-sent :
    (pv : List ℕ → Option ℕ) (cmd : List ℕ) (w : Waiter) (es : List Event) (d : Device)
    → (await pv cmd w es d).1.sent ≡ d.sent
unfolding await handle_line watch_link
await-sent pv cmd w [] d = refl
await-sent pv cmd w (line t l ∷ es) d =
    ground (arith, await-sent pv cmd w es (handle_line pv t l d).0)
await-sent pv cmd w (link_ends ∷ es) d = ground arith
await-sent pv cmd w (ctx_ends ∷ es) d = refl

-- A fault other than a refusal, which only an answer to a written command gives.
abbrev pub IsUnsent : Fault → Type 0
IsUnsent (refused cmd code raw) = (true ≡ false)
IsUnsent e = (true ≡ true)

abbrev pub Failed {ℓ} : {A : Type ℓ} → Result A → Type 0
Failed (ok a) = (true ≡ false)
Failed (err e) = IsUnsent e

-- The command was written, or the operation failed before that, and not by a refusal.
abbrev pub Tried {ℓ} : {A : Type ℓ} → List ℕ → Device → Result A × Device → Type 0
Tried cmd d r = (r.1.sent ≡ d.sent ++ cmd ∷ []) ⊎ ((r.1.sent ≡ d.sent) × Failed r.0)

module _ (pv : List ℕ → Option ℕ) (cmd : List ℕ) (q : Bool) where
  write-Tried : (t : Turn) (w : Writing) (d : Device) → Tried cmd d (write pv cmd q t w d)
  unfolding write
  write-Tried t writes d = inl (await-sent pv cmd _ t.after _)
  write-Tried t gap_ends d = inr (refl, refl)
  write-Tried t disconnected d = inl refl
  write-Tried t (write_error n) d = inl refl

  Tried-after :
      (d d' : Device) (r : Result Reply × Device)
      → d'.sent ≡ d.sent
      → Tried cmd d' r
      → Tried cmd d r
  Tried-after d d' r e (inl h) = inl (h ∙ ap (λ (s : List (List ℕ)). s ++ cmd ∷ []) e)
  Tried-after d d' r e (inr (h, k)) = inr (h ∙ e, k)

  pub exchange-Tried : (d : Device) → Tried cmd d (exchange pv cmd q d)
  unfolding exchange
  exchange-Tried d =
      let t : Turn = next_turn d.turns in
      let d' : Device = ready pv d in
      let same : d'.sent ≡ d.sent =
        idle-sent pv t.before (record d { turns = later_turns d.turns }) in
      if_keeps (λ (r : Result Reply × Device). Tried cmd d r) d'.closed (λ e. inr (same, refl))
        λ e. Tried-after d d' (write pv cmd q t t.writing d') same (write-Tried t t.writing d')

pub Writes-exchange {κ} :
    (P : List ℕ → Type κ) (pv : List ℕ → Option ℕ) (cmd : List ℕ) (q : Bool)
    → P cmd
    → Writes P (exchange pv cmd q)
Writes-exchange P pv cmd q p = record {
  sends = λ d. elim (exchange-Tried pv cmd q d) [
    | inl e ↦ (cmd ∷ [], e, (p, tt))
    | inr h ↦ Sends-same P d (exchange pv cmd q d).1 h.0
  ];
}

module _ {κ} {P : List ℕ → Type κ} (pv : List ℕ → Option ℕ) (cmd : List ℕ) (p : P cmd) where
  pub Writes-set : Writes P (set pv cmd)
  unfolding set
  Writes-set =
      Writes-try (Writes-exchange P pv cmd false p) (λ e. Writes-none λ d. refl)
        λ a. Writes-none λ d. refl

  pub Writes-query_int : Writes P (query_int pv cmd)
  unfolding query_int
  Writes-query_int =
      Writes-try (Writes-exchange P pv cmd true p) (λ e. Writes-none λ d. refl)
        λ r. Writes-none λ d. ground arith

-- What holds after each result of the first part holds of the whole.
pub try_keeps {ℓ μ κ} :
    {A : Type ℓ} {X : Type μ} (P : X × Device → Type κ) (m : Action A)
    {f : Fault → Device → X × Device} {g : A → Device → X × Device} (d : Device)
    → ((e : Fault) (d' : Device) → m d ≡ (err e, d') → P (f e d'))
    → ((a : A) (d' : Device) → m d ≡ (ok a, d') → P (g a d'))
    → P (try m f g d)
unfolding try
try_keeps {A} {X} P m {f} {g} d hf hg = split (m d) refl
  where
    split : (r : Result A × Device) → m d ≡ r → P (branch r.0 (λ e. f e r.1) (λ a. g a r.1))
    split (ok a, d') e = hg a d' e
    split (err x, d') e = hf x d' e

-- A command whose operation succeeded was written.
pub written :
    {A : Type 0} (cmd : List ℕ) (d : Device) (a : A) (d' : Device)
    → Tried cmd d (ok a, d')
    → d'.sent ≡ d.sent ++ cmd ∷ []
written cmd d a d' (inl h) = h
written cmd d a d' (inr h) = cc h.1

module _ (pv : List ℕ → Option ℕ) where
  pub Tried-set : (cmd : List ℕ) (d : Device) → Tried cmd d (set pv cmd d)
  unfolding set
  Tried-set cmd d =
      try_keeps (λ (r : Result Done × Device). Tried cmd d r) (exchange pv cmd false) d
        (λ e d' h.
          subst (λ (x : Result Reply × Device). Tried cmd d x) h (exchange-Tried pv cmd false d))
        λ r d' h.
          subst (λ (x : Result Reply × Device). Tried cmd d x) h (exchange-Tried pv cmd false d)

  pub Tried-query_int : (cmd : List ℕ) (d : Device) → Tried cmd d (query_int pv cmd d)
  unfolding query_int
  Tried-query_int cmd d =
      try_keeps (λ (r : Result ℤ × Device). Tried cmd d r) (exchange pv cmd true) d
        (λ e d' h.
          subst (λ (x : Result Reply × Device). Tried cmd d x) h (exchange-Tried pv cmd true d))
        λ r d' h.
          let t =
            subst (λ (x : Result Reply × Device). Tried cmd d x) h (exchange-Tried pv cmd true d) in
          let w = written cmd d r d' t in
          option_keeps (λ (m : Action ℤ). Tried cmd d (m d')) (last_int r.content) (λ e. inl w)
            λ n e. inl w
