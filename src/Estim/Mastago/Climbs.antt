-- ===== src/Estim/Mastago/Climbs.antt =====
-- internal/estim/mastago/device.go, `Ramp`: the order of what a ramp upward writes.
use masseuse_camlink.Prelude.{
  ℕ, zero, suc, Bool, true, false, Option, none, some, List, [], ◌∷◌, ◌++◌, ◌≡◌, ◌⊎◌, inl, inr,
  refl, sym, ◌∙◌, ap, subst, append_assoc, append-nil, if_keeps, pos, ℤ,
}
use masseuse_camlink.Estim.Mastago.Codec.{query_level, cmd_set_level}
use masseuse_camlink.Estim.Mastago.Device.{Device, Fault}
use masseuse_camlink.Estim.Mastago.Exchange.{Result, ok, err, Action, Done, set, query_int}
use masseuse_camlink.Estim.Mastago.Commands.{set_level_raw, level_allowed}
use masseuse_camlink.Estim.Mastago.Ramp.{Ended, ends, poll, nap, suc_ℤ, asked, read_back, climb}
use masseuse_camlink.Estim.Mastago.Writes.{try_keeps, Tried, written, Tried-set, Tried-query_int}
use masseuse_camlink.Estim.Mastago.Arrives.{try_back_keeps}

-- At most `k` steps from the intensity `n` on, each one up from the last, and each but the last read
-- back before the next.
pub data IsClimb : ℕ → ℤ → List (List ℕ) → Type 0 where
  stays : {k : ℕ} {n : ℤ} → IsClimb k n []
  stops : {k : ℕ} {n : ℤ} → IsClimb (suc k) n (cmd_set_level n ∷ [])
  steps :
      {k : ℕ} {n : ℤ} {cs : List (List ℕ)}
      → IsClimb k (suc_ℤ n) cs
      → IsClimb (suc k) n (cmd_set_level n ∷ query_level ∷ cs)

abbrev pub Climbed : ℕ → ℤ → Device → Device → Type 0
Climbed k n d d' = (new : List (List ℕ)) × (d'.sent ≡ d.sent ++ new) × IsClimb k n new

abbrev TriedBack : Device → Ended × Device → Type 0
TriedBack d r =
    (r.1.sent ≡ d.sent ++ query_level ∷ [])
    ⊎ ((r.1.sent ≡ d.sent) × (r.0.fault ≡ none → true ≡ false))

module _ (pv : List ℕ → Option ℕ) where
  pub Tried-set_level_raw : (n : ℤ) (d : Device) → Tried (cmd_set_level n) d (set_level_raw pv n d)
  unfolding set_level_raw
  Tried-set_level_raw n d =
      let cmd = cmd_set_level n in
      if_keeps (λ (m : Action Done). Tried cmd d (m d)) (level_allowed n)
        (λ ok.
          try_keeps (λ (r : Result Done × Device). Tried cmd d r) (set pv cmd) d
            (λ e d' h. subst (λ (x : Result Done × Device). Tried cmd d x) h (Tried-set pv cmd d))
            λ a d' h. subst (λ (x : Result Done × Device). Tried cmd d x) h (Tried-set pv cmd d))
        λ bad. inr (refl, refl)

  read_back-TriedBack : (n : ℤ) (d : Device) → TriedBack d (read_back pv n d)
  unfolding read_back
  read_back-TriedBack n d =
      try_keeps (λ (r : Ended × Device). TriedBack d r) (query_int pv query_level) d
        (λ e d' h. back e d' (
          subst (λ (x : Result ℤ × Device). Tried query_level d x) h
            (Tried-query_int pv query_level d)))
        λ got d' h. inl (
          written query_level d got d' (
            subst (λ (x : Result ℤ × Device). Tried query_level d x) h
              (Tried-query_int pv query_level d)))
    where
      back :
          (e : Fault) (d' : Device)
          → Tried {A = ℤ} query_level d (err e, d')
          → TriedBack d (ends (pos 0) (some e) d')
      back e d' (inl h) = inl h
      back e d' (inr h) = inr (h.0, λ q. cc)

  -- What the loop has written, one step longer.
  stepped :
      (k : ℕ) (n : ℤ) (d d1 d2 d3 : Device)
      → d1.sent ≡ d.sent ++ cmd_set_level n ∷ []
      → d2.sent ≡ d1.sent ++ query_level ∷ []
      → Climbed k (suc_ℤ n) d2 d3
      → Climbed (suc k) n d d3
  stepped k n d d1 d2 d3 h e (new, f, c) =
      let cmd = cmd_set_level n in
      let both =
        e
        ∙ ap (λ (s : List (List ℕ)). s ++ query_level ∷ []) h
        ∙ append_assoc d.sent (cmd ∷ []) (query_level ∷ []) in
      (
        cmd ∷ query_level ∷ new,
        f
            ∙ ap (λ (s : List (List ℕ)). s ++ new) both
            ∙ append_assoc d.sent (cmd ∷ query_level ∷ []) new,
        steps c,
      )

  stopped :
      (k : ℕ) (n : ℤ) (d d1 : Device) (r : Ended × Device)
      → d1.sent ≡ d.sent ++ cmd_set_level n ∷ []
      → TriedBack d1 r
      → Climbed (suc k) n d r.1
  stopped k n d d1 r h (inl e) = stepped k n d d1 r.1 r.1 h e ([], sym (append-nil r.1.sent), stays)
  stopped k n d d1 r h (inr e) = (cmd_set_level n ∷ [], e.0 ∙ h, stops)

  went_on :
      (k : ℕ) (n : ℤ) (d d1 : Device) (r : Ended × Device) (d3 : Device)
      → d1.sent ≡ d.sent ++ cmd_set_level n ∷ []
      → TriedBack d1 r
      → r.0.fault ≡ none
      → Climbed k (suc_ℤ n) r.1 d3
      → Climbed (suc k) n d d3
  went_on k n d d1 r d3 h (inl e) q c = stepped k n d d1 r.1 d3 h e c
  went_on k n d d1 r d3 h (inr e) q c = cc (e.1 q)

  refused_step :
      (k : ℕ) (n : ℤ) (d d1 : Device) (e : Fault)
      → Tried {A = Done} (cmd_set_level n) d (err e, d1)
      → Climbed (suc k) n d d1
  refused_step k n d d1 e (inl h) = (cmd_set_level n ∷ [], h, stops)
  refused_step k n d d1 e (inr h) = ([], h.0 ∙ sym (append-nil d.sent), stays)

  none_yet : (k : ℕ) (n : ℤ) (d d' : Device) → d'.sent ≡ d.sent → Climbed k n d d'
  none_yet k n d d' h = ([], h ∙ sym (append-nil d.sent), stays)

  nap-sent : (first : Bool) (d : Device) → (nap first d).1.sent ≡ d.sent
  nap-sent true d = refl
  nap-sent false d = refl

  Climbed_from :
      (k : ℕ) (n : ℤ) (d d' d3 : Device) → d'.sent ≡ d.sent → Climbed k n d' d3 → Climbed k n d d3
  Climbed_from k n d d' d3 h (new, e, c) = (new, e ∙ ap (λ (s : List (List ℕ)). s ++ new) h, c)

  -- The loop of a ramp upward writes intensities one above the other from the first on, at most as
  -- many as there are steps, and asks the unit for its intensity between any two; wherever it
  -- stops.
  pub climb-IsClimb :
      (k : ℕ) (first : Bool) (applied n : ℤ) (d : Device)
      → Climbed k n d (climb pv k first applied n d).1
  unfolding climb asked
  climb-IsClimb zero first applied n d = none_yet zero n d d refl
  climb-IsClimb (suc k) first applied n d =
      let d1 = (nap first d).1 in
      let d2 = (poll d1).1 in
      let same = nap-sent first d in
      let P = λ (r : Ended × Device). Climbed (suc k) n d r.1 in
      if_keeps (λ (m : Device → Ended × Device). P (m d1)) (nap first d).0
        (λ e. none_yet (suc k) n d d1 same)
        λ e.
          if_keeps (λ (m : Device → Ended × Device). P (m d2)) (poll d1).0
            (λ e. none_yet (suc k) n d d2 same)
            λ e.
              try_keeps P (set_level_raw pv n) d2
                (λ e d3 h.
                  Climbed_from (suc k) n d d2 d3 same
                    (refused_step k n d2 d3 e (tried (err e, d3) d2 h)))
                λ a d3 h.
                  let w = written (cmd_set_level n) d2 a d3 (tried (ok a, d3) d2 h) in
                  let r = read_back pv n d3 in
                  let b = read_back-TriedBack n d3 in
                  try_back_keeps P (read_back pv n) _ _ d3
                    (λ got e q. Climbed_from (suc k) n d d2 r.1 same (stopped k n d2 d3 r w b))
                    λ q.
                      let end = (climb pv k false r.0.level (suc_ℤ n) r.1).1 in
                      Climbed_from (suc k) n d d2 end same (
                        went_on k n d2 d3 r end w b q
                          (climb-IsClimb k false r.0.level (suc_ℤ n) r.1))
    where
      tried :
          (r : Result Done × Device) (d2 : Device)
          → set_level_raw pv n d2 ≡ r
          → Tried (cmd_set_level n) d2 r
      tried r d2 h =
          subst (λ (x : Result Done × Device). Tried (cmd_set_level n) d2 x) h
            (Tried-set_level_raw n d2)
