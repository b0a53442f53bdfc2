-- ===== src/Estim/Mastago/Confirmed.antt =====
-- internal/estim/mastago/device.go, `Release`: what is certain of the unit after a release.
use masseuse_camlink.Prelude.{
  ℕ, true, false, Option, some, List, [], ◌∷◌, ◌++◌, ◌≡◌, ◌⊎◌, inl, inr, refl, ◌∙◌, ap, subst,
  append_assoc, arith, if◌then◌else◌, pos, Bool-cases,
}
use masseuse_camlink.Estim.Mastago.Codec.{cmd_pause, query_paused, cmd_set_level}
use masseuse_camlink.Estim.Mastago.Device.{Device, Fault}
use masseuse_camlink.Estim.Mastago.Exchange.{Result, ok, err, Done, done, raise, set}
use masseuse_camlink.Estim.Mastago.Commands.{pause, set_level_raw}
use masseuse_camlink.Estim.Mastago.Ramp.{
  is_no_load, confirm_paused, zero_level, go_to_zero, release,
}
use masseuse_camlink.Estim.Mastago.Writes.{try_keeps, Tried, IsUnsent, Tried-set, written}
use masseuse_camlink.Estim.Mastago.Climbs.{Tried-set_level_raw}
use masseuse_camlink.Estim.Mastago.Turns.{Later, Consumes-go_to_zero}
use masseuse_camlink.Estim.Mastago.Paused.{
  SaysPaused-Later, Sent, SaysPaused, Confirmed, confirm_paused-Confirmed,
}

-- Nothing, or one question whether the unit is paused.
abbrev pub AtMostAsked : List (List ℕ) → Type 0
AtMostAsked cs = (cs ≡ []) ⊎ (cs ≡ query_paused ∷ [])

is_no_load-IsUnsent : (e : Fault) → is_no_load e ≡ true → IsUnsent e → true ≡ false
is_no_load-IsUnsent e h u = ground arith

module _ (pv : List ℕ → Option ℕ) where
  pause-Sent : (d : Device) → Sent (cmd_pause ∷ []) d (pause pv d)
  unfolding pause
  pause-Sent d =
      try_keeps (λ (r : Result Done × Device). Sent (cmd_pause ∷ []) d r) (set pv cmd_pause) d
        (λ e d' h. refl)
        λ a d' h.
          written cmd_pause d a d'
            (subst (λ (r : Result Done × Device). Tried cmd_pause d r) h (Tried-set pv cmd_pause d))

  -- The intensity zero was written, and then at most the question.
  abbrev Zeroed : Device → Result Done × Device → Type 0
  Zeroed d (err e, d') = (true ≡ true)
  Zeroed d (ok a, d') =
      (asked : List (List ℕ)) × AtMostAsked asked
      × (d'.sent ≡ d.sent ++ cmd_set_level (pos 0) ∷ asked)

  Zeroed-refused :
      (e : Fault) (d d' : Device) (r : Result Done × Device)
      → is_no_load e ≡ true
      → Tried {A = Done} (cmd_set_level (pos 0)) d (err e, d')
      → Confirmed pv d' r
      → Zeroed d r
  Zeroed-refused e d d' (err x, d2) n t c = refl
  Zeroed-refused e d d' (ok a, d2) n (inr t) c = cc (is_no_load-IsUnsent e n t.1)
  Zeroed-refused e d d' (ok a, d2) n (inl t) c = (
    query_paused ∷ [],
    inr refl,
    c.0
        ∙ ap (λ (s : List (List ℕ)). s ++ query_paused ∷ []) t
        ∙ append_assoc d.sent (cmd_set_level (pos 0) ∷ []) (query_paused ∷ []),
  )

  zero_level-Zeroed : (d : Device) → Zeroed d (zero_level pv d)
  unfolding zero_level
  zero_level-Zeroed d =
      let cmd = cmd_set_level (pos 0) in
      let all = Tried-set_level_raw pv (pos 0) d in
      try_keeps (λ (r : Result Done × Device). Zeroed d r) (set_level_raw pv (pos 0)) d
        (λ e d' h. refused_zero e d' (subst (λ (x : Result Done × Device). Tried cmd d x) h all))
        λ a d' h. (
          [],
          inl refl,
          written cmd d a d' (subst (λ (x : Result Done × Device). Tried cmd d x) h all),
        )
    where
      refused_zero :
          (e : Fault) (d' : Device)
          → Tried {A = Done} (cmd_set_level (pos 0)) d (err e, d')
          → Zeroed d ((if is_no_load e then confirm_paused pv else raise e) d')
      refused_zero e d' t = elim (Bool-cases (is_no_load e)) [
        | inl n ↦
            rw n (Zeroed-refused e d d' (confirm_paused pv d') n t (confirm_paused-Confirmed pv d'))
        | inr n ↦ rw n refl
      ]

  -- The pause, the intensity zero, and at most the question.
  abbrev Stopped : Device → Result Done × Device → Type 0
  Stopped d (err e, d') = (true ≡ true)
  Stopped d (ok a, d') =
      (asked : List (List ℕ)) × AtMostAsked asked
      × (d'.sent ≡ d.sent ++ cmd_pause ∷ cmd_set_level (pos 0) ∷ asked)

  Stopped-after :
      (d d1 : Device) (r : Result Done × Device)
      → d1.sent ≡ d.sent ++ cmd_pause ∷ []
      → Zeroed d1 r
      → Stopped d r
  Stopped-after d d1 (err e, d2) h z = refl
  Stopped-after d d1 (ok a, d2) h (asked, q, e) = (
    asked,
    q,
    e
        ∙ ap (λ (s : List (List ℕ)). s ++ cmd_set_level (pos 0) ∷ asked) h
        ∙ append_assoc d.sent (cmd_pause ∷ []) (cmd_set_level (pos 0) ∷ asked),
  )

  go_to_zero-Stopped : (d : Device) → Stopped d (go_to_zero pv d)
  unfolding go_to_zero
  go_to_zero-Stopped d =
      try_keeps (λ (r : Result Done × Device). Stopped d r) (pause pv) d (λ e d' h. refl)
        λ a d1 h.
          Stopped-after d d1 (zero_level pv d1)
            (subst (λ (r : Result Done × Device). Sent (cmd_pause ∷ []) d r) h (pause-Sent d))
            (zero_level-Zeroed d1)

  -- What a release has done.
  abbrev Released : Device → Result Done × Device → Type 0
  Released d (err e, d') = (true ≡ true)
  Released d (ok a, d') =
      (d'.st.outputting ≡ some false)
      × SaysPaused pv d.turns d'
      × (asked : List (List ℕ)) × AtMostAsked asked
      × (d'.sent ≡ d.sent ++ cmd_pause ∷ cmd_set_level (pos 0) ∷ (asked ++ query_paused ∷ []))

  Released-after :
      (d d1 : Device) (a : Done) (r : Result Done × Device)
      → Stopped d (ok a, d1)
      → Later d.turns d1.turns
      → Confirmed pv d1 r
      → Released d r
  Released-after d d1 a (err e, d2) s k c = refl
  Released-after d d1 a (ok b, d2) (asked, q, e) k (f, off, says) = (
    off,
    SaysPaused-Later pv d.turns d1.turns d2 k says,
    asked,
    q,
    f
        ∙ ap (λ (s : List (List ℕ)). s ++ query_paused ∷ []) e
        ∙ append_assoc d.sent (cmd_pause ∷ cmd_set_level (pos 0) ∷ asked) (query_paused ∷ []),
  )

  release-Released : (d : Device) → Released d (release pv d)
  unfolding release
  release-Released d =
      try_keeps (λ (r : Result Done × Device). Released d r) (go_to_zero pv) d (λ e d' h. refl)
        λ a d1 h.
          Released-after d d1 a (confirm_paused pv d1)
            (subst (λ (x : Result Done × Device). Stopped d x) h (go_to_zero-Stopped d))
            (subst (λ (x : Result Done × Device). Later d.turns x.1.turns) h
              ((Consumes-go_to_zero pv).later d))
            (confirm_paused-Confirmed pv d1)

  -- If Release reports no error, it has written the pause, the intensity zero and then the question
  -- whether the unit is paused, once or twice and nothing else; and the device's state is one that
  -- has just taken in the unit's answer to that question, a line that arrived after a command was
  -- written and that says that the unit is paused; so the state says that it does not output.
  pub release_confirms :
      (d d' : Device)
      → release pv d ≡ (ok done, d')
      → (d'.st.outputting ≡ some false)
        × SaysPaused pv d.turns d'
        × (asked : List (List ℕ)) × AtMostAsked asked
        × (d'.sent ≡ d.sent ++ cmd_pause ∷ cmd_set_level (pos 0) ∷ (asked ++ query_paused ∷ []))
  release_confirms d d' h =
      subst (λ (r : Result Done × Device). Released d r) h (release-Released d)
