-- ===== src/Estim/Mastago/Reaches.antt =====
-- internal/estim/mastago/device.go, `Ramp`: a ramp upward on a unit that works.
use masseuse_camlink.Prelude.{
  ℕ, suc, ◌≤◌, ◌<◌, true, false, Option, none, some, List, ◌∷◌, ◌≡◌, refl, arith, inr, is_empty,
  has_prefix, codes, ℤ, pos, eq_ℤ, ltb_ℤ,
}
use masseuse_camlink.Estim.Mastago.Codec.{command_name, query_level, query_paused}
use masseuse_camlink.Estim.Mastago.Reply.{value, Reply, decode_reply, last_int}
use masseuse_camlink.Estim.Mastago.Device.{Turn, Device}
use masseuse_camlink.Estim.Mastago.Exchange.{ok, done, query_int}
use masseuse_camlink.Estim.Mastago.Commands.{outputting, level_allowed}
use masseuse_camlink.Estim.Mastago.Ramp.{
  suc_ℤ, gap, poll, asked, ensure_outputting, go_up, ramp_from, ramp,
}
use masseuse_camlink.Estim.Mastago.Works.{
  answers, Shows, IsWorking, IsUp, exchange_lem, accepts_named, answered_as, query_int_lem, try_ok,
  polls_nothing, climb_works,
}
use masseuse_camlink.Estim.Mastago.Arrives.{ramp-EndsAt}

-- The line of a unit that outputs.
abbrev pub ShowsOn : List ℕ → Type 0
ShowsOn l =
    let r = decode_reply l in
    (is_empty r.raw ≡ false)
    × (r.kind ≡ value)
    × (r.name ≡ codes "QPOWP")
    × (r.unsolicited ≡ false)
    × (last_int r.content ≡ some (pos 0))

module _ (pv : List ℕ → Option ℕ) where
  query_lem :
      (cmd : List ℕ) (n : ℤ) (t : ℕ) (l : List ℕ) (ts : List Turn) (d : Device)
      → (let r = decode_reply l in
          (is_empty r.raw ≡ false)
          × (r.kind ≡ value)
          × (r.name ≡ command_name cmd)
          × (r.unsolicited ≡ false)
          × (last_int r.content ≡ some n))
      → IsUp (answers t l ∷ ts) d
      → (d' : Device) × (query_int pv cmd d ≡ (ok n, d')) × IsUp ts d'
  query_lem cmd n t l ts d (h, k, m, un, i) up =
      let r : Reply = decode_reply l in
      let (d', e, up') =
        exchange_lem pv cmd true t l ts d up h
          (accepts_named pv (command_name cmd) true r r.kind m (inr (refl, k, un)))
          (answered_as pv cmd r r.kind (λ q. cc (q, k))) in
      (d', query_int_lem pv cmd r n d d' e i, up')

  ensure_outputting_lem :
      (t : ℕ) (l : List ℕ) (ts : List Turn) (d : Device)
      → ShowsOn l
      → IsUp (answers t l ∷ ts) d
      → (d' : Device) × (ensure_outputting pv d ≡ (ok done, d')) × IsUp ts d'
  unfolding ensure_outputting outputting command_name has_prefix
  ensure_outputting_lem t l ts d h up =
      let (d', e, up') = query_lem query_paused (pos 0) t l ts d h up in
      (
        d',
        try_ok (outputting pv) _ _ d d' true
            (try_ok (query_int pv query_paused) _ _ d d' (pos 0) e),
        up',
      )

  go_up_works :
      (c m : ℕ) (t : ℕ) (l : List ℕ) (ts : List Turn) (d : Device)
      → c < m
      → m ≤ 25
      → ShowsOn l
      → IsWorking (gap (pos c) (pos m)) (suc_ℤ (pos c)) ts
      → IsUp (answers t l ∷ ts) d
      → (go_up pv (pos m) (pos c) d).0.fault ≡ none
  unfolding go_up asked
  go_up_works c m t l ts d lt le on w up =
      let (e, up1) = polls_nothing pv (answers t l ∷ ts) d up in
      let (d2, e2, up2) = ensure_outputting_lem t l ts (poll d).1 on up1 in
      rw e (
        rw (try_ok (ensure_outputting pv) _ _ (poll d).1 d2 done e2)
          (climb_works pv (gap (pos c) (pos m)) true (pos c) (suc c) ts d2 w up2 (omega arith)))

  ramp_from_below :
      (c m : ℕ) (d : Device) → c < m → ramp_from pv (pos m) (pos c) d ≡ go_up pv (pos m) (pos c) d
  unfolding ramp_from
  ramp_from_below c m d lt =
      let e : eq_ℤ (pos m) (pos c) ≡ false = ground arith in
      let l : ltb_ℤ (pos m) (pos c) ≡ false = ground arith in rw e (rw l refl)

  ramp-faultless :
      (c m : ℕ) (t u : ℕ) (l on : List ℕ) (ts : List Turn) (d : Device)
      → c < m
      → m ≤ 25
      → Shows (pos c) l
      → ShowsOn on
      → IsWorking (gap (pos c) (pos m)) (suc_ℤ (pos c)) ts
      → IsUp (answers t l ∷ answers u on ∷ ts) d
      → (ramp pv (pos m) d).0.fault ≡ none
  unfolding ramp command_name has_prefix
  ramp-faultless c m t u l on ts d lt le shows running w up =
      let (d1, e, up1) = query_lem query_level (pos c) t l (answers u on ∷ ts) d shows up in
      let a : level_allowed (pos m) ≡ true = ground arith in
      rw a (
        rw (try_ok (query_int pv query_level) _ _ d d1 (pos c) e, ramp_from_below c m d1 lt)
          (go_up_works c m u on ts d1 lt le running w up1))

  -- On a link that is up, with nobody cancelling: if the unit shows an intensity below the target,
  -- outputs, and takes and shows each intensity above it up to the target, at most 25, then Ramp
  -- returns the target and no error.
  pub ramp_works :
      (c m : ℕ) (t u : ℕ) (l on : List ℕ) (ts : List Turn) (d : Device)
      → c < m
      → m ≤ 25
      → Shows (pos c) l
      → ShowsOn on
      → IsWorking (gap (pos c) (pos m)) (suc_ℤ (pos c)) ts
      → IsUp (answers t l ∷ answers u on ∷ ts) d
      → (ramp pv (pos m) d).0 ≡ record { level = pos m; fault = none }
  ramp_works c m t u l on ts d lt le shows running w up =
      let e = ramp-faultless c m t u l on ts d lt le shows running w up in
      λ i. record { level = ramp-EndsAt pv (pos m) d e i; fault = e i }
