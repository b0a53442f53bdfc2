-- ===== src/Estim/Preference.antt =====
-- internal/estim/estim.go, `Finders`: which device and which error come out of a search.
use masseuse_camlink.Prelude.{
  false, Option, none, some, List, [], ◌∷◌, ◌++◌, ◌≡◌, refl, All, arith, append_assoc, append-nil,
}
use masseuse_camlink.Estim.Finders.{
  Search, found, no_device, unusable, no_finder, Attempt, finds, lacks, fails, find_from, find,
  Listing, cannot_list, lists, first_error, list_from, list,
}

module _ {ℓ κ} {D : Type ℓ} {E : Type κ} where
  -- The context has not ended after an attempt.
  abbrev pub Runs : Attempt D E → Type 0
  Runs (finds d) = Unit
  Runs (lacks x end) = end ≡ false
  Runs (fails x end) = end ≡ false

  abbrev pub device_of : List (Attempt D E) → Option (Search D E)
  device_of [] = none
  device_of (finds d ∷ as') = some (found d)
  device_of (lacks x end ∷ as') = device_of as'
  device_of (fails x end ∷ as') = device_of as'

  abbrev pub unusable_of : List (Attempt D E) → Option (Search D E)
  unusable_of [] = none
  unusable_of (finds d ∷ as') = unusable_of as'
  unusable_of (lacks x end ∷ as') = unusable_of as'
  unusable_of (fails x end ∷ as') = some (unusable x)

  abbrev pub lack_of : List (Attempt D E) → Option (Search D E)
  lack_of [] = none
  lack_of (finds d ∷ as') = lack_of as'
  lack_of (lacks x end ∷ as') = some (no_device x)
  lack_of (fails x end ∷ as') = lack_of as'

  abbrev pub or_else : Option (Search D E) → Search D E → Search D E
  or_else none s = s
  or_else (some r) s = r

  after_failure :
      (x : E) (as' : List (Attempt D E))
      → All Runs as'
      → find_from (some (unusable x)) as' ≡ or_else (device_of as') (unusable x)
  unfolding find_from
  after_failure x [] h = refl
  after_failure x (finds d ∷ as') h = refl
  after_failure x (lacks y end ∷ as') h = ground (arith, h.0, after_failure x as' h.1)
  after_failure x (fails y end ∷ as') h = ground (arith, h.0, after_failure x as' h.1)

  after_lack :
      (x : E) (as' : List (Attempt D E))
      → All Runs as'
      → find_from (some (no_device x)) as'
        ≡ or_else (device_of as') (or_else (unusable_of as') (no_device x))
  unfolding find_from
  after_lack x [] h = refl
  after_lack x (finds d ∷ as') h = refl
  after_lack x (lacks y end ∷ as') h = ground (arith, h.0, after_lack x as' h.1)
  after_lack x (fails y end ∷ as') h = ground (arith, h.0, after_failure y as' h.1)

  -- While the context lasts, Find gives the first device that a family finds; without one the first
  -- error of a unit that is unusable; without one the first of a family that has no device; and
  -- without families the error that says so.
  pub find_prefers :
      (as' : List (Attempt D E))
      → All Runs as'
      → find as'
        ≡ or_else (device_of as') (or_else (unusable_of as') (or_else (lack_of as') no_finder))
  unfolding find find_from
  find_prefers [] h = refl
  find_prefers (finds d ∷ as') h = refl
  find_prefers (lacks y end ∷ as') h = ground (arith, h.0, after_lack y as' h.1)
  find_prefers (fails y end ∷ as') h = ground (arith, h.0, after_failure y as' h.1)

module _ {ℓ κ} {U : Type ℓ} {E : Type κ} where
  abbrev pub Lasts : Listing U E → Type 0
  Lasts cannot_list = Unit
  Lasts (lists us e end) = end ≡ false

  abbrev pub units_of : List (Listing U E) → List U
  units_of [] = []
  units_of (cannot_list ∷ ls) = units_of ls
  units_of (lists us e end ∷ ls) = us ++ units_of ls

  abbrev pub error_of : List (Listing U E) → Option E
  error_of [] = none
  error_of (cannot_list ∷ ls) = error_of ls
  error_of (lists us none end ∷ ls) = error_of ls
  error_of (lists us (some e) end ∷ ls) = some e

  list_from-units_of :
      (ctx : E) (units : List U) (first : Option E) (ls : List (Listing U E))
      → All Lasts ls
      → list_from ctx units first ls ≡ (units ++ units_of ls, first_error first (error_of ls))
  unfolding list_from
  list_from-units_of ctx units first [] h = ground (arith, append-nil units)
  list_from-units_of ctx units first (cannot_list ∷ ls) h =
      list_from-units_of ctx units first ls h.1
  list_from-units_of ctx units first (lists us e end ∷ ls) h = ground (
    arith,
    h.0,
    list_from-units_of ctx (units ++ us) (first_error first e) ls h.1,
    append_assoc units us (units_of ls),
  )

  -- While the context lasts, List gives the units of all families that can list, in their order,
  -- those of failed listings included, and the first failure.
  pub list-units_of :
      (ctx : E) (ls : List (Listing U E)) → All Lasts ls → list ctx ls ≡ (units_of ls, error_of ls)
  unfolding list
  list-units_of ctx ls h = list_from-units_of ctx [] none ls h
