-- ===== src/Estim/Finders.antt =====
-- internal/estim/estim.go, `Finders`: several families of devices tried in order. A finder is not
-- modelled: `Attempt` and `Listing` say what it answers and whether the context has ended after it.
use masseuse_camlink.Prelude.{Bool, Option, none, some, List, [], ◌∷◌, ◌++◌, if◌then◌else◌}

-- The errors are ErrNoDevice (or wrap it), or another, or the context's, or that there is no finder.
pub data Search {ℓ κ} (D : Type ℓ) (E : Type κ) : Type (ℓ ⊔ κ) where
  found : D → Search D E
  no_device unusable : E → Search D E
  ended no_finder : Search D E

-- `Find` of one finder.
pub data Attempt {ℓ κ} (D : Type ℓ) (E : Type κ) : Type (ℓ ⊔ κ) where
  finds : D → Attempt D E
  lacks fails : E → Bool → Attempt D E

module _ {ℓ κ} {D : Type ℓ} {E : Type κ} where
  -- The first error, or a later one that tells more.
  abbrev pub prefer : Option (Search D E) → Search D E → Search D E
  prefer none e = e
  prefer (some (no_device x)) (unusable y) = unusable y
  prefer (some first) e = first

  abbrev pub result : Option (Search D E) → Search D E
  result none = no_finder
  result (some e) = e

  unfoldable pub find_from : Option (Search D E) → List (Attempt D E) → Search D E
  find_from first [] = result first
  find_from first (finds d ∷ as') = found d
  find_from first (lacks x end ∷ as') =
      let rest = find_from (some (prefer first (no_device x))) as' in if end then ended else rest
  find_from first (fails x end ∷ as') =
      let rest = find_from (some (prefer first (unusable x))) as' in if end then ended else rest

  -- `Finders.Find`.
  unfoldable pub find : List (Attempt D E) → Search D E
  unfolding find_from
  find as' = find_from none as'

-- `List` of one finder: its units and error, none if it cannot list; and whether the context has ended.
pub data Listing {ℓ κ} (U : Type ℓ) (E : Type κ) : Type (ℓ ⊔ κ) where
  cannot_list : Listing U E
  lists : List U → Option E → Bool → Listing U E

abbrev pub first_error {κ} : {E : Type κ} → Option E → Option E → Option E
first_error none e = e
first_error (some x) e = some x

module _ {ℓ κ} {U : Type ℓ} {E : Type κ} where
  unfoldable pub list_from : E → List U → Option E → List (Listing U E) → List U × Option E
  list_from ctx units first [] = (units, first)
  list_from ctx units first (cannot_list ∷ ls) = list_from ctx units first ls
  list_from ctx units first (lists us e end ∷ ls) =
      let rest = list_from ctx (units ++ us) (first_error first e) ls in
      if end then (units ++ us, some ctx) else rest

  -- `Finders.List`; `ctx` is the error of a context that has ended.
  unfoldable pub list : E → List (Listing U E) → List U × Option E
  unfolding list_from
  list ctx ls = list_from ctx [] none ls
