-- ===== src/Estim/Runtime/Select.antt =====
-- internal/estim/runtime.go, `SelectUnit`: letting one unit go for another. Restricting the finders
-- is theirs: it shows in what `Connect` finds next.
use masseuse_camlink.Prelude.{
  same_text, Bool, true, false, ◌&&◌, ◌||◌, not, Option, none, some, List, [], ◌∷◌, if◌then◌else◌,
  codes, ℕ,
}
use masseuse_camlink.Estim.Runtime.State.{
  Answer, Device, Runtime, Io, Failure, still_armed, is_armed,
}
use masseuse_camlink.Estim.Runtime.Release.{close, open_device}

abbrev pub last_word : List (List ℕ) → Option (List ℕ)
last_word [] = none
last_word (w ∷ []) = some w
last_word (w ∷ v ∷ ws) = last_word (v ∷ ws)

-- `strings.EqualFold` and `strings.Fields`.
pub record Strings : Type 0 where
  pub equal_fold : List ℕ → List ℕ → Bool
  pub fields : List ℕ → List (List ℕ)

-- `isUnit`.
unfoldable pub is_unit : Strings → Device → List ℕ → Bool
is_unit names d unit =
    (same_text d.port unit || names.equal_fold d.label unit)
    || elim (last_word (names.fields d.label)) [ none ↦ false | some w ↦ names.equal_fold w unit ]

abbrev pub is_none_text : List ℕ → Bool
is_none_text [] = true
is_none_text (c ∷ cs) = false

-- Whether the device that is held is another than the one selected.
unfoldable pub is_other : Strings → Option Device → List ℕ → Bool
is_other names none unit = false
is_other names (some d) unit = not (is_none_text unit) && not (is_unit names d unit)

-- The report says that the unit is gone for another.
abbrev pub let_go : Runtime → Runtime
let_go r = record r { last = record (r.last) { reason = some (codes "let_go") } }

-- `SelectUnit` where there is choosing; `io` is what `Close` meets, `next` what `Open` does.
unfoldable pub select_unit :
    Strings → Io → Io → Option (Answer Device) → List ℕ → Runtime → Runtime × Option Failure
select_unit names io next found unit r =
    if is_armed io.now r
    then (r, some still_armed)
    else if is_other names r.device unit
    then open_device next found (close io (let_go r)).0
    else open_device next found r
