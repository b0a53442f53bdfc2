-- ===== src/Attest/Json.antt =====
-- internal/attest/attest.go: decoded JSON, and the readers of it. Strings are their bytes; a number is
-- the text of it, since no check reads one.
use masseuse_camlink.Prelude.{ℕ, Bool, false, ◌||◌, List, [], ◌∷◌, same_text, if◌then◌else◌}

mutual
  pub data Json : Type 0 where
    null : Json
    bool : Bool → Json
    num str : List ℕ → Json
    arr : Items → Json
    obj : Fields → Json

  pub data Items : Type 0 where
    end : Items
    item : Json → Items → Items

  -- A decoded object: its keys are different.
  pub data Fields : Type 0 where
    close : Fields
    field : List ℕ → Json → Fields → Fields

-- `m[k]`, nil for a missing key.
unfoldable pub get : List ℕ → Fields → Json
get k close = null
get k (field j v fs) = let rest = get k fs in if same_text j k then v else rest

-- `v.(string)`, "" for what is none.
abbrev pub string_of : Json → List ℕ
string_of (str s) = s
string_of v = []

abbrev pub items_of : Json → Items
items_of (arr vs) = vs
items_of v = end

abbrev pub fields_of : Json → Fields
fields_of (obj fs) = fs
fields_of v = close

-- `nestedAny` and `nestedString`.
unfoldable pub nested_any : Json → List (List ℕ) → Json
nested_any v [] = v
nested_any (obj fs) (p ∷ ps) = nested_any (get p fs) ps
nested_any v (p ∷ ps) = null

abbrev pub nested_string : Json → List (List ℕ) → List ℕ
nested_string v ps = string_of (nested_any v ps)

abbrev pub is_string : List ℕ → Json → Bool
is_string s (str t) = same_text t s
is_string s v = false

unfoldable pub any_string : List ℕ → Items → Bool
any_string s end = false
any_string s (item v vs) = is_string s v || any_string s vs

-- `containsAny`.
abbrev pub contains_string : Json → List ℕ → Bool
contains_string v s = any_string s (items_of v)

-- `nonceMatches`.
abbrev pub nonce_matches : Json → List ℕ → Bool
nonce_matches (str v) want = same_text v want
nonce_matches (arr vs) want = any_string want vs
nonce_matches v want = false
