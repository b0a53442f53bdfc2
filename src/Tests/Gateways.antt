-- ===== src/Tests/Gateways.antt =====
-- internal/gateway: a connector that comes, drops, and gives way to another, with toy codecs.
use masseuse_camlink.Prelude.{
  ℕ, ◌≡◌, refl, true, none, some, List, [], ◌∷◌, ◌++◌, codes, pos, replicate, same_text, trim_right,
  contains_any,
}
use masseuse_camlink.Gateway.Server.{Codecs, relay, close_session}
use masseuse_camlink.Gateway.Steps.{Event, expects, targets, dials, finishes, step, run, new_server}
use masseuse_camlink.Gateway.Invariant.{IsOwned}
use masseuse_camlink.Gateway.Owner.{run_new-IsOwned}

abbrev toy : Codecs
toy = record {
  decode = some;
  hex = some;
  hash = λ s. s;
  lower = λ s. s;
  trim = λ s. s;
  join = λ host port. host ++ codes ":554";
}

abbrev key : ℕ → List ℕ
key n = replicate 32 n

abbrev expects_key : ℕ → Event
expects_key n =
    expects 1 (record { connector_key = key n; ticket_hash = key 7; expires_at = pos 100 })

-- The first connector is attached, and a target is set.
abbrev attached : List Event
attached =
    expects_key 65
    ∷ dials 2 (key 7)
    ∷ finishes 3 true 0
    ∷ targets (record { host = codes "cam"; port = pos 554 })
    ∷ []

attached-relay :
    let s = run toy attached new_server in relay s.attached s.target ≡ some (1, codes "cam:554")
unfolding run step trim_right contains_any same_text close_session
attached-relay = refl

-- Another connector takes over: it gets no target.
abbrev moved : List Event
moved = attached ++ expects_key 66 ∷ dials 4 (key 7) ∷ finishes 5 true 0 ∷ []

moved-relay :
    let s = run toy moved new_server in (relay s.attached s.target ≡ none) × (s.live ≡ 3 ∷ [])
unfolding run step trim_right contains_any same_text close_session
moved-relay = (refl, refl)

run_new-IsOwned_example : IsOwned (run toy moved new_server)
run_new-IsOwned_example = run_new-IsOwned toy moved
