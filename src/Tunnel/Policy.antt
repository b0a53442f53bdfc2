-- ===== src/Tunnel/Policy.antt =====
-- internal/tunnel/tunnel.go: which targets a tunnel may reach, `targetPolicy` and `Tunnel.handle`. The
-- addresses and the name resolution are those of Go's net package, and parameters.
use masseuse_camlink.Prelude.{
  ℕ, Bool, true, false, ◌&&◌, ◌||◌, not, Option, none, some, List, [], ◌∷◌, if◌then◌else◌,
  same_text, is_empty, ℤ, pos, ltb_ℤ,
}

-- net.SplitHostPort, strconv.Atoi, net.ParseIP, net.IP.String, net.JoinHostPort, and what net says of
-- an address.
pub record Net (A : Type 0) : Type 0 where
  pub split : List ℕ → Option (List ℕ × List ℕ)
  pub atoi : List ℕ → Option ℤ
  pub parse : List ℕ → Option A
  pub text : A → List ℕ
  pub join : List ℕ → List ℕ → List ℕ
  pub in_private : A → Bool
  pub in_loopback : A → Bool
  pub in_link_local : A → Bool

pub data Refusal : Type 0 where
  no_host_port bad_port other_target not_private unresolved resolves_outside not_loopback : Refusal

pub data Admission : Type 0 where
  admitted : List ℕ → Admission
  denied : Refusal → Admission

-- The host and the port of a target that has passed the first checks.
pub data Begun : Type 0 where
  begun : List ℕ → List ℕ → Begun
  barred : Refusal → Begun

-- `locked` is empty until a target is.
abbrev pub is_locked_out : List ℕ → List ℕ → Bool
is_locked_out locked target = not (is_empty locked) && not (same_text locked target)

-- What is known of an OPEN: its target, what a resolver answers for its host, whether the dial succeeds
-- (or the function of a reserved target), and whether the session then accepts the stream.
pub record Open (A : Type 0) : Type 0 where
  pub target : List ℕ
  pub answer : Option (List A)
  pub connects : Bool
  pub accepts : Bool

-- What became of a connection that was tried.
pub data Tried : Type 0 where
  unreachable stopped relayed : Tried

pub data Outcome : Type 0 where
  refused : Refusal → Outcome
  answered : Tried → Outcome
  dialed : List ℕ → Tried → Outcome

module _ {A : Type 0} (net : Net A) where
  -- `isPrivate`.
  unfoldable pub is_private : A → Bool
  is_private a = (net.in_private a || net.in_loopback a) || net.in_link_local a

  unfoldable pub all_private : List A → Bool
  all_private [] = true
  all_private (a ∷ as') = is_private a && all_private as'

  abbrev pub resolved : List ℕ → List A → Admission
  resolved port [] = denied unresolved
  resolved port (a ∷ as') =
      if all_private (a ∷ as')
      then admitted (net.join (net.text a) port)
      else denied resolves_outside

  -- `ResolvePrivate`.
  unfoldable pub resolve_private : List ℕ → List ℕ → Option (List A) → Admission
  unfolding all_private is_private
  resolve_private host port answer = elim (net.parse host) [
    | some a ↦ if is_private a then admitted (net.join (net.text a) port) else denied not_private
    | none ↦ elim answer [ none ↦ denied unresolved | some as' ↦ resolved port as' ]
  ]

  unfoldable pub is_port : List ℕ → Bool
  is_port s = elim (net.atoi s) [
    | none ↦ false
    | some n ↦ not (ltb_ℤ n (pos 1)) && not (ltb_ℤ (pos 65535) n)
  ]

  -- `allow` up to the resolution, which it does without the lock.
  unfoldable pub begin_allow : List ℕ → List ℕ → Begun
  unfolding is_port
  begin_allow locked target = elim (net.split target) [
    | none ↦ barred no_host_port
    | some p ↦
        if not (is_port p.1)
        then barred bad_port
        else if is_locked_out locked target
        then barred other_target
        else begun p.0 p.1
  ]

  abbrev pub lock_if : Admission → List ℕ → List ℕ → List ℕ
  lock_if (admitted addr) target locked = target
  lock_if (denied e) target locked = locked

  -- The rest of `allow`: the target that is locked afterwards, and the address.
  unfoldable pub end_allow : List ℕ → Option (List A) → Begun → List ℕ → List ℕ × Admission
  unfolding resolve_private
  end_allow target answer (barred e) locked = (locked, denied e)
  end_allow target answer (begun host port) locked =
      let r = resolve_private host port answer in (lock_if r target locked, r)

  -- `allow`, with no other call meanwhile.
  unfoldable pub allow : List ℕ → Option (List A) → List ℕ → List ℕ × Admission
  unfolding begin_allow end_allow
  allow target answer locked = end_allow target answer (begin_allow locked target) locked

  -- `allowReserved`: why a target is refused.
  unfoldable pub allow_reserved : List ℕ → Option Refusal
  unfolding is_port
  allow_reserved target = elim (net.split target) [
    | none ↦ some no_host_port
    | some p ↦ if not (is_port p.1) then some bad_port else elim (net.parse p.0) [
      | none ↦ some not_loopback
      | some a ↦ if net.in_loopback a then none else some not_loopback
    ]
  ]

  abbrev pub connected : Open A → Tried
  connected o = if not o.connects then unreachable else if not o.accepts then stopped else relayed

  abbrev pub handle_local : Open A → List ℕ → List ℕ × Outcome
  handle_local o locked = elim (allow_reserved o.target) [
    | some e ↦ (locked, refused e)
    | none ↦ (locked, answered (connected o))
  ]

  abbrev pub dial : Open A → List ℕ × Admission → List ℕ × Outcome
  dial o (locked, admitted addr) = (locked, dialed addr (connected o))
  dial o (locked, denied e) = (locked, refused e)

  -- `handle`; `reserved` says which targets are in `Dialer.Local`.
  unfoldable pub handle : (List ℕ → Bool) → Open A → List ℕ → List ℕ × Outcome
  unfolding allow allow_reserved
  handle reserved o locked =
      if reserved o.target then handle_local o locked else dial o (allow o.target o.answer locked)

  -- OPENs that are handled one after another.
  unfoldable pub handle_all :
      (List ℕ → Bool) → List (Open A) → List ℕ → List ℕ × List (Open A × Outcome)
  unfolding handle
  handle_all reserved [] locked = (locked, [])
  handle_all reserved (o ∷ os) locked =
      let r = handle reserved o locked in
      let rest = handle_all reserved os r.0 in (rest.0, (o, r.1) ∷ rest.1)
