-- ===== src/Rendezvous/Events.antt =====
-- internal/rendezvous/rendezvous.go, `Stream`: events out of the lines of the body, and the events as
-- the service sends them.
use masseuse_camlink.Prelude.{
  ℕ, false, ◌&&◌, List, [], ◌∷◌, ◌++◌, append_assoc, map, ◌≡◌, refl, ap, ◌∙◌, arith, ◌==◌,
  if◌then◌else◌, is_empty, drop, codes, has_prefix, trim_space,
}

pub record Event : Type 0 where
  pub name : List ℕ
  pub text : List ℕ

-- What the loop has read of an event.
abbrev pub nothing : Event
nothing = record { name = []; text = [] }

-- `strings.TrimPrefix` of one byte.
abbrev pub trim_prefix : ℕ → List ℕ → List ℕ
trim_prefix c [] = []
trim_prefix c (x ∷ s) = if x == c then s else x ∷ s

abbrev pub separated : List ℕ → List ℕ
separated text = if is_empty text then [] else text ++ b'\n' ∷ []

-- The loop's switch on a line that is not empty.
unfoldable pub take_line : List ℕ → Event → Event
unfolding trim_space has_prefix
take_line l e =
    if has_prefix l (codes ":")
    then e
    else if has_prefix l (codes "event:")
    then record e { name = trim_space (drop 6 l) }
    else if has_prefix l (codes "data:")
    then record e { text = separated e.text ++ trim_prefix b' ' (drop 5 l) }
    else e

-- An empty line ends an event.
unfoldable pub flush : Event → List Event
flush e = if is_empty e.name && is_empty e.text then [] else e ∷ []

-- The events of a body's lines, in order; one that the body breaks off is none.
unfoldable pub read : Event → List (List ℕ) → List Event
unfolding take_line flush
read e [] = []
read e ([] ∷ ls) = flush e ++ read nothing ls
read e ((c ∷ l) ∷ ls) = read (take_line (c ∷ l) e) ls

-- An event whose data are these lines.
pub record Message : Type 0 where
  pub name : List ℕ
  pub first : List ℕ
  pub others : List (List ℕ)

unfoldable pub joined : List ℕ → List (List ℕ) → List ℕ
joined s [] = s
joined s (l ∷ ls) = joined (s ++ b'\n' ∷ l) ls

abbrev pub event_of : Message → Event
event_of m = record { name = m.name; text = joined m.first m.others }

-- The lines of it, as an event stream has them.
abbrev pub data_line : List ℕ → List ℕ
data_line l = codes "data: " ++ l

abbrev pub lines_of : Message → List (List ℕ)
lines_of m = (codes "event: " ++ m.name) ∷ (data_line m.first ∷ (map data_line m.others ++ [] ∷ []))

-- The name is trimmed, and the data do not begin with an empty line.
abbrev pub IsSendable : Message → Type 0
IsSendable m = (trim_space (b' ' ∷ m.name) ≡ m.name) × (is_empty m.first ≡ false)

read-data_line :
    (l : List ℕ) (e : Event) (ls : List (List ℕ))
    → read e (data_line l ∷ ls) ≡ read (record e { text = separated e.text ++ l }) ls
unfolding read take_line has_prefix
read-data_line l e ls = refl

separated_full : (s l : List ℕ) → is_empty s ≡ false → separated s ++ l ≡ s ++ b'\n' ∷ l
separated_full s l h = rw h (append_assoc s (b'\n' ∷ []) l)

full_append : (s l : List ℕ) → is_empty s ≡ false → is_empty (s ++ l) ≡ false
full_append [] l h = cc
full_append (c ∷ s) l h = refl

read_others :
    (ls : List (List ℕ)) (name text : List ℕ) (rest : List (List ℕ))
    → is_empty text ≡ false
    → read (record { name = name; text = text }) (map data_line ls ++ [] ∷ rest)
      ≡ record { name = name; text = joined text ls } ∷ read nothing rest
unfolding joined
read_others [] name text rest h = unfold read flush in ground (arith, h)
read_others (l ∷ ls) name text rest h =
    read-data_line l (record { name = name; text = text }) (map data_line ls ++ [] ∷ rest)
    ∙ rw (separated_full text l h)
        (read_others ls name (text ++ b'\n' ∷ l) rest (full_append text (b'\n' ∷ l) h))

read-lines_of :
    (m : Message) (rest : List (List ℕ))
    → IsSendable m
    → read nothing (lines_of m ++ rest) ≡ event_of m ∷ read nothing rest
unfolding read take_line has_prefix
read-lines_of m rest (named, full) =
    ap
      (λ (ls : List (List ℕ)).
        read (record { name = trim_space (b' ' ∷ m.name); text = m.first }) ls)
      (append_assoc (map data_line m.others) ([] ∷ []) rest)
    ∙ rw named (read_others m.others m.name m.first rest full)

-- What the service sends: events, and comments that keep the connection alive.
pub data Sent : Type 0 where
  message : Message → Sent
  keepalive : List ℕ → Sent

unfoldable pub body : List Sent → List (List ℕ)
body [] = []
body (message m ∷ ss) = lines_of m ++ body ss
body (keepalive c ∷ ss) = (b':' ∷ c) ∷ body ss

unfoldable pub events_of : List Sent → List Event
events_of [] = []
events_of (message m ∷ ss) = event_of m ∷ events_of ss
events_of (keepalive c ∷ ss) = events_of ss

unfoldable pub AreSendable : List Sent → Type 0
AreSendable [] = Unit
AreSendable (message m ∷ ss) = IsSendable m × AreSendable ss
AreSendable (keepalive c ∷ ss) = AreSendable ss

read_keepalive :
    (c : List ℕ) (ls : List (List ℕ)) → read nothing ((b':' ∷ c) ∷ ls) ≡ read nothing ls
unfolding read take_line has_prefix
read_keepalive c ls = refl

-- What the client reads of the body is what was sent.
pub read-body : (ss : List Sent) → AreSendable ss → read nothing (body ss) ≡ events_of ss
unfolding body events_of AreSendable
read-body [] h = unfold read in refl
read-body (message m ∷ ss) h =
    read-lines_of m (body ss) h.0 ∙ ap (◌∷◌ (event_of m)) (read-body ss h.1)
read-body (keepalive c ∷ ss) h = read_keepalive c (body ss) ∙ read-body ss h
