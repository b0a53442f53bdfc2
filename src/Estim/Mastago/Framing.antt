-- ===== src/Estim/Mastago/Framing.antt =====
-- internal/estim/mastago/device.go, `onNotify` and `flushFragment`: lines out of notifications. The
-- buffer keeps what follows the last line end; the lines go to `handle_line` in their order.
use masseuse_camlink.Prelude.{
  ℕ, zero, suc, ◌≤◌, Option, none, some, List, [], ◌∷◌, ◌++◌, append_assoc, append-nil, ◌≡◌, refl,
  sym, ap, ◌∙◌, arith, ◌==◌, if◌then◌else◌, is_empty, length, concat, cut,
}

abbrev newline : ℕ
newline = b'\n'

-- The loop: fuel of the buffer's length is enough, as each line takes a byte or more.
unfoldable pub drain : ℕ → List ℕ → List (List ℕ) × List ℕ
unfolding cut
drain zero rx = ([], rx)
drain (suc fuel) rx = elim (cut newline rx) [
  | none ↦ ([], rx)
  | some (l, more) ↦ let (ls, left) = drain fuel more in (l ∷ ls, left)
]

-- `onNotify`: the lines that a notification completes, and the new buffer.
unfoldable pub on_notify : List ℕ → List ℕ → List (List ℕ) × List ℕ
unfolding drain
on_notify rx b = drain (length (rx ++ b)) (rx ++ b)

-- `flushFragment`: a partial line whose remainder did not come.
unfoldable pub flush_fragment : List ℕ → List (List ℕ) × List ℕ
flush_fragment rx = (if is_empty rx then [] else rx ∷ [], [])

-- Notifications one after the other.
unfoldable pub notified : List ℕ → List (List ℕ) → List (List ℕ) × List ℕ
unfolding on_notify
notified rx [] = ([], rx)
notified rx (b ∷ bs) =
    let (ls, left) = on_notify rx b in let (more, last) = notified left bs in (ls ++ more, last)

-- The same by recursion on the bytes.
abbrev push_byte : ℕ → List (List ℕ) × List ℕ → List (List ℕ) × List ℕ
push_byte c ([], r) = ([], c ∷ r)
push_byte c (l ∷ ls, r) = ((c ∷ l) ∷ ls, r)

unfoldable pub lines : List ℕ → List (List ℕ) × List ℕ
lines [] = ([], [])
lines (c ∷ s) = let p = lines s in if c == newline then ([] ∷ p.0, p.1) else push_byte c p

-- The lines behind those that are complete already.
abbrev behind : List (List ℕ) → List (List ℕ) × List ℕ → List (List ℕ) × List ℕ
behind ls p = (ls ++ p.0, p.1)

Cuts : List ℕ → Option (List ℕ × List ℕ) → Type 0
Cuts s none = lines s ≡ ([], s)
Cuts s (some (l, more)) = (lines s ≡ behind (l ∷ []) (lines more)) × (suc (length more) ≤ length s)

cut-Cuts : (s : List ℕ) → Cuts s (cut newline s)
unfolding cut lines Cuts
cut-Cuts [] = refl
cut-Cuts (c ∷ s) = ground (arith, cut-Cuts s)

drain_enough : (fuel : ℕ) (s : List ℕ) → length s ≤ fuel → drain fuel s ≡ lines s
unfolding drain
drain_enough zero [] h = unfold lines in refl
drain_enough zero (c ∷ s) h = absurd (omega (arith, h))
drain_enough (suc fuel) s h =
    from (cut newline s) (cut-Cuts s) (λ m lt. drain_enough fuel m (omega (arith, h, lt)))
  where
    from :
        (o : Option (List ℕ × List ℕ))
        → Cuts s o
        → ((m : List ℕ) → suc (length m) ≤ length s → drain fuel m ≡ lines m)
        → elim o as (λ _. List (List ℕ) × List ℕ) [
          | none ↦ ([], s)
          | some (l, more) ↦ behind (l ∷ []) (drain fuel more)
        ]
          ≡ lines s
    from none k ih = unfold Cuts in sym k
    from (some (l, more)) k ih = unfold Cuts in ap (behind (l ∷ [])) (ih more k.1) ∙ sym k.0

pub on_notify-lines : (rx b : List ℕ) → on_notify rx b ≡ lines (rx ++ b)
unfolding on_notify
on_notify-lines rx b = drain_enough (length (rx ++ b)) (rx ++ b) (omega arith)

step_append :
    (c : ℕ) (b : List ℕ) (p x : List (List ℕ) × List ℕ)
    → x ≡ behind p.0 (lines (p.1 ++ b))
    → (if c == newline then ([] ∷ x.0, x.1) else push_byte c x) ≡ (
        let y = if c == newline then ([] ∷ p.0, p.1) else push_byte c p in
        behind y.0 (lines (y.1 ++ b)))
unfolding lines
step_append c b ([], r) x h = ground (arith, h)
step_append c b (l ∷ ls, r) x h = ground (arith, h)

lines_append : (a b : List ℕ) → lines (a ++ b) ≡ behind (lines a).0 (lines ((lines a).1 ++ b))
unfolding lines
lines_append [] b = refl
lines_append (c ∷ a) b = step_append c b (lines a) (lines (a ++ b)) (lines_append a b)

lines_left : (s : List ℕ) → lines (lines s).1 ≡ ([], (lines s).1)
unfolding lines
lines_left [] = refl
lines_left (c ∷ s) = left (lines s) (lines_left s)
  where
    left :
        (p : List (List ℕ) × List ℕ)
        → lines p.1 ≡ ([], p.1)
        → (let y = if c == newline then ([] ∷ p.0, p.1) else push_byte c p in lines y.1 ≡ ([], y.1))
    left ([], r) h = ground (arith, h)
    left (l ∷ ls, r) h = ground (arith, h)

-- A buffer that holds no line end.
abbrev pub IsPartial : List ℕ → Type 0
IsPartial rx = lines rx ≡ ([], rx)

-- However the bytes are cut into notifications, they give the same lines.
notified-lines :
    (bs : List (List ℕ)) (rx : List ℕ) → IsPartial rx → notified rx bs ≡ lines (rx ++ concat bs)
unfolding notified
notified-lines [] rx h = sym h ∙ ap lines (sym (append-nil rx))
notified-lines (b ∷ bs) rx h =
    let e = on_notify-lines rx b in
    let s = rx ++ b in
    rw e (
      ap (behind (lines s).0) (notified-lines bs (lines s).1 (lines_left s))
      ∙ sym (lines_append s (concat bs))
      ∙ ap lines (append_assoc rx b (concat bs)))

-- To a buffer without a line end, notifications that follow one another without a pause give the
-- lines that all their bytes give in one; and what stays in the buffer has no line end.
pub notified-on_notify :
    (bs : List (List ℕ)) (rx : List ℕ)
    → IsPartial rx
    → (notified rx bs ≡ on_notify rx (concat bs)) × IsPartial (notified rx bs).1
notified-on_notify bs rx h =
    let e = notified-lines bs rx h in
    (e ∙ sym (on_notify-lines rx (concat bs)), rw e (lines_left (rx ++ concat bs)))
