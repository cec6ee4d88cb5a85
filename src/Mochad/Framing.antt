-- ===== src/Mochad/Framing.antt =====
-- The lines that the client hands on do not depend on how the socket cuts the stream into chunks.
use mochad_mqtt_bridge.Prelude.{
  ℕ, zero, suc, ◌≤◌, ◌≡◌, refl, sym, ap, ◌∙◌, inl, inr, Bool, true, false, Option, none, some, List,
  [], ◌∷◌, ◌++◌, map, append-nil, append_assoc, arith, ◌==◌, if◌then◌else◌, Bool-cases, length,
}
use mochad_mqtt_bridge.Text.{Text, strip_by}
use mochad_mqtt_bridge.Mochad.{is_eol, split_once, drain, receive, read_loop}

-- A line end closes a line; another character stands before what follows it.
abbrev before : ℕ → List Text × Text → List Text × Text
before d ([], rest) = ([], d ∷ rest)
before d (l ∷ ls, rest) = ((d ∷ l) ∷ ls, rest)

-- A text cut into its complete lines and the rest, by recursion on the text.
unfoldable pub cut : Text → List Text × Text
cut [] = ([], [])
cut (d ∷ s) = let (ls, rest) = cut s in if d == b'\n' then ([] ∷ ls, rest) else before d (ls, rest)

-- Stripped, as the callback gets them.
abbrev pub stripped : List Text × Text → List Text × Text
stripped (ls, rest) = (map (strip_by is_eol) ls, rest)

-- What `split_once` finds is the first line.
abbrev Found : Text → Option (Text × Text) → Type 0
Found s none = cut s ≡ ([], s)
Found s (some (l, r)) = (cut s ≡ (l ∷ (cut r).0, (cut r).1)) × (suc (length r) ≤ length s)

step-Found :
    (d : ℕ) (s : Text) (o : Option (Text × Text)) (b : Bool)
    → (d == b'\n') ≡ b
    → Found s o
    → Found
        (d ∷ s)
        (if b then some ([], s) else elim o [ none ↦ none | some (l, r) ↦ some (d ∷ l, r) ])
unfolding cut
step-Found d s o true e h = rw e (refl, omega arith)
step-Found d s none false e h = rw (e, h)
step-Found d s (some (l, r)) false e h = (rw (e, h.0), omega (arith, h.1))

split_once-Found : (s : Text) → Found s (split_once b'\n' s)
unfolding cut split_once
split_once-Found [] = refl
split_once-Found (d ∷ s) =
    step-Found d s (split_once b'\n' s) (d == b'\n') refl (split_once-Found s)

-- The loop on fuel, once the first line is looked for.
drain-Found :
    (n : ℕ) (s : Text) (o : Option (Text × Text))
    → ((r : Text) → length r ≤ n → drain n r ≡ stripped (cut r))
    → length s ≤ suc n
    → Found s o
    → (elim o [
      | none ↦ ([], s)
      | some (line, rest) ↦
          let (lines, buffer) = drain n rest in (strip_by is_eol line ∷ lines, buffer)
    ])
      ≡ stripped (cut s)
drain-Found n s none ih h found = rw found
drain-Found n s (some (l, r)) ih h found = rw (found.0, ih r (omega (arith, found.1)))

-- With fuel for every character the loop ends with the text cut into lines.
drain-cut : (n : ℕ) (s : Text) → length s ≤ n → drain n s ≡ stripped (cut s)
unfolding drain cut
drain-cut zero [] h = refl
drain-cut zero (d ∷ s) h = absurd (omega arith)
drain-cut (suc n) s h = drain-Found n s (split_once b'\n' s) (drain-cut n) h (split_once-Found s)

no_line : (s : Text) (o : Option (Text × Text)) → cut s ≡ ([], s) → Found s o → o ≡ none
no_line s none h found = refl
no_line s (some (l, r)) h (found, _) = absurd (cc (sym (ap (λ p. p.0) h) ∙ ap (λ p. p.0) found))

abbrev after : List Text → List Text × Text → List Text × Text
after ls (ms, rest) = (ls ++ ms, rest)

before-after :
    (d : ℕ) (c : List Text × Text) (t : Text)
    → (d == b'\n') ≡ false
    → before d (after c.0 (cut (c.1 ++ t))) ≡ after (before d c).0 (cut ((before d c).1 ++ t))
unfolding cut
before-after d ([], r) t e = rw e
before-after d (l ∷ ls, r) t e = refl

-- Cutting a text in two steps, the second on the rest of the first.
cut-append : (s t : Text) → cut (s ++ t) ≡ after (cut s).0 (cut ((cut s).1 ++ t))
unfolding cut
cut-append [] t = refl
cut-append (d ∷ s) t = elim (Bool-cases (d == b'\n')) [
  | inl e ↦ rw (e, cut-append s t)
  | inr e ↦ rw e (ap (before d) (cut-append s t) ∙ before-after d (cut s) t e)
]

-- The lines of a list of chunks put together.
unfoldable pub concat : List Text → Text
concat [] = []
concat (c ∷ cs) = c ++ concat cs

map-append : (f : Text → Text) (xs ys : List Text) → map f (xs ++ ys) ≡ map f xs ++ map f ys
map-append f [] ys = refl
map-append f (x ∷ xs) ys = ap (◌∷◌ (f x)) (map-append f xs ys)

stripped-after :
    (ls : List Text) (c : List Text × Text)
    → stripped (after ls c) ≡ after (stripped (ls, [])).0 (stripped c)
stripped-after ls c = rw (map-append (strip_by is_eol) ls c.0)

before_rest :
    (d : ℕ) (c : List Text × Text)
    → (d == b'\n') ≡ false
    → cut c.1 ≡ ([], c.1)
    → cut (before d c).1 ≡ ([], (before d c).1)
unfolding cut
before_rest d ([], r) e h = rw (e, h)
before_rest d (l ∷ ls, r) e h = h

-- What the rest of a cut text holds is no complete line.
cut_rest : (s : Text) → cut (cut s).1 ≡ ([], (cut s).1)
unfolding cut
cut_rest [] = refl
cut_rest (d ∷ s) = elim (Bool-cases (d == b'\n')) [
  | inl e ↦ rw e (cut_rest s)
  | inr e ↦ rw e (before_rest d (cut s) e (cut_rest s))
]

read_loop-cut :
    (buffer : Text) (chunks : List Text)
    → cut buffer ≡ ([], buffer)
    → read_loop buffer chunks ≡ stripped (cut (buffer ++ concat chunks))
unfolding read_loop receive concat
read_loop-cut b [] h = rw (append-nil b, h)
read_loop-cut b (c ∷ cs) h =
    let s = b ++ c in
    let e : receive b c ≡ stripped (cut s) =
      unfold receive in drain-cut (length s) s (omega arith) in
    ap (λ p. after p.0 (read_loop p.1 cs)) e
    ∙ ap (after (stripped (cut s)).0) (read_loop-cut (cut s).1 cs (cut_rest s))
    ∙ sym (stripped-after (cut s).0 (cut ((cut s).1 ++ concat cs)))
    ∙ ap stripped (sym (cut-append s (concat cs)) ∙ ap cut (append_assoc b c (concat cs)))

-- However the stream is cut into chunks, the lines that the loop hands on are the complete lines of
-- the whole text received, stripped of line ends, and the buffer is the text after the last line end.
pub read_loop-concat : (chunks : List Text) → read_loop [] chunks ≡ stripped (cut (concat chunks))
unfolding cut
read_loop-concat chunks = read_loop-cut [] chunks refl

-- The inner loop ends: with fuel for every character of the buffer it stops because the new buffer has
-- no line end, and more fuel makes no difference.
pub drain_ends :
    (fuel : ℕ) (buffer : Text)
    → length buffer ≤ fuel
    → (split_once b'\n' (drain fuel buffer).1 ≡ none)
      × (drain fuel buffer ≡ drain (length buffer) buffer)
drain_ends fuel buffer h =
    let ended = drain-cut fuel buffer h in
    let rest = (cut buffer).1 in
    (
      ap (λ p. split_once b'\n' p.1) ended
          ∙ no_line rest (split_once b'\n' rest) (cut_rest buffer) (split_once-Found rest),
      ended ∙ sym (drain-cut (length buffer) buffer (omega arith)),
    )
