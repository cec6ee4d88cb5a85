-- ===== src/Protocol/Regex/Search.antt =====
-- The backtracking search of Python's `re`, for the pattern constructs that protocol/regex.py uses.
use mochad_mqtt_bridge.Prelude.{
  ℕ, zero, suc, ◌-◌, Bool, true, false, Option, none, some, List, [], ◌∷◌, ltb, ◌==◌, if◌then◌else◌,
  length,
}
use mochad_mqtt_bridge.Text.{Text, text_eq}

-- A pattern. The tests of characters carry the flag IGNORECASE; `^` is no constructor, since
-- `Pattern.match` starts at the beginning.
pub data Regex : Type 0 where
  empty at_end : Regex
  char : (ℕ → Bool) → Regex
  seq alt : Regex → Regex → Regex
  star lazy : Regex → Regex
  group : Text → Regex → Regex

-- the groups that have been captured, the last one first
abbrev pub Groups : Type 0
Groups = List (Text × Text)

-- what is tried on the text and the groups that remain
abbrev pub Rest : Type 0
Rest = Text → Groups → Option Groups

unfoldable pub or_else : Option Groups → Option Groups → Option Groups
or_else none b = b
or_else (some g) b = some g

unfoldable pub take : ℕ → Text → Text
take zero s = []
take (suc n) [] = []
take (suc n) (c ∷ s) = c ∷ take n s

-- the text of which the rest is left
unfoldable pub taken : Text → Text → Text
unfolding take
taken s rest = take (length s - length rest) s

-- `$` without the flag MULTILINE
unfoldable pub is_end : Text → Bool
is_end [] = true
is_end (c ∷ []) = c == 10
is_end (c ∷ d ∷ s) = false

-- the step again, if it has consumed something
abbrev pub again : ℕ → ℕ → Option Groups → Option Groups
again before after next = if ltb after before then next else none

-- `r*`: at most this number of times, as often as possible first
unfoldable pub greedy :
    (Text → Groups → Rest → Option Groups) → ℕ → Text → Groups → Rest → Option Groups
unfolding or_else
greedy step zero s g k = k s g
greedy step (suc n) s g k =
    or_else (step s g (λ t h. again (length s) (length t) (greedy step n t h k))) (k s g)

-- `r*?`: as seldom as possible first
unfoldable pub reluctant :
    (Text → Groups → Rest → Option Groups) → ℕ → Text → Groups → Rest → Option Groups
unfolding or_else
reluctant step zero s g k = k s g
reluctant step (suc n) s g k =
    or_else (k s g) (step s g (λ t h. again (length s) (length t) (reluctant step n t h k)))

-- a test of the first character
unfoldable pub first_char : (ℕ → Bool) → Text → Groups → Rest → Option Groups
first_char p [] g k = none
first_char p (c ∷ s) g k = if p c then k s g else none

-- The search, in the order of Python's backtracking.
unfoldable pub run : Regex → Text → Groups → Rest → Option Groups
unfolding or_else greedy reluctant first_char taken is_end
run empty s g k = k s g
run at_end s g k = if is_end s then k s g else none
run (char p) s g k = first_char p s g k
run (seq r q) s g k = run r s g (λ t h. run q t h k)
run (alt r q) s g k = or_else (run r s g k) (run q s g k)
run (star r) s g k = greedy (run r) (length s) s g k
run (lazy r) s g k = reluctant (run r) (length s) s g k
run (group name r) s g k = run r s g (λ t h. k t ((name, taken s t) ∷ h))

-- `pattern.match(s)`: its groups, or none
unfoldable pub match : Regex → Text → Option Groups
unfolding run
match r s = run r s [] (λ t g. some g)

-- `match.group(name)`
unfoldable pub group_of : Text → Groups → Text
unfolding text_eq
group_of name [] = []
group_of name ((n, s) ∷ g) = if text_eq n name then s else group_of name g
