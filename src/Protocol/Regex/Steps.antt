-- ===== src/Protocol/Regex/Steps.antt =====
-- How the search runs on the parts of a line.
use mochad_mqtt_bridge.Prelude.{
  ℕ, zero, suc, ◌≤◌, ◌≡◌, refl, sym, ap, ◌∙◌, Bool, true, false, not, Option, none, some, [], ◌∷◌,
  ◌++◌, append-nil, arith, ◌==◌, between, if◌then◌else◌, ==_iff, lt→ltb, length, All,
}
use mochad_mqtt_bridge.Protocol.Regex.Patterns.{folded, is_any_house}
use mochad_mqtt_bridge.Text.{Text, text, is_space, lower_char}
use mochad_mqtt_bridge.Protocol.Regex.Search.{
  Regex, at_end, char, seq, group, Groups, Rest, or_else, taken, is_end, greedy, reluctant,
  first_char, run,
}
use mochad_mqtt_bridge.Protocol.Regex.Language.{taken-append}
use mochad_mqtt_bridge.Protocol.Regex.Patterns.{lit, timestamp_pattern, spaces, some_text, all}

-- "mm/dd hh:mm:ss", as the ten digits
pub record Stamp : Type 0 where
  pub month : ℕ
  pub month_unit : ℕ
  pub day : ℕ
  pub day_unit : ℕ
  pub hour : ℕ
  pub hour_unit : ℕ
  pub minute : ℕ
  pub minute_unit : ℕ
  pub second : ℕ
  pub second_unit : ℕ

abbrev pub is_digit : ℕ → Bool
is_digit c = between b'0' b'9' c

abbrev pub IsStamp : Stamp → Type 0
IsStamp s =
    All (λ c. is_digit c ≡ true)
      (s.month ∷ s.month_unit ∷ s.day ∷ s.day_unit ∷ s.hour ∷ s.hour_unit ∷ s.minute ∷ s.minute_unit
        ∷ s.second ∷ s.second_unit ∷ [])

-- the time stamp in front of a text
abbrev pub stamped : Stamp → Text → Text
stamped s rest =
    s.month ∷ s.month_unit ∷ b'/' ∷ s.day ∷ s.day_unit ∷ 32 ∷ s.hour ∷ s.hour_unit ∷ b':' ∷ s.minute
    ∷ s.minute_unit ∷ b':' ∷ s.second ∷ s.second_unit ∷ rest

pub digit_is_not_space : (c : ℕ) → is_digit c ≡ true → is_space c ≡ false
unfolding is_space
digit_is_not_space c h = ground arith

pub or_else-none : (o : Option Groups) → or_else o none ≡ o
unfolding or_else
or_else-none none = refl
or_else-none (some g) = refl

-- A time stamp is read in one way.
run-timestamp :
    (s : Stamp) (rest : Text) (g : Groups) (k : Rest)
    → IsStamp s
    → run timestamp_pattern (stamped s rest) g k ≡ k rest g
unfolding run timestamp_pattern greedy first_char is_space or_else lower_char folded
run-timestamp s rest g k (a, (a', (b, (b', (c, (c', (d, (d', (e, (e', _)))))))))) =
    rw (a, a', b, b', digit_is_not_space s.hour c, c, c', d, d', e, e') refl

abbrev pub IsLine : Text → Type 0
IsLine s = All (λ c. (c == 10) ≡ false) s

is_end-IsLine : (c : ℕ) (s : Text) → (c == 10) ≡ false → is_end (c ∷ s) ≡ false
unfolding is_end
is_end-IsLine c [] h = h
is_end-IsLine c (d ∷ s) h = refl

-- what is tried after the command of an event: the end of the line
abbrev pub to_end : Rest → Rest
unfolding is_end
to_end k t h = if is_end t then k t h else none

-- The lazy star takes the rest of the line, since the pattern goes on with its end.
lazy-line :
    (n : ℕ) (s : Text) (g : Groups) (k : Rest)
    → IsLine s
    → length s ≤ n
    → reluctant (run (char (λ c. not (c == 10)))) n s g (to_end k) ≡ k [] g
unfolding reluctant run first_char is_end
lazy-line zero [] g k h enough = refl
lazy-line (suc n) [] g k h enough = or_else-none (k [] g)
lazy-line zero (c ∷ s) g k h enough = absurd (omega (arith, enough))
lazy-line (suc n) (c ∷ s) g k (h, hs) enough =
    rw (is_end-IsLine c s h, h, lt→ltb (length s) (suc (length s)) (omega arith))
      (lazy-line n s g k hs (omega (arith, enough)))

pub run-command :
    (c : ℕ) (s : Text) (g : Groups) (k : Rest)
    → IsLine (c ∷ s)
    → run (all (group (text "command") some_text ∷ at_end ∷ [])) (c ∷ s) g k
      ≡ k [] ((text "command", c ∷ s) ∷ g)
unfolding run first_char
run-command c s g k (h, hs) =
    let taken_all : taken (c ∷ s) [] ≡ c ∷ s =
      ap (λ x. taken x []) (sym (append-nil (c ∷ s))) ∙ taken-append (c ∷ s) [] in
    rw h (
      lazy-line (length s) s g (λ t f. k t ((text "command", taken (c ∷ s) t) ∷ f)) hs (omega arith)
      ∙ ap (λ x. k [] ((text "command", x) ∷ g)) taken_all)

pub capital-any_house : (h : ℕ) → between b'A' b'P' h ≡ true → is_any_house h ≡ true
unfolding is_any_house
capital-any_house h good = rw good refl

-- A literal reads itself.
run-lit : (x s : Text) (g : Groups) (k : Rest) → run (lit x) (x ++ s) g k ≡ k s g
unfolding run first_char
run-lit [] s g k = refl
run-lit (c ∷ x) s g k = rw ((==_iff (folded c) (folded c)).1 refl) (run-lit x s g k)

pub seq-lit :
    (x s : Text) (r : Regex) (g : Groups) (k : Rest)
    → run (seq (lit x) r) (x ++ s) g k ≡ run r s g k
unfolding run
seq-lit x s r g k = run-lit x s g (λ t h. run r t h k)

-- One space is read in front of another character.
pub seq-spaces :
    (c : ℕ) (s : Text) (r : Regex) (g : Groups) (k : Rest)
    → is_space c ≡ false
    → run (seq spaces r) (32 ∷ c ∷ s) g k ≡ run r (c ∷ s) g k
unfolding run greedy first_char is_space or_else
seq-spaces c s r g k h = rw h refl

pub seq-timestamp :
    (s : Stamp) (rest : Text) (r : Regex) (g : Groups) (k : Rest)
    → IsStamp s
    → run (seq timestamp_pattern r) (stamped s rest) g k ≡ run r rest g k
unfolding run
seq-timestamp s rest r g k stamp = run-timestamp s rest g (λ t h. run r t h k) stamp
