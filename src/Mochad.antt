-- ===== src/Mochad.antt =====
-- mochad_client.py: sending lines, and cutting what arrives into lines. The socket is a parameter:
-- `socket n` says whether the n-th `sendall` succeeds; one that fails raises `OSError`, as
-- documented. What a failed `sendall` may have transmitted is not counted as sent. Decoding the bytes is not modelled: a chunk
-- is the text that `decode` gives.
pub mod Framing
pub mod Lifecycle
pub mod Ending
mod Tests
use mochad_mqtt_bridge.Prelude.{
  ℕ, zero, suc, ◌+◌, ◌-◌, ◌*◌, ◌/◌, ◌%◌, ◌≤◌, ◌<◌, String, ◌≡◌, refl, sym, ap, ◌∙◌, subst, fun_ext,
  ◌≢◌, ◌↔◌, ◌⊎◌, inl, inr, Bool, true, false, not, ◌&&◌, ◌||◌, false≢true, Option, none, some, List,
  [], ◌∷◌, ◌++◌, map, reverse, append-nil, append_assoc, arith, ltb, leb, ◌==◌, between,
  if◌then◌else◌, ==_iff, ltb→lt, lt→ltb, leb→le, Bool-cases, tests_below, tests_below_lem,
  Option-cases, length, replicate, length-append, All, All-append, Exception, value_error,
  topic_error, config_error, connection_error, os_error, type_error, key_error, Result, ok, raise,
  ◌>>=◌, >>=-eq-ok, ok_injective,
}
use mochad_mqtt_bridge.Text.{
  Text, text, text_eq, text_eq_sound, text_eq_refl, text_eq_iff, contains_text, starts_with,
  is_space, upper_char, lower_char, upper, lower, lstrip_by, rstrip_by, strip_by, strip, strip_char,
  HeadKept, LastKept, strip_by-HeadKept, strip_by-LastKept, strip_by_kept, strip_by_idem,
  HeadKept-All, LastKept-All, split_at, split_at-piece, cons_head, join, words_from, words, Free,
  split_at-join,
}

-- `connected` is `_socket is not None`; `sent` holds the lines written, the latest last.
pub record MochadClient : Type 0 where
  pub connected : Bool
  pub attempts : ℕ
  pub sent : List Text

abbrev pub is_eol : ℕ → Bool
is_eol c = c == b'\r' || c == b'\n'

-- what goes over the wire for a line
unfoldable pub wire : Text → Text
unfolding rstrip_by
wire line = rstrip_by is_eol line ++ text "\n"

-- `sock.sendall`
unfoldable pub send_all : Bool → Text → MochadClient → MochadClient × Result (Unit {0})
send_all true message m =
    (record m { attempts = m.attempts + 1; sent = m.sent ++ message ∷ [] }, ok tt)
send_all false message m = (record m { attempts = m.attempts + 1 }, raise os_error)

unfoldable pub send_line : (ℕ → Bool) → Text → MochadClient → MochadClient × Result (Unit {0})
unfolding send_all wire
send_line socket line m =
    if not m.connected
    then (m, raise connection_error)
    else send_all (socket m.attempts) (wire line) m

unfoldable pub request_status : (ℕ → Bool) → MochadClient → MochadClient × Result (Unit {0})
unfolding send_line
request_status socket m = send_line socket (text "st") m

-- `buffer.split("\n", 1)`, or none if there is no line end
unfoldable pub split_once : ℕ → Text → Option (Text × Text)
split_once sep [] = none
split_once sep (c ∷ s) =
    let found = split_once sep s in
    if c == sep then some ([], s) else elim found [ none ↦ none | some (l, r) ↦ some (c ∷ l, r) ]

-- `while "\n" in buffer`, on fuel: the lines for the callback, and the new buffer
unfoldable pub drain : ℕ → Text → List Text × Text
unfolding split_once strip_by
drain zero buffer = ([], buffer)
drain (suc fuel) buffer = elim (split_once b'\n' buffer) [
  | none ↦ ([], buffer)
  | some (line, rest) ↦
      let (lines, buffer) = drain fuel rest in (strip_by is_eol line ∷ lines, buffer)
]

-- one round of `_read_loop` with a chunk that is not empty
unfoldable pub receive : Text → Text → List Text × Text
unfolding drain
receive buffer chunk = drain (length (buffer ++ chunk)) (buffer ++ chunk)

-- `_read_loop` on the chunks that arrive in order
unfoldable pub read_loop : Text → List Text → List Text × Text
unfolding receive
read_loop buffer [] = ([], buffer)
read_loop buffer (chunk ∷ chunks) =
    let (lines, buffer) = receive buffer chunk in
    let (more, buffer) = read_loop buffer chunks in (lines ++ more, buffer)
