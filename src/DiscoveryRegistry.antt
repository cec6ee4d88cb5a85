-- ===== src/DiscoveryRegistry.antt =====
-- discovery_registry.py: the file that remembers which discovery topics were published. The file is
-- what it holds: a JSON value, or text that is no JSON.
pub mod Saved
pub mod Distinct
mod Tests
use mochad_mqtt_bridge.Prelude.{
  ℕ, zero, suc, ◌+◌, ◌-◌, ◌*◌, ◌/◌, ◌%◌, ◌≤◌, ◌<◌, String, ◌≡◌, refl, sym, ap, ◌∙◌, subst, fun_ext,
  ◌≢◌, ◌↔◌, ◌⊎◌, inl, inr, Bool, true, false, not, ◌&&◌, ◌||◌, false≢true, Option, none, some, List,
  [], ◌∷◌, ◌++◌, map, reverse, append-nil, append_assoc, arith, ltb, leb, ◌==◌, between,
  if◌then◌else◌, ==_iff, ltb→lt, lt→ltb, leb→le, Bool-cases, tests_below, tests_below_lem,
  Option-cases, length, replicate, length-append, All, All-append, Exception, value_error,
  topic_error, config_error, connection_error, os_error, type_error, key_error, index_error,
  discovery_error, registry_error, Result, ok, raise, ◌>>=◌, >>=-eq-ok, ok_injective,
}
use mochad_mqtt_bridge.Text.{
  Text, text, text_eq, text_eq_sound, text_eq_refl, text_eq_iff, contains_text, starts_with,
  is_space, upper_char, lower_char, upper, lower, lstrip_by, rstrip_by, strip_by, strip, strip_char,
  HeadKept, LastKept, strip_by-HeadKept, strip_by-LastKept, strip_by_kept, strip_by_idem,
  HeadKept-All, LastKept-All, split_at, split_at-piece, cons_head, join, words_from, words, Free,
  split_at-join,
}
use mochad_mqtt_bridge.Models.Runtime.{
  Json, null, bool, str, num, arr, obj, Items, nil, cons, Fields, end, field,
}
use mochad_mqtt_bridge.Models.Payloads.{object, get_field, JsonFile, missing, unreadable, held}

-- the file, and whether it can be replaced and moved away
pub record DiscoveryRegistry : Type 0 where
  pub file : JsonFile
  pub writable : Bool
  pub movable : Bool

-- `sorted` on texts: by code points
unfoldable pub text_le : Text → Text → Bool
text_le [] t = true
text_le (c ∷ s) [] = false
text_le (c ∷ s) (d ∷ t) = ltb c d || (c == d && text_le s t)

unfoldable pub insert_text : Text → List Text → List Text
unfolding text_le
insert_text t [] = t ∷ []
insert_text t (u ∷ us) = if text_le t u then t ∷ u ∷ us else u ∷ insert_text t us

unfoldable pub sorted : List Text → List Text
unfolding insert_text
sorted [] = []
sorted (t ∷ ts) = insert_text t (sorted ts)

-- `set.add`, on a list without duplicates
unfoldable pub add_text : Text → List Text → List Text
unfolding contains_text
add_text t ts = if contains_text t ts then ts else ts ++ t ∷ []

-- `REGISTRY_VERSION == value`; in Python `True == 1`
unfoldable pub is_version : Option Json → Bool
is_version (some (num n)) = n == 1
is_version (some (bool b)) = b
is_version _ = false

-- `parsed.add(topic.strip())`, or the error for a text that is blank
unfoldable pub add_topic : Text → List Text → Result (List Text)
unfolding add_text
add_topic [] parsed = raise registry_error
add_topic (c ∷ s) parsed = ok (add_text (c ∷ s) parsed)

-- the value of "topic" in an entry
unfoldable pub add_entry_topic : Option Json → List Text → Result (List Text)
unfolding add_topic
add_entry_topic (some (str topic)) parsed = add_topic (strip topic) parsed
add_entry_topic _ parsed = raise registry_error

-- the loop over the entries
unfoldable pub parse_topics : Items → List Text → Result (List Text)
unfolding add_entry_topic get_field
parse_topics nil parsed = ok parsed
parse_topics (cons (obj entry) items) parsed = do
  parsed ← add_entry_topic (get_field (text "topic") entry) parsed
  parse_topics items parsed
parse_topics (cons j items) parsed = raise registry_error

-- the list of the topics
unfoldable pub parse_list : Option Json → Result (List Text)
unfolding parse_topics
parse_list (some (arr items)) = parse_topics items []
parse_list _ = raise registry_error

-- `_parse_registry_data`
unfoldable pub parse_registry_data : Json → Result (List Text)
unfolding is_version parse_list get_field
parse_registry_data (obj document) =
    if is_version (get_field (text "version") document)
    then parse_list (get_field (text "topics") document)
    else raise registry_error
parse_registry_data _ = raise registry_error

-- `_quarantine_invalid_file`
unfoldable pub quarantine_invalid_file : DiscoveryRegistry → DiscoveryRegistry × Result (List Text)
quarantine_invalid_file r =
    if r.movable then (record r { file = missing }, ok []) else (r, raise registry_error)

-- what `load` does with a value
unfoldable pub load_parsed :
    DiscoveryRegistry → Result (List Text) → DiscoveryRegistry × Result (List Text)
unfolding quarantine_invalid_file
load_parsed r (ok topics) = (r, ok topics)
load_parsed r (raise e) = quarantine_invalid_file r

unfoldable pub load_file : JsonFile → DiscoveryRegistry → DiscoveryRegistry × Result (List Text)
unfolding load_parsed parse_registry_data
load_file missing r = (r, ok [])
load_file unreadable r = (r, raise registry_error)
load_file (held none) r = quarantine_invalid_file r
load_file (held (some j)) r = load_parsed r (parse_registry_data j)

-- `load`
unfoldable pub load : DiscoveryRegistry → DiscoveryRegistry × Result (List Text)
unfolding load_file
load r = load_file r.file r

unfoldable pub keep_given : Text → List Text → List Text
keep_given [] ts = ts
keep_given (c ∷ s) ts = (c ∷ s) ∷ ts

-- the stripped topics that are not blank
unfoldable pub clean_topics : List Text → List Text
unfolding keep_given
clean_topics [] = []
clean_topics (t ∷ ts) = keep_given (strip t) (clean_topics ts)

unfoldable pub topic_items : List Text → Items
topic_items [] = nil
topic_items (t ∷ ts) = cons (obj (object ((text "topic", str t) ∷ []))) (topic_items ts)

-- `set(topics)`; the order of its members does not matter, since what comes of them is sorted
unfoldable pub set_of : List Text → List Text
unfolding contains_text
set_of [] = []
set_of (t ∷ ts) = let rest = set_of ts in if contains_text t rest then rest else t ∷ rest

-- the document that `save` writes
unfoldable pub registry_document : List Text → Json
unfolding topic_items sorted clean_topics set_of
registry_document topics = obj (
    object (
      (text "version", num 1)
      ∷ (text "topics", arr (topic_items (sorted (clean_topics (set_of topics)))))
      ∷ []))

-- `save`
unfoldable pub save : List Text → DiscoveryRegistry → DiscoveryRegistry × Result (Unit {0})
unfolding registry_document
save topics r =
    if r.writable
    then (record r { file = held (some (registry_document topics)) }, ok tt)
    else (r, raise registry_error)
