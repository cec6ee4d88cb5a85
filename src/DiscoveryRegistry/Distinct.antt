-- ===== src/DiscoveryRegistry/Distinct.antt =====
-- discovery_registry.py: a registry that is loaded has every topic once.
use mochad_mqtt_bridge.Prelude.{
  ℕ, ◌+◌, ◌≤◌, ◌≡◌, refl, ap, subst, Bool, true, false, Bool-cases, inl, inr, List, [], ◌∷◌, ◌++◌,
  arith, if◌then◌else◌, some, none, Option, Result, ok, raise, >>=-eq-ok, ok_injective,
  registry_error,
}
use mochad_mqtt_bridge.Text.{Text, text, text_eq, text_eq_sound, contains_text, strip}
use mochad_mqtt_bridge.Models.Runtime.{Json, null, bool, str, num, arr, obj, Items, nil, cons}
use mochad_mqtt_bridge.Models.Payloads.{get_field, JsonFile, missing, unreadable, held}
use mochad_mqtt_bridge.DiscoveryRegistry.{
  DiscoveryRegistry, insert_text, sorted, add_text, add_topic, add_entry_topic, parse_topics,
  parse_list, parse_registry_data, quarantine_invalid_file, load_parsed, load_file, load,
}

-- how often a text stands in a list
unfoldable pub count : Text → List Text → ℕ
unfolding text_eq
count t [] = 0
count t (u ∷ us) = let rest = count t us in if text_eq u t then rest + 1 else rest

abbrev pub IsDistinct : List Text → Type 0
IsDistinct ts = (t : Text) → count t ts ≤ 1

pub count-contains : (t : Text) (ts : List Text) → contains_text t ts ≡ false → count t ts ≡ 0
unfolding count contains_text
count-contains t [] h = refl
count-contains t (u ∷ ts) h = ground (arith, h, count-contains t ts)

pub count-contains_true : (t : Text) (ts : List Text) → contains_text t ts ≡ true → 1 ≤ count t ts
unfolding count contains_text
count-contains_true t [] h = absurd (ground arith)
count-contains_true t (u ∷ ts) h = ground (arith, h, count-contains_true t ts)

count-insert_text :
    (t u : Text) (us : List Text)
    → count t (insert_text u us) ≡ (if text_eq u t then count t us + 1 else count t us)
unfolding count insert_text
count-insert_text t u [] = refl
count-insert_text t u (v ∷ us) = ground (arith, count-insert_text t u us)

-- Sorting keeps how often a text stands in the list.
pub count-sorted : (t : Text) (ts : List Text) → count t (sorted ts) ≡ count t ts
unfolding count sorted
count-sorted t [] = refl
count-sorted t (u ∷ ts) = ground (arith, count-insert_text t u (sorted ts), count-sorted t ts)

count-append :
    (t u : Text) (ts : List Text)
    → count t (ts ++ u ∷ []) ≡ (if text_eq u t then count t ts + 1 else count t ts)
unfolding count
count-append t u [] = refl
count-append t u (v ∷ ts) = ground (arith, count-append t u ts)

add_text-IsDistinct : (u : Text) (ts : List Text) → IsDistinct ts → IsDistinct (add_text u ts)
unfolding add_text
add_text-IsDistinct u ts h t = elim (Bool-cases (contains_text u ts)) [
  | inl e ↦ rw e (h t)
  | inr e ↦
      rw (e, count-append t u ts)
        (elim (Bool-cases (text_eq u t)) [
          | inl same ↦
              let none_yet : count t ts ≡ 0 =
                subst (λ x. count x ts ≡ 0) (text_eq_sound u t same) (count-contains u ts e) in
              rw (same, none_yet) (ground arith)
          | inr other ↦ rw other (h t)
        ])
]

-- A result that is a list without repetitions.
abbrev Loads : Result (List Text) → Type 0
Loads r = (ts : List Text) → r ≡ ok ts → IsDistinct ts

ok-Loads : (ts : List Text) → IsDistinct ts → Loads (ok ts)
ok-Loads ts h us e = subst IsDistinct (ok_injective _ _ e) h

raise-Loads : Loads (raise registry_error)
raise-Loads ts e = absurd (cc e)

add_topic-Loads : (t : Text) (ts : List Text) → IsDistinct ts → Loads (add_topic t ts)
unfolding add_topic
add_topic-Loads [] ts h = raise-Loads
add_topic-Loads (c ∷ s) ts h = ok-Loads _ (add_text-IsDistinct (c ∷ s) ts h)

add_entry_topic-Loads :
    (o : Option Json) (ts : List Text) → IsDistinct ts → Loads (add_entry_topic o ts)
unfolding add_entry_topic
add_entry_topic-Loads none ts h = raise-Loads
add_entry_topic-Loads (some (str t)) ts h = add_topic-Loads (strip t) ts h
add_entry_topic-Loads (some null) ts h = raise-Loads
add_entry_topic-Loads (some (bool b)) ts h = raise-Loads
add_entry_topic-Loads (some (num n)) ts h = raise-Loads
add_entry_topic-Loads (some (arr js)) ts h = raise-Loads
add_entry_topic-Loads (some (obj fs)) ts h = raise-Loads

parse_topics-Loads : (js : Items) (ts : List Text) → IsDistinct ts → Loads (parse_topics js ts)
unfolding parse_topics
parse_topics-Loads nil ts h = ok-Loads ts h
parse_topics-Loads (cons (obj entry) js) ts h = λ us e.
    let (vs, added, rest) = >>=-eq-ok (add_entry_topic (get_field (text "topic") entry) ts) _ e in
    parse_topics-Loads js vs (add_entry_topic-Loads _ ts h vs added) us rest
parse_topics-Loads (cons (str t) js) ts h = raise-Loads
parse_topics-Loads (cons null js) ts h = raise-Loads
parse_topics-Loads (cons (bool b) js) ts h = raise-Loads
parse_topics-Loads (cons (num n) js) ts h = raise-Loads
parse_topics-Loads (cons (arr is) js) ts h = raise-Loads

parse_list-Loads : (o : Option Json) → Loads (parse_list o)
unfolding parse_list count
parse_list-Loads none = raise-Loads
parse_list-Loads (some (arr js)) = parse_topics-Loads js [] (λ t. ground arith)
parse_list-Loads (some (str t)) = raise-Loads
parse_list-Loads (some null) = raise-Loads
parse_list-Loads (some (bool b)) = raise-Loads
parse_list-Loads (some (num n)) = raise-Loads
parse_list-Loads (some (obj fs)) = raise-Loads

if-Loads :
    (b : Bool) (r : Result (List Text)) → Loads r → Loads (if b then r else raise registry_error)
if-Loads true r h = h
if-Loads false r h = raise-Loads

parse_registry_data-Loads : (j : Json) → Loads (parse_registry_data j)
unfolding parse_registry_data
parse_registry_data-Loads (obj fs) = if-Loads _ _ (parse_list-Loads (get_field (text "topics") fs))
parse_registry_data-Loads (arr js) = raise-Loads
parse_registry_data-Loads (str t) = raise-Loads
parse_registry_data-Loads null = raise-Loads
parse_registry_data-Loads (bool b) = raise-Loads
parse_registry_data-Loads (num n) = raise-Loads

none-Loads : Loads (ok [])
unfolding count
none-Loads = ok-Loads [] (λ t. ground arith)

quarantine-Loads : (r : DiscoveryRegistry) → Loads (quarantine_invalid_file r).1
unfolding quarantine_invalid_file
quarantine-Loads r = elim (Bool-cases r.movable) [
  | inl e ↦ rw e none-Loads
  | inr e ↦ rw e raise-Loads
]

load_parsed-Loads :
    (r : DiscoveryRegistry) (x : Result (List Text)) → Loads x → Loads (load_parsed r x).1
unfolding load_parsed
load_parsed-Loads r (ok ts) h = h
load_parsed-Loads r (raise e) h = quarantine-Loads r

load_file-Loads : (f : JsonFile) (r : DiscoveryRegistry) → Loads (load_file f r).1
unfolding load_file
load_file-Loads missing r = none-Loads
load_file-Loads unreadable r = raise-Loads
load_file-Loads (held none) r = quarantine-Loads r
load_file-Loads (held (some j)) r = load_parsed-Loads r _ (parse_registry_data-Loads j)

-- What is loaded has every topic once.
pub load-IsDistinct :
    (r r' : DiscoveryRegistry) (ts : List Text) → load r ≡ (r', ok ts) → IsDistinct ts
unfolding load
load-IsDistinct r r' ts h = load_file-Loads r.file r ts (ap (λ x. x.1) h)
