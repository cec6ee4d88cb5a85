-- ===== src/DiscoveryRegistry/Saved.antt =====
-- discovery_registry.py: what is saved is loaded.
use mochad_mqtt_bridge.Prelude.{
  ◌≡◌, refl, sym, ap, ◌∙◌, inl, inr, Bool, true, false, not, ◌&&◌, ◌||◌, false≢true, some, List, [],
  ◌∷◌, ◌++◌, arith, Bool-cases, All, ok,
}
use mochad_mqtt_bridge.Text.{
  Text, text_eq, text_eq_sound, text_eq_iff, contains_text, is_space, strip, strip_by_idem,
}
use mochad_mqtt_bridge.Models.Payloads.{get_field}
use mochad_mqtt_bridge.Models.Payloads.{held}
use mochad_mqtt_bridge.DiscoveryRegistry.{
  text_le, is_version, DiscoveryRegistry, insert_text, sorted, add_text, add_topic, add_entry_topic,
  parse_topics, parse_list, parse_registry_data, load_parsed, load_file, load, keep_given,
  clean_topics, set_of, topic_items, registry_document, save,
}

-- Lists with the same members.
abbrev pub Same : List Text → List Text → Type 0
Same ts us = (t : Text) → contains_text t ts ≡ contains_text t us

-- a test that is true of a stripped text that is not blank
is_clean : Text → Bool
is_clean [] = false
is_clean (c ∷ s) = text_eq (strip (c ∷ s)) (c ∷ s)

insert_text-contains :
    (t x : Text) (us : List Text)
    → contains_text x (insert_text t us) ≡ (text_eq t x || contains_text x us)
unfolding insert_text contains_text
insert_text-contains t x [] = refl
insert_text-contains t x (u ∷ us) = ground (arith, insert_text-contains t x us)

pub sorted-Same : (ts : List Text) → Same (sorted ts) ts
unfolding sorted contains_text
sorted-Same [] x = refl
sorted-Same (t ∷ ts) x = ground (arith, insert_text-contains t x (sorted ts), sorted-Same ts x)

append-contains :
    (x t : Text) (ts : List Text)
    → contains_text x (ts ++ t ∷ []) ≡ (contains_text x ts || text_eq t x)
unfolding contains_text
append-contains x t [] = ground arith
append-contains x t (u ∷ ts) = ground (arith, append-contains x t ts)

pub add_text-contains :
    (x t : Text) (ts : List Text)
    → contains_text x (add_text t ts) ≡ (text_eq t x || contains_text x ts)
unfolding add_text
add_text-contains x t ts = elim (Bool-cases (contains_text t ts)) [
  | inl e ↦ rw e (elim (Bool-cases (text_eq t x)) [
    | inl f ↦ rw f (ap (λ y. contains_text y ts) (sym (text_eq_sound t x f)) ∙ e)
    | inr f ↦ rw f refl
  ])
  | inr e ↦ rw (e, append-contains x t ts) (ground arith)
]

IsClean : Text → Type 0
unfolding is_clean
IsClean t = is_clean t ≡ true

insert_text-IsClean :
    (t : Text) (us : List Text) → IsClean t → All IsClean us → All IsClean (insert_text t us)
unfolding insert_text
insert_text-IsClean t [] h hs = (h, tt)
insert_text-IsClean t (u ∷ us) h (k, ks) = elim (Bool-cases (text_le t u)) [
  | inl e ↦ rw e (h, (k, ks))
  | inr e ↦ rw e (k, insert_text-IsClean t us h ks)
]

sorted-IsClean : (ts : List Text) → All IsClean ts → All IsClean (sorted ts)
unfolding sorted
sorted-IsClean [] h = tt
sorted-IsClean (t ∷ ts) (h, hs) = insert_text-IsClean t (sorted ts) h (sorted-IsClean ts hs)

keep_given-IsClean :
    (t : Text) (ts : List Text) → strip t ≡ t → All IsClean ts → All IsClean (keep_given t ts)
unfolding keep_given IsClean is_clean
keep_given-IsClean [] ts kept hs = hs
keep_given-IsClean (c ∷ s) ts kept hs = ((text_eq_iff _ _).1 kept, hs)

clean_topics-IsClean : (ts : List Text) → All IsClean (clean_topics ts)
unfolding clean_topics strip
clean_topics-IsClean [] = tt
clean_topics-IsClean (t ∷ ts) =
    keep_given-IsClean (strip t) (clean_topics ts) (strip_by_idem is_space t)
      (clean_topics-IsClean ts)

add_topic-clean :
    (t : Text) (parsed : List Text)
    → IsClean t
    → add_topic (strip t) parsed ≡ ok (add_text t parsed)
unfolding IsClean is_clean add_topic
add_topic-clean [] parsed h = absurd (false≢true h)
add_topic-clean (c ∷ s) parsed h = rw (text_eq_sound (strip (c ∷ s)) (c ∷ s) h) refl

-- The entries that were written are read, whatever was read before.
parse_topics-topic_items :
    (ts parsed : List Text)
    → All IsClean ts
    → (r : List Text) × (parse_topics (topic_items ts) parsed ≡ ok r)
      × ((x : Text) → contains_text x r ≡ (contains_text x ts || contains_text x parsed))
unfolding parse_topics topic_items get_field text_eq add_entry_topic contains_text
parse_topics-topic_items [] parsed h = (parsed, refl, λ x. refl)
parse_topics-topic_items (t ∷ ts) parsed (h, hs) =
    let (r, read, members) = parse_topics-topic_items ts (add_text t parsed) hs in
    (
      r,
      rw (add_topic-clean t parsed h) read,
      λ x. ground (arith, members x, add_text-contains x t parsed),
    )

keep_given-contains :
    (x t : Text) (ts : List Text)
    → contains_text x (keep_given t ts)
      ≡ ((text_eq t x && not (text_eq t [])) || contains_text x ts)
unfolding keep_given contains_text text_eq
keep_given-contains x [] ts = ground arith
keep_given-contains x (c ∷ s) ts = ground arith

-- A topic that is there already adds nothing.
keep_given-known :
    (x t : Text) (ts : List Text)
    → contains_text t ts ≡ true
    → ((text_eq (strip t) x && not (text_eq (strip t) [])) || contains_text x (clean_topics ts))
      ≡ contains_text x (clean_topics ts)
unfolding contains_text clean_topics
keep_given-known x t [] h = absurd (false≢true h)
keep_given-known x t (u ∷ ts) h = elim (Bool-cases (text_eq u t)) [
  | inl e ↦
      let same : u ≡ t = text_eq_sound u t e in
      rw same (ground (arith, keep_given-contains x (strip t) (clean_topics ts)))
  | inr e ↦ ground (
    arith,
    keep_given-contains x (strip u) (clean_topics ts),
    keep_given-known x t ts (ground (arith, e, h)),
  )
]

-- A set loses no topic.
clean_topics-set_of : (ts : List Text) → Same (clean_topics (set_of ts)) (clean_topics ts)
unfolding set_of clean_topics
clean_topics-set_of [] x = refl
clean_topics-set_of (t ∷ ts) x =
    let again = clean_topics-set_of ts x in
    let now = keep_given-contains x (strip t) (clean_topics ts) in
    elim (Bool-cases (contains_text t (set_of ts))) [
      | inl e ↦ rw e (ground (arith, again, now, keep_given-known x t (set_of ts) e))
      | inr e ↦
          rw e
            (ground (arith, again, now, keep_given-contains x (strip t) (clean_topics (set_of ts))))
    ]

or_false : (b : Bool) → (b || false) ≡ b
or_false true = refl
or_false false = refl

-- Topics that are saved, where the file can be written, are what is loaded then, up to their order:
-- each of them stripped, but for blank ones. Loading leaves the file as it is.
pub load-save :
    (topics : List Text) (r : DiscoveryRegistry)
    → r.writable ≡ true
    → (loaded : List Text) × Same loaded (clean_topics topics)
      × (save topics r ≡ (record r { file = held (some (registry_document topics)) }, ok tt))
      × (load (save topics r).0 ≡ ((save topics r).0, ok loaded))
unfolding load load_file load_parsed save parse_registry_data registry_document get_field text_eq
    is_version parse_list
load-save topics r writable =
    let (loaded, read, members) =
      parse_topics-topic_items (sorted (clean_topics (set_of topics))) []
        (sorted-IsClean (clean_topics (set_of topics)) (clean_topics-IsClean (set_of topics))) in
    (
      loaded,
      λ x.
          members x
          ∙ or_false _
          ∙ sorted-Same (clean_topics (set_of topics)) x
          ∙ clean_topics-set_of topics x,
      rw writable refl,
      rw (writable, read) refl,
    )
