-- ===== src/Dict/Keys.antt =====
-- The keys of a dict are distinct: what a write and a walk keep.
use mochad_mqtt_bridge.Prelude.{
  ◌≡◌, refl, Bool, true, ◌&&◌, false, none, some, [], ◌∷◌, arith, Bool-cases, inl, inr, subst,
}
use mochad_mqtt_bridge.Text.{Text, text_eq, text_eq_iff, text_eq_sound}
use mochad_mqtt_bridge.Dict.{Dict, lookup, insert}

module _ {ℓ} {V : Type ℓ} where
  abbrev pub Fresh : Text → Dict V → Type 0
  Fresh k [] = Unit
  Fresh k ((j, v) ∷ d) = (text_eq j k ≡ false) × Fresh k d

  abbrev pub HasDistinctKeys : Dict V → Type 0
  HasDistinctKeys [] = Unit
  HasDistinctKeys ((j, v) ∷ d) = Fresh j d × HasDistinctKeys d

  pub lookup_of_Fresh : (k : Text) (d : Dict V) → Fresh k d → lookup k d ≡ none
  unfolding lookup
  lookup_of_Fresh k [] h = refl
  lookup_of_Fresh k ((j, v) ∷ d) h = rw h.0 (lookup_of_Fresh k d h.1)

  Fresh-insert :
      (i k : Text) (v : V) (d : Dict V) → text_eq k i ≡ false → Fresh i d → Fresh i (insert k v d)
  unfolding insert
  Fresh-insert i k v [] e h = (e, tt)
  Fresh-insert i k v ((j, w) ∷ d) e h = elim (Bool-cases (text_eq j k)) [
    | inl same ↦ rw same h
    | inr other ↦ rw other (h.0, Fresh-insert i k v d e h.1)
  ]

  pub insert-HasDistinctKeys :
      (k : Text) (v : V) (d : Dict V) → HasDistinctKeys d → HasDistinctKeys (insert k v d)
  unfolding insert
  insert-HasDistinctKeys k v [] h = (tt, tt)
  insert-HasDistinctKeys k v ((j, w) ∷ d) h = elim (Bool-cases (text_eq j k)) [
    | inl same ↦ rw same h
    | inr other ↦ rw other (
      Fresh-insert j k v d (ground (arith, text_eq_iff j k, text_eq_iff k j)) h.0,
      insert-HasDistinctKeys k v d h.1,
    )
  ]

module _ {ℓ κ} {V : Type ℓ} (P : Text → V → Type κ) where
  -- Every entry satisfies `P`.
  abbrev pub Entries : Dict V → Type κ
  Entries [] = Unit
  Entries ((k, v) ∷ d) = P k v × Entries d

  pub insert-Entries : (k : Text) (v : V) (d : Dict V) → P k v → Entries d → Entries (insert k v d)
  unfolding insert
  insert-Entries k v [] p h = (p, tt)
  insert-Entries k v ((j, w) ∷ d) p h = elim (Bool-cases (text_eq j k)) [
    | inl same ↦ rw same (rw (text_eq_sound j k same) p, h.1)
    | inr other ↦ rw other (h.0, insert-Entries k v d p h.1)
  ]

  pub lookup-Entries : (k : Text) (v : V) (d : Dict V) → Entries d → lookup k d ≡ some v → P k v
  unfolding lookup
  lookup-Entries k v [] h e = absurd (cc)
  lookup-Entries k v ((j, w) ∷ d) h e = elim (Bool-cases (text_eq j k)) [
    | inl same ↦ rw (← text_eq_sound j k same) (subst (P j) (ground arith) h.0)
    | inr other ↦ lookup-Entries k v d h.1 (ground arith)
  ]

module _ {ℓ} {V : Type ℓ} (test : Text → V → Bool) where
  abbrev pub all_entries : Dict V → Bool
  all_entries [] = true
  all_entries ((k, v) ∷ d) = test k v && all_entries d

  pub Entries-of_test : (d : Dict V) → all_entries d ≡ true → Entries (λ k v. test k v ≡ true) d
  Entries-of_test [] h = tt
  Entries-of_test ((k, v) ∷ d) h = (ground arith, Entries-of_test d (ground arith))
