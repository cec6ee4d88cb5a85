-- ===== src/Prelude/Errors.antt =====
-- Python exceptions as values: a function that may raise returns a `Result`.
use mathlib.Core.Path.{◌≡◌, refl}

-- `TopicError` and `DiscoveryError` derive from `ValueError` in the source, which a handler for
-- `ValueError` takes too; `ConfigError`, `ConfigFileWriteError` and
-- `DiscoveryRegistryError` derive from `RuntimeError`.
pub data Exception : Type 0 where
  value_error topic_error config_error connection_error os_error type_error key_error : Exception
  index_error discovery_error registry_error config_file_write_error : Exception

pub data Result {ℓ} (A : Type ℓ) : Type ℓ where
  ok : A → Result A
  raise : Exception → Result A

module _ {ℓ κ} {A : Type ℓ} {B : Type κ} where
  infixl 5 ◌>>=◌
  -- The rest of a function body, which an exception skips.
  abbrev pub ◌>>=◌ : Result A → (A → Result B) → Result B
  ok value >>= rest = rest value
  raise exception >>= rest = raise exception

  pub >>=-eq-ok :
      (r : Result A) (rest : A → Result B) {b : B}
      → (r >>= rest) ≡ ok b
      → (a : A) × (r ≡ ok a) × (rest a ≡ ok b)
  >>=-eq-ok (ok value) rest returned = (value, refl, returned)
  >>=-eq-ok (raise exception) rest returned = absurd (cc)

pub ok_injective {ℓ} : {A : Type ℓ} (a b : A) → ok a ≡ ok b → a ≡ b
ok_injective a b h = cc
