-- ===== src/Config/Environment.antt =====
-- config.py: the environment variables, the secrets, and the settings of TLS.
use mochad_mqtt_bridge.Prelude.{
  Bool, true, false, not, ◌&&◌, ◌||◌, Option, none, some, [], ◌∷◌, ◌==◌, if◌then◌else◌,
  config_error, os_error, Result, ok, raise, ◌>>=◌,
}
use mochad_mqtt_bridge.Text.{Text, text, contains_text, lower, rstrip_by, strip}
use mochad_mqtt_bridge.Models.Payloads.{JsonFile}
use mochad_mqtt_bridge.Config.Values.{ℤ, parse_int}

-- What the process finds: `os.getenv`, the text files, and the JSON files.
pub record Environment : Type 0 where
  pub getenv : Text → Option Text
  pub read_text : Text → Result Text
  pub read_json : Text → JsonFile

-- Python's floats: `float(s)`, with none for its `ValueError`, the test `value <= 0`, 5.0, the sum and
-- the test `a < b`.
pub record Floats : Type 1 where
  pub Float : Type 0
  pub float_of : Text → Option Float
  pub at_most_zero : Float → Bool
  pub five : Float
  pub plus : Float → Float → Float
  pub below : Float → Float → Bool

-- a text that is not empty
abbrev pub unless_blank : Text → Option Text
unless_blank [] = none
unless_blank (c ∷ s) = some (c ∷ s)

unfoldable pub stripped_value : Option Text → Option Text
unfolding strip
stripped_value none = none
stripped_value (some value) = unless_blank (strip value)

-- `_get_env(name)`
unfoldable pub get_env : Environment → Text → Option Text
unfolding stripped_value
get_env env name = stripped_value (env.getenv name)

abbrev pub value_or : Text → Option Text → Text
value_or default none = default
value_or default (some value) = value

-- `_get_env(name, default)`
unfoldable pub env_or : Environment → Text → Text → Text
unfolding get_env
env_or env name default = value_or default (get_env env name)

-- a value that is read, or the error for one that cannot be read
abbrev pub required {ℓ} : {A : Type ℓ} → Option A → Result A
required none = raise config_error
required (some a) = ok a

-- `_get_int`, on the value
unfoldable pub int_or : ℤ → Option Text → Result ℤ
unfolding parse_int
int_or default none = ok default
int_or default (some value) = required (parse_int value)

-- the words of the two truth values
unfoldable pub bool_of_word : Text → Result Bool
unfolding contains_text
bool_of_word word =
    if contains_text word (text "1" ∷ text "true" ∷ text "yes" ∷ text "on" ∷ [])
    then ok true
    else if contains_text word (text "0" ∷ text "false" ∷ text "no" ∷ text "off" ∷ [])
    then ok false
    else raise config_error

-- `_get_bool`, on the value
unfoldable pub bool_or : Bool → Option Text → Result Bool
unfolding bool_of_word lower strip
bool_or default none = ok default
bool_or default (some value) = bool_of_word (lower (strip value))

module _ (floats : Floats) where
  unfoldable pub positive_float : Option floats.Float → Result floats.Float
  positive_float none = raise config_error
  positive_float (some x) = if floats.at_most_zero x then raise config_error else ok x

  -- `_get_float`, on the value
  unfoldable pub float_or : floats.Float → Option Text → Result floats.Float
  unfolding positive_float
  float_or default none = ok default
  float_or default (some value) = positive_float (floats.float_of value)

-- the contents of a file of a secret; an `OSError` becomes a `ConfigError`
unfoldable pub secret_text : Result Text → Result (Option Text)
unfolding rstrip_by
secret_text (ok secret) = ok (unless_blank (rstrip_by (λ c. (c == 13) || (c == 10)) secret))
secret_text (raise os_error) = raise config_error
secret_text (raise e) = raise e

unfoldable pub secret_from : Environment → Option Text → Option Text → Result (Option Text)
unfolding secret_text
secret_from env value none = ok value
secret_from env none (some file_path) = secret_text (env.read_text file_path)
secret_from env (some value) (some file_path) = raise config_error

-- `_get_secret`
unfoldable pub get_secret : Environment → Text → Text → Result (Option Text)
unfolding secret_from get_env
get_secret env name file_name = secret_from env (get_env env name) (get_env env file_name)

pub record MqttTlsConfig : Type 0 where
  pub enabled : Bool
  pub ca_file : Option Text
  pub cert_file : Option Text
  pub key_file : Option Text
  pub key_password : Option Text

-- `MqttTlsConfig()`
abbrev pub no_tls : MqttTlsConfig
no_tls = record {
  enabled = false;
  ca_file = none;
  cert_file = none;
  key_file = none;
  key_password = none;
}

-- `bool(value)`, of a text or `None`
abbrev pub is_set : Option Text → Bool
is_set none = false
is_set (some []) = false
is_set (some (c ∷ s)) = true

abbrev pub is_present : Option Text → Bool
is_present none = false
is_present (some s) = true

abbrev pub differ : Bool → Bool → Bool
differ true b = not b
differ false b = b

-- the checks of `_load_mqtt_tls_config`, on what was read
unfoldable pub check_tls : MqttTlsConfig → Result MqttTlsConfig
check_tls tls =
    let configured =
      is_set tls.ca_file
      || is_set tls.cert_file
      || is_set tls.key_file
      || is_set tls.key_password in
    if configured && not tls.enabled
    then raise config_error
    else if not tls.enabled
    then ok no_tls
    else if differ (is_set tls.cert_file) (is_set tls.key_file)
    then raise config_error
    else if is_present tls.key_password && not (is_present tls.key_file)
    then raise config_error
    else ok tls

-- `_load_mqtt_tls_config`
unfoldable pub load_mqtt_tls_config : Environment → Result MqttTlsConfig
unfolding bool_or get_env get_secret check_tls
load_mqtt_tls_config env = do
  enabled ← bool_or false (get_env env (text "MQTT_TLS_ENABLED"))
  password ← get_secret env (text "MQTT_TLS_KEY_PASSWORD") (text "MQTT_TLS_KEY_PASSWORD_FILE")
  check_tls (record {
    enabled = enabled;
    ca_file = get_env env (text "MQTT_TLS_CA_FILE");
    cert_file = get_env env (text "MQTT_TLS_CERT_FILE");
    key_file = get_env env (text "MQTT_TLS_KEY_FILE");
    key_password = password;
  })
