-- ===== src/Config/Tls.antt =====
-- config.py: the settings of TLS that are accepted.
use mochad_mqtt_bridge.Prelude.{◌≡◌, ◌↔◌, ◌⊎◌, Bool, true, false, arith, ok}
use mochad_mqtt_bridge.Config.Environment.{
  MqttTlsConfig, no_tls, is_set, is_present, differ, check_tls,
}

-- No file and no password is set.
abbrev pub IsBare : MqttTlsConfig → Type 0
IsBare t =
    (is_set t.ca_file ≡ false)
    × (is_set t.cert_file ≡ false)
    × (is_set t.key_file ≡ false)
    × (is_set t.key_password ≡ false)

-- TLS is on, a certificate comes with its key, and a password with a key.
abbrev pub IsUsable : MqttTlsConfig → Type 0
IsUsable t =
    (t.enabled ≡ true)
    × (is_set t.cert_file ≡ is_set t.key_file)
    × ((is_present t.key_password ≡ false) ⊎ (is_present t.key_file ≡ true))

differ_iff : (a b : Bool) → (differ a b ≡ false) ↔ (a ≡ b)
differ_iff true true = ground arith
differ_iff true false = ground arith
differ_iff false true = ground arith
differ_iff false false = ground arith

-- The settings are accepted exactly when nothing is set and TLS is off, and the result is then the
-- default; or when they are usable, and the result is then what was read.
pub check_tls_iff :
    (t u : MqttTlsConfig)
    → (check_tls t ≡ ok u)
      ↔ (((t.enabled ≡ false) × IsBare t × (u ≡ no_tls)) ⊎ (IsUsable t × (u ≡ t)))
unfolding check_tls
check_tls_iff t u = (
  λ h. ground (arith, differ_iff (is_set t.cert_file) (is_set t.key_file)),
  λ h. ground (arith, differ_iff (is_set t.cert_file) (is_set t.key_file)),
)
