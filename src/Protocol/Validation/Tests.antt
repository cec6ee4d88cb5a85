-- ===== src/Protocol/Validation/Tests.antt =====
-- Addresses, read from concrete texts.
use mochad_mqtt_bridge.Prelude.{◌≡◌, refl, ◌↔◌, ok}
use mochad_mqtt_bridge.Text.{text, upper, strip}
use mochad_mqtt_bridge.Text.Decimal.{decimal, int}
use mochad_mqtt_bridge.Text.Normal.{normal}
use mochad_mqtt_bridge.Protocol.Validation.{normalize_address, split_address, join_address}
use mochad_mqtt_bridge.Protocol.Validation.Parsers.{join_address-split_address}
use mochad_mqtt_bridge.Protocol.Validation.Addresses.{IsAddress, normalize_address_iff}

normalize_address_iff_example :
    (normalize_address (text " a16 ") ≡ ok (text "A16"))
    ↔ (IsAddress (text "A16") × (normal (text " a16 ") ≡ text "A16"))
normalize_address_iff_example = normalize_address_iff (text " a16 ") (text "A16")

join_address-split_address_example : join_address (text "B") 12 ≡ normalize_address (text "b12")
unfolding split_address upper strip decimal int
join_address-split_address_example = join_address-split_address (text "b12") (text "B") 12 refl
