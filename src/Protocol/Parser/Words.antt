-- ===== src/Protocol/Parser/Words.antt =====
-- protocol/mappings.py: the words of commands.
use mochad_mqtt_bridge.Prelude.{
  ◌≡◌, ◌≢◌, ◌↔◌, ◌⊎◌, inl, inr, refl, sym, ap, ◌∙◌, map, ◌==◌, if◌then◌else◌, Bool-cases,
}
use mochad_mqtt_bridge.Text.{Text, text_eq, text_eq_sound}
use mochad_mqtt_bridge.Models.Enums.{
  Command, on, off, dim, bright, all_lights_on, all_lights_off, all_units_off, status_request,
  status_on, status_off, unknown, command_name,
}
use mochad_mqtt_bridge.Protocol.Parser.{command_map}

-- the name of a command with spaces for its underscores
unfoldable pub spoken : Command → Text
unfolding command_name
spoken c = map (λ x. if x == b'_' then b' ' else x) (command_name c)

abbrev Named : Text → Command → Type 0
Named t c = (c ≡ unknown) ⊎ (t ≡ spoken c)

if-Named :
    (t : Text) (c rest : Command)
    → Named t rest
    → Named t (if text_eq t (spoken c) then c else rest)
if-Named t c rest h = elim (Bool-cases (text_eq t (spoken c))) [
  | inl e ↦ rw e (inr (text_eq_sound t (spoken c) e))
  | inr e ↦ rw e h
]

unknown-Named : (t : Text) → Named t unknown
unknown-Named t = inl refl

command_map-Named : (t : Text) → Named t (command_map t)
unfolding command_map spoken
command_map-Named t = if-Named t on _ (
    if-Named t off _ (
      if-Named t dim _ (
        if-Named t bright _ (
          if-Named t all_lights_on _ (
            if-Named t all_lights_off _ (
              if-Named t all_units_off _ (
                if-Named t status_on _
                  (if-Named t status_off _ (if-Named t status_request _ (unknown-Named t))))))))))

command_map-spoken : (c : Command) → command_map (spoken c) ≡ c
unfolding command_map spoken text_eq
command_map-spoken on = refl
command_map-spoken off = refl
command_map-spoken dim = refl
command_map-spoken bright = refl
command_map-spoken all_lights_on = refl
command_map-spoken all_lights_off = refl
command_map-spoken all_units_off = refl
command_map-spoken status_request = refl
command_map-spoken status_on = refl
command_map-spoken status_off = refl
command_map-spoken unknown = refl

known_word : (t : Text) (x c : Command) → Named t x → c ≢ unknown → x ≡ c → t ≡ spoken c
known_word t x c (inl none) known same = absurd (known (sym same ∙ none))
known_word t x c (inr named) known same = named ∙ ap spoken same

-- A token is read as a command other than unknown exactly when it is the name of the command, with
-- spaces for its underscores.
pub command_map_iff : (t : Text) (c : Command) → c ≢ unknown → (command_map t ≡ c) ↔ (t ≡ spoken c)
command_map_iff t c known = (
  known_word t (command_map t) c (command_map-Named t) known,
  λ e. ap command_map e ∙ command_map-spoken c,
)
