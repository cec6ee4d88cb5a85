-- ===== src/Bridge/Sending.antt =====
-- What sending one device command writes to mochad, if it succeeds and if it fails.
use mochad_mqtt_bridge.Prelude.{
  ℕ, zero, suc, ◌<◌, ◌≡◌, refl, sym, ap, ◌∙◌, inl, inr, Bool, true, false, not, Option, none, some,
  List, [], ◌∷◌, ◌++◌, append-nil, append_assoc, arith, if◌then◌else◌, Bool-cases, replicate,
  connection_error, Result, ok, raise,
}
use mochad_mqtt_bridge.Text.{Text, text_eq, text_eq_sound}
use mochad_mqtt_bridge.Text.Normal.{normal}
use mochad_mqtt_bridge.Dict.{Dict, lookup, insert, lookup-insert}
use mochad_mqtt_bridge.Models.Config.{DeviceConfig, new_device_config}
use mochad_mqtt_bridge.Protocol.Encoder.{encode_rf_command}
use mochad_mqtt_bridge.Mochad.{MochadClient, wire, send_all, send_line}
use mochad_mqtt_bridge.Bridge.{DeviceCommand, Bridge, Effect}
use mochad_mqtt_bridge.Bridge.Outbound.{
  found_or_default, bridge_device_config, send_repeated, repeats, transmit, send_device_command_now,
  is_transport_error,
}

-- What an attempt to write one line comes to.
abbrev Line : MochadClient → Text → MochadClient × Result (Unit {0}) → Type 0
Line m l (m', ok _) = m'.sent ≡ m.sent ++ wire l ∷ []
Line m l (m', raise e) = (is_transport_error e ≡ true) × (m'.sent ≡ m.sent)

send_all-Line : (m : MochadClient) (l : Text) (works : Bool) → Line m l (send_all works (wire l) m)
unfolding send_all is_transport_error
send_all-Line m l true = refl
send_all-Line m l false = (refl, refl)

send_line-Line : (socket : ℕ → Bool) (m : MochadClient) (l : Text) → Line m l (send_line socket l m)
unfolding send_line is_transport_error
send_line-Line socket m l = go m.connected
  where
    go :
        (connected : Bool)
        → Line m l (
            if not connected
            then (m, raise connection_error)
            else send_all (socket m.attempts) (wire l) m)
    go true = send_all-Line m l (socket m.attempts)
    go false = (refl, refl)

-- What an attempt to write a line n times comes to.
abbrev Lines : MochadClient → Text → ℕ → MochadClient × Result (Unit {0}) → Type 0
Lines m l n (m', ok _) = m'.sent ≡ m.sent ++ replicate n (wire l)
Lines m l n (m', raise e) =
    (is_transport_error e ≡ true) × (k : ℕ) × (k < n) × (m'.sent ≡ m.sent ++ replicate k (wire l))

one_more :
    (m m' : MochadClient) (l : Text) (n : ℕ) (o : MochadClient × Result (Unit {0}))
    → m'.sent ≡ m.sent ++ wire l ∷ []
    → Lines m' l n o
    → Lines m l (suc n) o
one_more m m' l n (m'', ok _) first rest =
    rest ∙ rw first (append_assoc m.sent (wire l ∷ []) (replicate n (wire l)))
one_more m m' l n (m'', raise e) first (transport, k, small, rest) = (
  transport,
  suc k,
  omega (arith, small),
  rest ∙ rw first (append_assoc m.sent (wire l ∷ []) (replicate k (wire l))),
)

-- One line, and then the others, if it succeeds.
then_more :
    (m : MochadClient) (l : Text) (n : ℕ) (more : MochadClient → MochadClient × Result (Unit {0}))
    → ((m : MochadClient) → Lines m l n (more m))
    → (o : MochadClient × Result (Unit {0})) → Line m l o
    → Lines m l (suc n) (elim o.1 [ ok _ ↦ more o.0 | raise e ↦ (o.0, raise e) ])
then_more m l n more h (m', ok _) first = one_more m m' l n (more m') first (h m')
then_more m l n more h (m', raise e) (transport, same) =
    (transport, 0, omega arith, same ∙ sym (append-nil m.sent))

send_repeated-Lines :
    (socket : ℕ → Bool) (n : ℕ) (m : MochadClient) (l : Text)
    → Lines m l n (send_repeated socket n l m)
unfolding send_repeated
send_repeated-Lines socket zero m l = sym (append-nil m.sent)
send_repeated-Lines socket (suc n) m l =
    then_more m l n (send_repeated socket n l) (λ m. send_repeated-Lines socket n m l)
      (send_line socket l m) (send_line-Line socket m l)

-- How often a command is sent to a device of this configuration, known or not.
abbrev config_of : Text → Option DeviceConfig → DeviceConfig
config_of address none = new_device_config (normal address) (normal address)
config_of address (some device) = device

abbrev attempts : Dict DeviceConfig → DeviceCommand → ℕ
attempts devices (address, command) =
    repeats command (config_of address (lookup (normal address) devices))

abbrev copies : ℕ → Result Text → List Text
copies n (ok line) = replicate n (wire line)
copies n (raise e) = []

-- The lines that a command puts on the wire.
unfoldable pub batch : Dict DeviceConfig → DeviceCommand → List Text
batch devices action = copies (attempts devices action) (encode_rf_command action.0 action.1)

default_config :
    (a c : Text) (d : Dict DeviceConfig)
    → lookup (normal a) d ≡ none
    → config_of c
        (lookup (normal c) (insert (normal a) (new_device_config (normal a) (normal a)) d))
      ≡ config_of c (lookup (normal c) d)
default_config a c d h =
    rw (lookup-insert (normal a) (normal c) (new_device_config (normal a) (normal a)) d)
      (elim (Bool-cases (text_eq (normal a) (normal c))) [
        | inl e ↦
            let same : normal a ≡ normal c = text_eq_sound (normal a) (normal c) e in
            let unknown : lookup (normal c) d ≡ none = rw (← same) h in rw (e, unknown, same)
        | inr e ↦ rw e
      ])

-- A device that is not known gets its default configuration, which changes no batch.
found_or_default-batch :
    (a : Text) (b : Bridge) (o : Option DeviceConfig)
    → lookup (normal a) b.devices ≡ o
    → ((x : DeviceCommand)
        → batch (found_or_default (normal a) o b).0.devices x ≡ batch b.devices x)
      × ((found_or_default (normal a) o b).1 ≡ config_of a o)
      × ((found_or_default (normal a) o b).0.mochad ≡ b.mochad)
      × ((found_or_default (normal a) o b).0.queued_device_commands ≡ b.queued_device_commands)
unfolding found_or_default batch
found_or_default-batch a b (some d) h = (λ x. refl, refl, refl, refl)
found_or_default-batch a b none h = (
  λ x.
      ap (λ d. copies (repeats x.1 d) (encode_rf_command x.0 x.1))
        (default_config a x.0 b.devices h),
  refl,
  refl,
  refl,
)

abbrev pub Encodable : DeviceCommand → Type 0
Encodable action = (line : Text) × (encode_rf_command action.0 action.1 ≡ ok line)

-- What an attempt to send a command comes to: the whole batch, or a transport error after a part.
abbrev pub Attempt : DeviceCommand → Bridge → Effect → Type 0
Attempt a b (b', ok _) = b'.mochad.sent ≡ b.mochad.sent ++ batch b.devices a
Attempt a b (b', raise e) =
    (is_transport_error e ≡ true)
    × (begun : List Text) × (more : List Text) × (begun ++ more ≡ batch b.devices a)
    × (b'.mochad.sent ≡ b.mochad.sent ++ begun)

replicate_split :
    (k n : ℕ) (w : Text) → k < n → (rest : List Text) × (replicate k w ++ rest ≡ replicate n w)
replicate_split zero n w h = (replicate n w, refl)
replicate_split (suc k) zero w h = absurd (omega arith)
replicate_split (suc k) (suc n) w h =
    let (rest, e) = replicate_split k n w (omega arith) in (rest, ap (◌∷◌ w) e)

Lines-Attempt :
    (a : DeviceCommand) (b b' : Bridge) (n : ℕ) (line : Text)
    → batch b.devices a ≡ replicate n (wire line)
    → (o : MochadClient × Result (Unit {0})) → Lines b.mochad line n o
    → Attempt a b (record b' { mochad = o.0 }, o.1)
Lines-Attempt a b b' n line e (m, ok _) h = h ∙ ap (λ ls. b.mochad.sent ++ ls) (sym e)
Lines-Attempt a b b' n line e (m, raise _) (transport, k, small, h) =
    let (rest, split) = replicate_split k n (wire line) small in
    (transport, replicate k (wire line), rest, split ∙ sym e, h)

-- Sending a command that can be encoded.
pub send_device_command_now-Attempt :
    (socket : ℕ → Bool) (a : DeviceCommand) (b : Bridge)
    → Encodable a
    → Attempt a b (send_device_command_now socket a b)
unfolding send_device_command_now transmit bridge_device_config batch
send_device_command_now-Attempt socket (a, c) b (line, encoded) =
    let (same, config, mochad, queue) =
      found_or_default-batch a b (lookup (normal a) b.devices) refl in
    let n = attempts b.devices (a, c) in
    rw (encoded, config, mochad)
      (Lines-Attempt (a, c) b (found_or_default (normal a) (lookup (normal a) b.devices) b).0 _ line
        (ap (copies n) encoded) (send_repeated socket n line b.mochad)
        (send_repeated-Lines socket n b.mochad line))

transmit-keeps :
    (socket : ℕ → Bool) (n : ℕ) (line : Result Text) (b : Bridge)
    → ((transmit socket n line b).0.devices ≡ b.devices)
      × ((transmit socket n line b).0.queued_device_commands ≡ b.queued_device_commands)
unfolding transmit
transmit-keeps socket n (ok l) b = (refl, refl)
transmit-keeps socket n (raise e) b = (refl, refl)

-- It leaves the queue and every batch as they are.
pub send_device_command_now-keeps :
    (socket : ℕ → Bool) (a : DeviceCommand) (b : Bridge)
    → ((x : DeviceCommand)
        → batch (send_device_command_now socket a b).0.devices x ≡ batch b.devices x)
      × ((send_device_command_now socket a b).0.queued_device_commands ≡ b.queued_device_commands)
unfolding send_device_command_now bridge_device_config
send_device_command_now-keeps socket (a, c) b =
    let (same, config, mochad, queue) =
      found_or_default-batch a b (lookup (normal a) b.devices) refl in
    let (devices, waiting) =
      transmit-keeps socket _ (encode_rf_command a c)
        (found_or_default (normal a) (lookup (normal a) b.devices) b).0 in
    (λ x. ap (λ d. batch d x) devices ∙ same x, waiting ∙ queue)
