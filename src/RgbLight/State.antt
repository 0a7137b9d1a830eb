-- ===== src/RgbLight/State.antt =====
-- The static variables of rgb_light/main/app_light.c and app_mqtt.c, and what leaves the program.
use esp32_ble_mesh.Base.{Bool, List, ℕ, ◌∷◌}

pub record Rgb : Type 0 where
  pub r : ℕ
  pub g : ℕ
  pub b : ℕ

-- A message id, "%s-%08x-%u" of its three parts.
pub record MessageId : Type 0 where
  pub device_id : List ℕ
  pub boot_nonce : ℕ
  pub sequence : ℕ

-- The fields of the JSON texts that the lamp prints, less the constants of the build.
pub data Payload : Type 0 where
  legacy_status : (on : Bool) → (color : List ℕ) → Payload
  status : MessageId → (ts : ℕ) → (on : Bool) → (color : List ℕ) → Payload
  ota_status : MessageId → (ts : ℕ) → (text fw_version ota_msg_id detail : List ℕ) → Payload

-- Calls of the MQTT client, of app_ota.c and of the heartbeat's timer.
pub data Out : Type 0 where
  published : (topic : List ℕ) → Payload → Out
  subscribed : (topic : List ℕ) → Out
  started_ota : (url sha256 fw_version ota_msg_id : List ℕ) → Out
  confirmed_ota : Out
  started_timer : Out
  stopped_timer : Out

-- What the build and the Wi-Fi part say: CONFIG_EXAMPLE_LIGHT_LED_COUNT, whether
-- CONFIG_EXAMPLE_ENABLE_COLOR is set, app_wifi_get_device_id and the version of the image.
pub record Config : Type 0 where
  pub led_count : ℕ
  pub enable_color : Bool
  pub device_id : List ℕ
  pub version : List ℕ

-- Whether `s_strip` is set, `s_on`, the colour, what each LED shows, whether `s_client` and
-- `s_heartbeat_timer` are set, `s_boot_nonce`, `s_sequence`, and what left the program, newest first.
pub record Light : Type 0 where
  pub has_strip : Bool
  pub on : Bool
  pub color : Rgb
  pub leds : ℕ → Rgb
  pub has_client : Bool
  pub has_timer : Bool
  pub boot_nonce : ℕ
  pub sequence : ℕ
  pub outs : List Out

abbrev pub M : Type 0 → Type 0
M A = Light → A × Light

abbrev pub pure : {A : Type 0} → A → M A
pure a s = (a, s)

infixl 5 ◌>>=◌ ◌>>◌
abbrev pub ◌>>=◌ : {A B : Type 0} → M A → (A → M B) → M B
◌>>=◌ m f s = f (m s).0 (m s).1

abbrev pub ◌>>◌ : {A B : Type 0} → M A → M B → M B
◌>>◌ m k s = k (m s).1

abbrev pub skip : M (Unit {0})
skip s = (tt, s)

abbrev pub get : M Light
get s = (s, s)

abbrev pub modify : (Light → Light) → M (Unit {0})
modify f s = (tt, f s)

abbrev pub emit : Out → M (Unit {0})
emit e s = (tt, record s { outs = e ∷ s.outs })
