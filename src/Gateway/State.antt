-- ===== src/Gateway/State.antt =====
-- The static variables of esp_ble_mesh/provisioner/main/gateway_bridge.c, what leaves the bridge, and
-- the monad that threads both.
use esp32_ble_mesh.Base.{Bool, List, Option, [], false, if◌then◌else◌, none, ℕ, ◌∷◌}

-- A message id, "%s-%08x-%u" of its three parts.
pub record MessageId : Type 0 where
  pub device_id : List ℕ
  pub boot_nonce : ℕ
  pub sequence : ℕ

-- The fields of the JSON texts that the bridge prints.
pub data Payload : Type 0 where
  status : MessageId → (ts : ℕ) → (online : Bool) → (on : Bool) → Payload
  legacy_status : (id : List ℕ) → (online : Bool) → (on : Bool) → Payload
  ack : MessageId → (ts : ℕ) → (ack_msg_id : List ℕ) → Payload
  gateway : MessageId → (ts : ℕ) → (nodes : ℕ) → Payload

-- What leaves the bridge: MQTT and Wi-Fi calls, and the calls of its two handlers.
pub data Out : Type 0 where
  published : (topic : List ℕ) → Payload → (qos : ℕ) → (retain : Bool) → Out
  subscribed : (topic : List ℕ) → Out
  called_command : (device_id : List ℕ) → (on : Bool) → (message_id : List ℕ) → Out
  called_sync : Out
  mqtt_initialised mqtt_registered mqtt_client_started : Out
  wifi_connect configured_dhcp read_ap_config : Out
  pinned_channel : ℕ → Out
  prov_manager_init prov_manager_wait prov_manager_deinit : Out
  portal_start portal_stop set_httpd_handle : Out
  created_endpoint start_provisioning registered_endpoint : Out
  yielded_radio : Bool → Out
  netif_init created_event_loop created_netifs wifi_init : Out
  registered_wifi_events registered_ip_events registered_prov_events : Out
  wifi_set_mode wifi_set_config wifi_start : Out
  created_button_task created_wifi_task : Out

abbrev pub Outs : Type 0
Outs = List Out

-- The build's configuration, and whether a call succeeds, which may depend on all calls before.
-- `created_event_loop` succeeds also when the loop was there before.
pub record Env : Type 0 where
  pub mqtt_uri : List ℕ
  pub wifi_ssid : List ℕ
  pub succeeds : Outs → Out → Bool
  pub ap_channel : Outs → ℕ

pub record Bridge : Type 0 where
  pub has_command_handler : Bool
  pub has_sync_handler : Bool
  pub gateway_id : List ℕ
  pub gateway_topic : List ℕ
  pub boot_nonce : ℕ
  pub sequence : ℕ
  pub mqtt_started : Bool
  pub mqtt_connected : Bool
  pub wifi_autoconnect : Bool
  pub outs : Outs

abbrev pub M : Type 0 → Type 0
M A = Bridge → A × Bridge

abbrev pub pure : {A : Type 0} → A → M A
pure a s = (a, s)

infixl 5 ◌>>=◌ ◌>>◌
abbrev pub ◌>>=◌ : {A B : Type 0} → M A → (A → M B) → M B
◌>>=◌ m f s = f (m s).0 (m s).1

abbrev pub ◌>>◌ : {A B : Type 0} → M A → M B → M B
◌>>◌ m k s = k (m s).1

abbrev pub skip : M (Unit {0})
skip s = (tt, s)

abbrev pub get : M Bridge
get s = (s, s)

abbrev pub modify : (Bridge → Bridge) → M (Unit {0})
modify f s = (tt, f s)

abbrev pub emit : Out → M (Unit {0})
emit e s = (tt, record s { outs = e ∷ s.outs })

-- A call that may fail.
abbrev pub perform : Env → Out → M Bool
perform env e s = (env.succeeds s.outs e, record s { outs = e ∷ s.outs })

-- `ESP_ERROR_CHECK(…)`: a call that fails aborts the program, `none`.
abbrev pub checked : Env → Out → {A : Type 0} → M (Option A) → M (Option A)
checked env call next s =
    if env.succeeds s.outs call
    then next (record s { outs = call ∷ s.outs })
    else (none, record s { outs = call ∷ s.outs })

-- The static variables before `farmely_gateway_bridge_start`.
abbrev pub zeroed : Bridge
zeroed = record {
  has_command_handler = false;
  has_sync_handler = false;
  gateway_id = [];
  gateway_topic = [];
  boot_nonce = 0;
  sequence = 0;
  mqtt_started = false;
  mqtt_connected = false;
  wifi_autoconnect = false;
  outs = [];
}
