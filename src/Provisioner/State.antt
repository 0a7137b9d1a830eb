-- ===== src/Provisioner/State.antt =====
-- The static variables of esp_ble_mesh/provisioner/main/main.c, the calls that it makes of the mesh
-- stack, NVS, FreeRTOS and the bridge, and the monad that threads both.
use mathlib.Core.Bool.{Bool, true, false}
use esp32_ble_mesh.Base.{List, Option, [], none, some, suc, zero, ℕ, ◌∷◌}

-- `esp_err_t`: the codes that this program names, and any other.
pub data EspErr : Type 0 where
  ok fail no_mem invalid_arg invalid_state not_found : EspErr
  other : ℕ → EspErr

-- `err == ESP_OK`.
abbrev pub is_ok : EspErr → Bool
is_ok ok = true
is_ok _ = false

-- `esp_ble_mesh_node_info_t`. The fields are bytes, and `unicast` a 16-bit address.
pub record NodeInfo : Type 0 where
  pub uuid : List ℕ
  pub unicast : ℕ
  pub elem_num : ℕ
  pub onoff : ℕ

-- `farmely_pending_command_t`; `message_id` is the C string in the buffer.
pub record PendingCommand : Type 0 where
  pub in_flight : Bool
  pub desired_onoff : ℕ
  pub retries : ℕ
  pub message_id : List ℕ

-- `struct esp_ble_mesh_key`.
pub record ProvKey : Type 0 where
  pub net_idx : ℕ
  pub app_idx : ℕ
  pub app_key : List ℕ

-- The two client models that requests go out from.
pub data Model : Type 0 where
  config_client onoff_client : Model

-- The opcodes that the callbacks tell apart.
pub data Opcode : Type 0 where
  composition_data_get app_key_add model_app_bind model_sub_add : Opcode
  gen_onoff_get gen_onoff_set gen_onoff_set_unack : Opcode
  composition_data_status app_key_status : Opcode
  other_opcode : ℕ → Opcode

-- `esp_ble_mesh_client_common_param_t`, as far as the code sets it.
pub record Common : Type 0 where
  pub opcode : Opcode
  pub model : Model
  pub net_idx : ℕ
  pub app_idx : ℕ
  pub addr : ℕ
  pub send_ttl : ℕ
  pub msg_timeout : ℕ

-- The client requests, with the fields that the code sets for each.
pub data Request : Type 0 where
  composition_get : Common → (page : ℕ) → Request
  key_add : Common → (net_idx : ℕ) → (app_idx : ℕ) → (app_key : List ℕ) → Request
  app_bind :
      Common → (element_addr : ℕ) → (app_idx : ℕ) → (model_id : ℕ) → (company_id : ℕ) → Request
  sub_add :
      Common → (element_addr : ℕ) → (sub_addr : ℕ) → (model_id : ℕ) → (company_id : ℕ) → Request
  onoff_get : Common → Request
  onoff_set : Common → (op_en : Bool) → (onoff : ℕ) → (tid : ℕ) → Request

-- The FreeRTOS tasks that the program starts.
pub data Task : Type 0 where
  group_sync recover_nodes : Task

-- `esp_ble_mesh_unprov_dev_add_t`.
pub record UnprovDev : Type 0 where
  pub addr : List ℕ
  pub addr_type : ℕ
  pub uuid : List ℕ
  pub oob_info : ℕ
  pub bearer : ℕ

-- Everything that leaves the program, in the order of the calls.
pub data Effect : Type 0 where
  sent : Request → Effect
  opened_nvs : (writable : Bool) → Effect
  stored_progress : (stage : ℕ) → (addr : ℕ) → (onoff : ℕ) → (error : ℕ) → Effect
  stored_nodes : (ℕ → NodeInfo) → Effect
  created : Task → Effect
  delayed_ms : ℕ → Effect
  node_status : (device_id : List ℕ) → (on : Bool) → (online : Bool) → Effect
  ack : (device_id : List ℕ) → (message_id : List ℕ) → Effect
  gateway_status : (nodes : ℕ) → Effect
  named_node : (node_idx : ℕ) → Effect
  added_unprov : UnprovDev → Effect
  enabled_prov disabled_prov : Effect
  bound_local_key : (app_idx : ℕ) → Effect
  initialised_mesh set_uuid_match : Effect
  started_bridge : (gateway_id : List ℕ) → Effect
  added_local_key : (app_key : List ℕ) → (net_idx : ℕ) → (app_idx : ℕ) → Effect

-- Newest first.
abbrev pub Log : Type 0
Log = List Effect

-- What the libraries around the program answer, and what they define. An answer may depend on all
-- that was called before. `max_nodes` is CONFIG_BLE_MESH_MAX_PROV_NODES, `is_unicast` the macro
-- ESP_BLE_MESH_ADDR_IS_UNICAST; the others are ESP_BLE_MESH_MODEL_ID_GEN_ONOFF_SRV,
-- ESP_BLE_MESH_CID_NVAL and ESP_BLE_MESH_KEY_PRIMARY.
pub record Env : Type 0 where
  pub max_nodes : ℕ
  pub answer : Log → Effect → EspErr
  pub is_unicast : ℕ → Bool
  pub onoff_srv_id : ℕ
  pub cid_nval : ℕ
  pub key_primary : ℕ

-- The static variables. An array is a function of the index, of `max_nodes` entries.
pub record Provisioner : Type 0 where
  pub nodes : ℕ → NodeInfo
  pub pending : ℕ → PendingCommand
  pub get_retries : ℕ → ℕ
  pub config_retries : ℕ → ℕ
  pub status_version : ℕ → ℕ
  pub tid : ℕ
  pub toggle_after_get_addr : ℕ
  pub progress_stage : ℕ
  pub prov_key : ProvKey
  pub log : Log

abbrev pub M : Type 0 → Type 0
M A = Provisioner → A × Provisioner

abbrev pub pure : {A : Type 0} → A → M A
pure a s = (a, s)

infixl 5 ◌>>=◌ ◌>>◌
abbrev pub ◌>>=◌ : {A B : Type 0} → M A → (A → M B) → M B
◌>>=◌ m f s = f (m s).0 (m s).1

abbrev pub ◌>>◌ : {A B : Type 0} → M A → M B → M B
◌>>◌ m k s = k (m s).1

abbrev pub skip : M (Unit {0})
skip s = (tt, s)

abbrev pub get : M Provisioner
get s = (s, s)

abbrev pub modify : (Provisioner → Provisioner) → M (Unit {0})
modify f s = (tt, f s)

-- A test for NULL, or for the end of a search.
abbrev pub maybe : {A B : Type 0} → Option A → M B → (A → M B) → M B
maybe none n f = n
maybe (some a) n f = f a

-- A call whose answer the program does not read.
abbrev pub emit : Effect → M (Unit {0})
emit e s = (tt, record s { log = e ∷ s.log })

-- A call of the libraries, with their answer.
abbrev pub perform : Env → Effect → M EspErr
perform env e s = (env.answer s.log e, record s { log = e ∷ s.log })

-- `for (i = from; i < n; i++)`, with `k` rounds left.
unfoldable pub for_from : ℕ → ℕ → (ℕ → M (Unit {0})) → M (Unit {0})
for_from zero i body = skip
for_from (suc k) i body = do body i; for_from k (suc i) body

-- ESP_BLE_MESH_ADDR_UNASSIGNED, and the constants of main.c.
abbrev pub addr_unassigned : ℕ
addr_unassigned = 0

abbrev pub led_off : ℕ
led_off = 0

abbrev pub led_on : ℕ
led_on = 1

abbrev pub prov_own_addr : ℕ
prov_own_addr = 1

abbrev pub msg_send_ttl : ℕ
msg_send_ttl = 3

abbrev pub msg_timeout : ℕ
msg_timeout = 0

abbrev pub comp_data_page_0 : ℕ
comp_data_page_0 = 0

abbrev pub farmely_group_addr : ℕ
farmely_group_addr = 0xC000

abbrev pub farmely_max_retries : ℕ
farmely_max_retries = 3

abbrev pub zero_uuid : List ℕ
zero_uuid = 0 ∷ 0 ∷ 0 ∷ 0 ∷ 0 ∷ 0 ∷ 0 ∷ 0 ∷ 0 ∷ 0 ∷ 0 ∷ 0 ∷ 0 ∷ 0 ∷ 0 ∷ 0 ∷ []

-- A zeroed entry of `nodes` and of `s_pending`.
abbrev pub no_node : NodeInfo
no_node = record { uuid = zero_uuid; unicast = addr_unassigned; elem_num = 0; onoff = led_off }

abbrev pub no_command : PendingCommand
no_command = record { in_flight = false; desired_onoff = 0; retries = 0; message_id = [] }
