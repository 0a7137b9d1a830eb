-- ===== src/OnoffNode/State.antt =====
-- The static variables of esp_ble_mesh/onoff_models/onoff_server/main/main.c, the LED of board.c, and the
-- NVS library and the BLE Mesh stack as the node sees them.
use esp32_ble_mesh.Base.{Bool, List, Option, ℕ, ◌∷◌}

-- The keys of the namespace "farmely_node".
pub data Key : Type 0 where
  stage_key : Key
  addr_key : Key
  onoff_key : Key

-- The calls of the NVS library on an image of the flash: `nvs_open` for reading, which fails or not,
-- and for writing, which may create the namespace; `nvs_get_*`, `nvs_set_*`, `nvs_commit` and
-- `nvs_erase_all`; `format` is nvs_flash_erase.
pub record Flash (F : Type 0) : Type 0 where
  pub open_read : F → Bool
  pub open_write : F → Option F
  pub get_key : F → Key → Option ℕ
  pub set_key : F → Key → ℕ → F
  pub commit : F → F
  pub erase_all : F → F
  pub format : F → F

-- ESP_BLE_MESH_ADDR_IS_UNICAST, ESP_BLE_MESH_ADDR_IS_GROUP and ESP_ERR_NVS_NO_FREE_PAGES.
pub record Sdk : Type 0 where
  pub is_unicast : ℕ → Bool
  pub is_group : ℕ → Bool
  pub no_free_pages : ℕ

-- What the stack says of the node when it is asked: esp_ble_mesh_get_primary_element_address,
-- esp_ble_mesh_get_element_count, and the address of the model's element.
pub record Place : Type 0 where
  pub primary : ℕ
  pub elem_count : ℕ
  pub element : ℕ

pub data Opcode : Type 0 where
  gen_onoff_get : Opcode
  gen_onoff_set : Opcode
  gen_onoff_set_unack : Opcode
  other_opcode : Opcode

-- `esp_ble_mesh_msg_ctx_t`, less what the node only logs; `subscribed` is the answer of
-- esp_ble_mesh_is_model_subscribed_to_group for the model and `recv_dst`.
pub record Context : Type 0 where
  pub recv_op : Opcode
  pub recv_dst : ℕ
  pub subscribed : Bool

-- The on/off status that leaves the node.
pub data Out : Type 0 where
  sent_status : (onoff : ℕ) → Out
  published_status : (onoff : ℕ) → Out

-- `s_node_stage`, `s_node_addr`, `s_restored_onoff`, `onoff_server_0.state.onoff`,
-- `led_state[0].previous`, the level that board_led_write wrote last, the flash, and what left the
-- node, newest first.
pub record Node (F : Type 0) : Type 0 where
  pub stage : ℕ
  pub addr : ℕ
  pub restored_onoff : ℕ
  pub server_onoff : ℕ
  pub previous : ℕ
  pub level : ℕ
  pub flash : F
  pub outs : List Out

abbrev pub M : Type 0 → Type 0 → Type 0
M F A = Node F → A × Node F

infixl 5 ◌>>=◌ ◌>>◌
abbrev pub ◌>>=◌ : {F A B : Type 0} → M F A → (A → M F B) → M F B
◌>>=◌ m f s = f (m s).0 (m s).1

abbrev pub ◌>>◌ : {F A B : Type 0} → M F A → M F B → M F B
◌>>◌ m k s = k (m s).1

abbrev pub skip : {F : Type 0} → M F (Unit {0})
skip s = (tt, s)

abbrev pub get : {F : Type 0} → M F (Node F)
get s = (s, s)

abbrev pub modify : {F : Type 0} → (Node F → Node F) → M F (Unit {0})
modify f s = (tt, f s)

abbrev pub emit : {F : Type 0} → Out → M F (Unit {0})
emit e s = (tt, record s { outs = e ∷ s.outs })
