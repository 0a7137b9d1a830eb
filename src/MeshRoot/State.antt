-- ===== src/MeshRoot/State.antt =====
-- The static variables of internal_communication/main/mesh_main.c that the root's registry uses, and
-- what leaves the root.
use esp32_ble_mesh.Base.{Bool, List, [], false, replicate, update, ℕ, ◌∷◌}

-- `node_entry_t`; its strings are C strings.
pub record NodeEntry : Type 0 where
  pub used : Bool
  pub online : Bool
  pub mac : List ℕ
  pub addr : List ℕ
  pub on : ℕ
  pub layer : ℕ
  pub is_root : ℕ
  pub device_type : List ℕ
  pub product_id : List ℕ
  pub hw_version : List ℕ
  pub fw_version : List ℕ
  pub last_seen_us : ℕ

-- A zeroed entry.
abbrev pub no_entry : NodeEntry
no_entry = record {
  used = false;
  online = false;
  mac = replicate 6 0;
  addr = replicate 6 0;
  on = 0;
  layer = 0;
  is_root = 0;
  device_type = [];
  product_id = [];
  hw_version = [];
  fw_version = [];
  last_seen_us = 0;
}

-- `mesh_light_status_t`; its strings are the bytes of the arrays.
pub record StatusPacket : Type 0 where
  pub on : ℕ
  pub mac : List ℕ
  pub layer : ℕ
  pub is_root : ℕ
  pub device_type : List ℕ
  pub product_id : List ℕ
  pub hw_version : List ℕ
  pub fw_version : List ℕ

-- A message id, "%s-%08x-%u" of its three parts.
pub record MessageId : Type 0 where
  pub device_id : List ℕ
  pub boot_nonce : ℕ
  pub sequence : ℕ

-- What the report of a node says in both its forms; the ids and versions are those of the build where
-- the entry has none.
pub record NodeReport : Type 0 where
  pub message_id : MessageId
  pub online : Bool
  pub on : Bool
  pub device_type : List ℕ
  pub product_id : List ℕ
  pub hw_version : List ℕ
  pub fw_version : List ℕ

-- The fields of the JSON texts that the root prints, less the constants of the build and the free
-- heap.
pub data Payload : Type 0 where
  node_legacy : (id : List ℕ) → (layer : ℕ) → (is_root : Bool) → NodeReport → Payload
  node_status : (ts : ℕ) → NodeReport → Payload
  gateway_legacy : MessageId → (layer : ℕ) → (total : ℕ) → (online : ℕ) → Payload
  gateway_status : MessageId → (ts : ℕ) → (total : ℕ) → (online : ℕ) → Payload
  event_status : (name : List ℕ) → (is_root : Bool) → (layer : ℕ) → Payload
  ack : MessageId → (ts : ℕ) → (ack_msg_id : List ℕ) → Payload

-- `mesh_ota_cmd_t`; its strings are C strings.
pub record OtaCommand : Type 0 where
  pub mac : List ℕ
  pub url : List ℕ
  pub sha256 : List ℕ
  pub fw_version : List ℕ
  pub ota_msg_id : List ℕ
  pub product_id : List ℕ
  pub hw_version : List ℕ

pub data Out : Type 0 where
  published : (topic : List ℕ) → Payload → Out
  sent_ctl : (addr : List ℕ) → (on : Bool) → Out
  applied_light : (on : Bool) → Out
  sent_ota : (addr : List ℕ) → OtaCommand → Out
  started_ota : (url sha256 fw_version ota_msg_id : List ℕ) → Out

-- CONFIG_MESH_ROUTE_TABLE_SIZE, and what the build and the image say of the device.
pub record Config : Type 0 where
  pub max_nodes : ℕ
  pub product_id : List ℕ
  pub hw_version : List ℕ
  pub firmware_version : List ℕ

-- The static variables; `layer` is `mesh_layer` of a node that has joined, which is not negative.
pub record Root : Type 0 where
  pub nodes : ℕ → NodeEntry
  pub self_mac : List ℕ
  pub light_state : ℕ
  pub layer : ℕ
  pub is_root : Bool
  pub has_client : Bool
  pub boot_nonce : ℕ
  pub sequence : ℕ
  pub outs : List Out

abbrev pub M : Type 0 → Type 0
M A = Root → A × Root

abbrev pub pure : {A : Type 0} → A → M A
pure a s = (a, s)

infixl 5 ◌>>=◌ ◌>>◌
abbrev pub ◌>>=◌ : {A B : Type 0} → M A → (A → M B) → M B
◌>>=◌ m f s = f (m s).0 (m s).1

abbrev pub ◌>>◌ : {A B : Type 0} → M A → M B → M B
◌>>◌ m k s = k (m s).1

abbrev pub skip : M (Unit {0})
skip s = (tt, s)

abbrev pub get : M Root
get s = (s, s)

abbrev pub modify : (Root → Root) → M (Unit {0})
modify f s = (tt, f s)

abbrev pub emit : Out → M (Unit {0})
emit e s = (tt, record s { outs = e ∷ s.outs })

-- `s_nodes[i] = …`.
abbrev pub write : ℕ → NodeEntry → M (Unit {0})
write i entry = modify (λ s. record s { nodes = update s.nodes i entry })
