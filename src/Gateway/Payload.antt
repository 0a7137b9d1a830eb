-- ===== src/Gateway/Payload.antt =====
-- `parse_command` of esp_ble_mesh/provisioner/main/gateway_bridge.c. The cJSON library is a
-- parameter.
pub mod SafeText
use esp32_ble_mesh.Base.{
  Bool, List, Option, [], codes, eq_bytes, false, if◌then◌else◌, leb, map, none, some, strlcpy,
  true, ℕ, ◌&&◌, ◌+◌, ◌||◌,
}
use esp32_ble_mesh.Gateway.Topic.{valid_message_id}

-- What the code uses of cJSON. The tests are false on NULL, as the library's are.
pub record CJson : Type 1 where
  pub Node : Type 0
  pub parse : List ℕ → Option Node
  pub get_item : Node → List ℕ → Option Node
  pub is_object : Node → Bool
  pub is_bool : Node → Bool
  pub is_true : Node → Bool
  pub string_value : Node → Option (List ℕ)

-- `strcasecmp(a, b) == 0`.
abbrev pub to_lower : ℕ → ℕ
to_lower c = if leb b'A' c && leb c b'Z' then c + 32 else c

abbrev pub eq_ignore_case : List ℕ → List ℕ → Bool
eq_ignore_case a b = eq_bytes (map to_lower a) (map to_lower b)

-- The payloads that need no JSON.
abbrev pub says_on : List ℕ → Bool
says_on payload = eq_ignore_case payload (codes "on") || eq_bytes payload (codes "1")

abbrev pub says_off : List ℕ → Bool
says_off payload = eq_ignore_case payload (codes "off") || eq_bytes payload (codes "0")

-- The size of the buffer for the incoming message id.
abbrev pub id_size : ℕ
id_size = 96

module _ (json : CJson) where
  open json use {Node, parse, get_item, is_object, is_bool, is_true, string_value}

  abbrev test : (Node → Bool) → Option Node → Bool
  test p none = false
  test p (some node) = p node

  -- `cJSON_IsObject(data) ? data : root`.
  abbrev container : Node → Node
  container root = elim (get_item root (codes "data")) [
    | some node ↦ if is_object node then node else root
    | none ↦ root
  ]

  -- `cJSON_IsBool(on_value)`, and then `cJSON_IsTrue(on_value)`.
  abbrev on_value : Node → Option Bool
  on_value root = elim (get_item (container root) (codes "on")) [
    | some node ↦ if is_bool node then some (is_true node) else none
    | none ↦ none
  ]

  abbrev pub id_value : Node → Option (List ℕ)
  id_value root = elim (get_item root (codes "msg_id")) [
    | some node ↦ string_value node
    | none ↦ none
  ]

  -- The message id, if it is valid; the buffer is empty otherwise.
  abbrev pub accepted_id : Option (List ℕ) → List ℕ
  accepted_id none = []
  accepted_id (some id) = if valid_message_id id then strlcpy id id_size else []

  -- A payload that cJSON reads, or does not.
  unfoldable pub parsed : Option Node → Option Bool × List ℕ
  parsed none = (none, [])
  parsed (some root) = (on_value root, accepted_id (id_value root))

  -- `parse_command`: the wanted state if the payload is a command, and the message id.
  unfoldable pub parse_command : List ℕ → Option Bool × List ℕ
  unfolding parsed valid_message_id
  parse_command payload =
      if says_on payload
      then (some true, [])
      else if says_off payload
      then (some false, [])
      else parsed (parse payload)
