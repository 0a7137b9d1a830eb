-- ===== src/Gateway/Topic.antt =====
-- `valid_message_id` and `topic_device_id` of esp_ble_mesh/provisioner/main/gateway_bridge.c.
pub mod RoundTrip
pub mod Bounds
use esp32_ble_mesh.Base.{
  Bool, List, Option, [], codes, drop, eq_bytes, false, if◌then◌else◌, leb, length, none, not, some,
  strip_prefix, strlcpy, take, true, ℕ, ◌&&◌, ◌++◌, ◌+◌, ◌-◌, ◌==◌, ◌||◌, ◌∷◌,
}

-- A character that a message id may hold.
abbrev pub is_id_char : ℕ → Bool
is_id_char c =
    (leb b'a' c && leb c b'z')
    || ((leb b'A' c && leb c b'Z')
        || ((leb b'0' c && leb c b'9')
            || ((c == b'-') || ((c == b'_') || ((c == b'.') || (c == b':'))))))

-- The loop of `valid_message_id`.
unfoldable pub all_id_chars : List ℕ → Bool
all_id_chars [] = true
all_id_chars (c ∷ cs) = let rest = all_id_chars cs in if is_id_char c then rest else false

-- `valid_message_id`, for a string that is not NULL.
unfoldable pub valid_message_id : List ℕ → Bool
unfolding all_id_chars
valid_message_id [] = false
valid_message_id (c ∷ cs) = all_id_chars (c ∷ cs)

abbrev pub all_topic : List ℕ
all_topic = codes "office/light/all/cmd"

abbrev pub gateway_prefix : List ℕ
gateway_prefix = codes "farmely/gateway/"

abbrev pub normalized_prefix : List ℕ
normalized_prefix = codes "farmely/light/"

abbrev pub normalized_suffix : List ℕ
normalized_suffix = codes "/down/cmd"

abbrev pub legacy_prefix : List ℕ
legacy_prefix = codes "office/light/node/"

abbrev pub legacy_suffix : List ℕ
legacy_suffix = codes "/cmd"

abbrev pub wildcard : List ℕ
wildcard = codes "*"

-- The id between a prefix and a suffix. `rest` is the topic behind the prefix.
unfoldable pub id_between :
    (prefix suffix : List ℕ) → (size : ℕ) → (topic rest : List ℕ) → Option (List ℕ)
id_between prefix suffix size topic rest =
    let id_length : ℕ = length topic - length prefix - length suffix in
    if leb (length topic) (length prefix + length suffix)
    then none
    else if not (eq_bytes (drop (length topic - length suffix) topic) suffix)
    then none
    else if (id_length == 0) || leb size id_length
    then none
    else some (take id_length rest)

-- The two forms that name a node.
unfoldable pub node_topic : (size : ℕ) → (topic : List ℕ) → Option (List ℕ)
node_topic size topic = elim (strip_prefix normalized_prefix topic) [
  | some rest ↦ id_between normalized_prefix normalized_suffix size topic rest
  | none ↦ elim (strip_prefix legacy_prefix topic) [
    | some rest ↦ id_between legacy_prefix legacy_suffix size topic rest
    | none ↦ none
  ]
]

-- The command topic of the gateway itself, in its buffer of 96 bytes.
abbrev pub own_topic : List ℕ → List ℕ
own_topic gateway_id = take 95 (gateway_prefix ++ (gateway_id ++ normalized_suffix))

-- `topic_device_id`, with `size` bytes for the id.
unfoldable pub topic_device_id : (gateway_id topic : List ℕ) → (size : ℕ) → Option (List ℕ)
topic_device_id gateway_id topic size =
    if eq_bytes topic all_topic
    then some (strlcpy wildcard size)
    else if eq_bytes topic (own_topic gateway_id)
    then some (strlcpy wildcard size)
    else node_topic size topic
