-- ===== src/MeshRoot/Topics.antt =====
-- The MQTT topics of internal_communication/main/mesh_main.c.
use esp32_ble_mesh.Base.{
  Bool, List, Option, c_string, codes, drop, eq_bytes, false, if◌then◌else◌, length, ltb, none,
  some, strip_prefix, take, true, ℕ, ◌+◌, ◌-◌, ◌||◌,
}

abbrev pub all_topic : List ℕ
all_topic = codes "office/light/all/cmd"

abbrev pub demo_topic : List ℕ
demo_topic = codes "office/light/demo/cmd"

abbrev pub publish_topic : List ℕ
publish_topic = codes "office/light/demo/status"

abbrev pub node_prefix : List ℕ
node_prefix = codes "office/light/node/"

abbrev pub node_suffix : List ℕ
node_suffix = codes "/cmd"

abbrev pub new_gateway_prefix : List ℕ
new_gateway_prefix = codes "farmely/gateway/"

abbrev pub new_light_prefix : List ℕ
new_light_prefix = codes "farmely/light/"

abbrev pub new_cmd_suffix : List ℕ
new_cmd_suffix = codes "/down/cmd"

abbrev pub new_ota_suffix : List ℕ
new_ota_suffix = codes "/down/ota"

-- The text behind a prefix without the suffix.
abbrev pub cut : (prefix suffix topic : List ℕ) → Option (List ℕ) → Option (List ℕ)
cut prefix suffix topic none = none
cut prefix suffix topic (some rest) =
    if eq_bytes (drop (length topic - length suffix) topic) suffix
    then some (take (length topic - length prefix - length suffix) rest)
    else none

-- What stands between a prefix and a suffix of a longer topic.
unfoldable pub between : (prefix suffix topic : List ℕ) → Option (List ℕ)
between prefix suffix topic =
    if ltb (length prefix + length suffix) (length topic)
    then cut prefix suffix topic (strip_prefix prefix topic)
    else none

-- An id that fits the 24 bytes of `target_id`, as the C string that it is there.
abbrev pub id_that_fits : Option (List ℕ) → Option (List ℕ)
id_that_fits none = none
id_that_fits (some id) = if ltb (length id) 24 then some (c_string id) else none

abbrev pub is_some : Option (List ℕ) → Bool
is_some none = false
is_some (some t) = true

abbrev pub or_else : Option (List ℕ) → Option (List ℕ) → Option (List ℕ)
or_else none other = other
or_else (some t) other = some t

-- `is_all || is_demo || is_gateway_cmd`.
unfoldable pub is_group_topic : List ℕ → Bool
is_group_topic topic =
    eq_bytes topic all_topic
    || (eq_bytes topic demo_topic || is_some (between new_gateway_prefix new_cmd_suffix topic))

-- `target_id`, from the legacy form or else from the new one.
unfoldable pub target_of : List ℕ → Option (List ℕ)
target_of topic =
    or_else (id_that_fits (between node_prefix node_suffix topic))
      (id_that_fits (between new_light_prefix new_cmd_suffix topic))
