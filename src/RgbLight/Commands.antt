-- ===== src/RgbLight/Commands.antt =====
-- The messages of rgb_light/main/app_mqtt.c.
use Prim.Native.Nat.{max}
use esp32_ble_mesh.Base.{
  Bool, List, Option, [], codes, contains, drop, eq_bytes, false, if◌then◌else◌, length, ltb, none,
  not, or_empty, quote, some, split_at, strip_prefix, strstr, take, true, ℕ, ◌%◌, ◌++◌, ◌+◌, ◌==◌,
  ◌^◌, ◌∷◌,
}
use esp32_ble_mesh.RgbLight.Light.{get_color, set_color, set_on}
use esp32_ble_mesh.RgbLight.State.{
  Config, M, MessageId, Rgb, emit, get, legacy_status, modify, ota_status, published, pure, skip,
  started_ota, status, ◌>>=◌, ◌>>◌,
}

-- `snprintf` of a topic into its 96 bytes.
abbrev pub topic_for : (prefix suffix : List ℕ) → Config → List ℕ
topic_for prefix suffix config = take 95 (prefix ++ (config.device_id ++ suffix))

-- `unix_ts_s`: 0 until the clock is set.
unfoldable pub unix_ts_s : ℕ → ℕ
unix_ts_s now = if ltb 1730000000 now then now else 0

-- `json_string`; an empty value is a value, and one that does not fit is refused.
abbrev pub skip_blanks : List ℕ → List ℕ
skip_blanks [] = []
skip_blanks (c ∷ s) = let rest = skip_blanks s in if c == b' ' then rest else c ∷ s

abbrev pub fitting : ℕ → Option (List ℕ × List ℕ) → Option (List ℕ)
fitting max none = none
fitting max (some (value, after)) = if ltb (length value) max then some value else none

abbrev pub quoted : ℕ → List ℕ → Option (List ℕ)
quoted max [] = none
quoted max (c ∷ s) = if c == quote then fitting max (split_at quote s) else none

abbrev pub behind_colon : ℕ → Option (List ℕ × List ℕ) → Option (List ℕ)
behind_colon max none = none
behind_colon max (some (before, after)) = quoted max (skip_blanks after)

abbrev pub behind_key : ℕ → ℕ → Option (List ℕ) → Option (List ℕ)
behind_key key_length max none = none
behind_key key_length max (some found) = behind_colon max (split_at b':' (drop key_length found))

abbrev pub quote_key : List ℕ → List ℕ
quote_key key = quote ∷ (key ++ (quote ∷ []))

unfoldable pub json_string : (json key : List ℕ) → ℕ → Option (List ℕ)
json_string json key max = behind_key (length (quote_key key)) max (strstr (quote_key key) json)

-- The C library's `sscanf(text, "%2x%2x%2x", …)`: the three values, if there are three.
abbrev pub Scan : Type 0
Scan = List ℕ → Option (ℕ × ℕ × ℕ)

abbrev pub bytes_of : Option (ℕ × ℕ × ℕ) → Option Rgb
bytes_of none = none
bytes_of (some (rv, gv, bv)) = some (record { r = rv % 256; g = gv % 256; b = bv % 256 })

abbrev behind_hash : List ℕ → List ℕ
behind_hash [] = []
behind_hash (c ∷ s) = if c == b'#' then s else c ∷ s

-- `parse_hex_color`.
unfoldable pub parse_hex_color : Scan → List ℕ → Option Rgb
parse_hex_color scan text = bytes_of (scan (behind_hash text))

-- Whether the payload is a JSON text that says on or off.
unfoldable pub json_on : List ℕ → Option Bool
json_on payload =
    if contains (codes "\"on\":true") payload
    then some true
    else if contains (codes "\"on\":false") payload
    then some false
    else none

abbrev pub json_color : Scan → Option (List ℕ) → Option Rgb
json_color scan none = none
json_color scan (some text) = parse_hex_color scan text

abbrev pub starts_with_brace : List ℕ → Bool
starts_with_brace [] = false
starts_with_brace (c ∷ s) = c == b'{'

module _ (config : Config) where
  abbrev pub switch : Option Bool → M Bool
  switch none = pure false
  switch (some on) = do set_on config on; pure true

  abbrev pub paint : Option Rgb → Bool → M Bool
  paint none changed = pure changed
  paint (some c) changed = do set_color config c; pure true

  abbrev pub paint_on : Option Rgb → M Bool
  paint_on none = pure false
  paint_on (some c) = do set_color config c; set_on config true; pure true

  abbrev pub color_command : Scan → Option (List ℕ) → M Bool
  color_command scan none = pure false
  color_command scan (some text) = paint_on (parse_hex_color scan text)

  -- A JSON text.
  abbrev pub obey_json : Scan → List ℕ → M Bool
  obey_json scan payload = do
    changed ← switch (json_on payload)
    if config.enable_color
        then paint (json_color scan (json_string payload (codes "color") 16)) changed
        else pure changed

  -- What is neither "on" nor "off".
  abbrev pub obey_other : Scan → List ℕ → M Bool
  obey_other scan payload =
      if starts_with_brace payload
      then obey_json scan payload
      else (if config.enable_color
          then color_command scan (strip_prefix (codes "color:") payload)
          else pure false)

  -- The tests of `handle_command`; whether one of them has changed the light.
  unfoldable pub obey : Scan → List ℕ → M Bool
  obey scan payload =
      if eq_bytes payload (codes "on")
      then switch (some true)
      else (if eq_bytes payload (codes "off") then switch (some false) else obey_other scan payload)

module _ (config : Config) (now : ℕ) where
  -- `message_id`: the sequence number is a 32-bit counter.
  unfoldable pub message_id : M MessageId
  message_id = do
    modify (λ s. record s { sequence = (s.sequence + 1) % 2 ^ 32 })
    s ← get
    pure (record { device_id = config.device_id; boot_nonce = s.boot_nonce; sequence = s.sequence })

  -- `publish_status`; `now` is the answer of `time`.
  unfoldable pub publish_status : M (Unit {0})
  publish_status = do
    id ← message_id
    s ← get
    emit (
        published (topic_for (codes "office/light/node/") (codes "/status") config)
          (legacy_status s.on (get_color s)))
    emit (
        published (topic_for (codes "farmely/light/") (codes "/up/status") config)
          (status id (unix_ts_s now) s.on (get_color s)))

  -- `publish_ota_status`, for a status that is not NULL.
  unfoldable pub publish_ota_status :
      (text : List ℕ) → (fw_version ota_msg_id detail : Option (List ℕ)) → M (Unit {0})
  publish_ota_status text fw_version ota_msg_id detail = do
    s ← get
    if not s.has_client then skip else do
      id ← message_id
      emit (
          published (topic_for (codes "farmely/light/") (codes "/up/ota") config) (
            ota_status id (unix_ts_s now) text
              (elim fw_version [ some fw ↦ fw | none ↦ config.version ]) (or_empty ota_msg_id)
              (or_empty detail)))

  -- `handle_command`.
  unfoldable pub handle_command : Scan → List ℕ → M (Unit {0})
  handle_command scan payload = do
    changed ← obey config scan payload
    if changed then publish_status else skip

  -- `handle_ota`, given what app_ota_start returns and the names of the errors.
  abbrev pub start_ota : ℕ → (ℕ → List ℕ) → List ℕ → Option (List ℕ) → M (Unit {0})
  start_ota answer err_name payload none = skip
  start_ota answer err_name payload (some url) = do
    let sha256 = or_empty (json_string payload (codes "sha256") 65)
    let fw_version = or_empty (json_string payload (codes "fw_version") 64)
    let ota_msg_id = or_empty (json_string payload (codes "msg_id") 128)
    emit (started_ota url sha256 fw_version ota_msg_id)
    if answer == 0
        then skip
        else publish_ota_status (codes "failed") (some fw_version) (some ota_msg_id)
            (some (err_name answer))

  unfoldable pub handle_ota : ℕ → (ℕ → List ℕ) → List ℕ → M (Unit {0})
  handle_ota answer err_name payload =
      start_ota answer err_name payload (json_string payload (codes "url") 256)
