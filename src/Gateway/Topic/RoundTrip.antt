-- ===== src/Gateway/Topic/RoundTrip.antt =====
-- Command topics of esp_ble_mesh/provisioner/main/gateway_bridge.c and the ids that are read from
-- them.
use esp32_ble_mesh.Base.{
  List, ap, append_assoc, arith, drop, drop-append, eq_bytes_refl, length, length-append, some, sym,
  take-append, ℕ, ◌++◌, ◌+◌, ◌-◌, ◌<◌, ◌∙◌, ◌≡◌,
}
use esp32_ble_mesh.Gateway.Topic.{
  id_between, legacy_prefix, legacy_suffix, node_topic, normalized_prefix, normalized_suffix,
  topic_device_id,
}

-- The id comes back from between any prefix and suffix.
id_between-append :
    (prefix id suffix : List ℕ) (size : ℕ)
    → 0 < length id
    → length id < size
    → id_between prefix suffix size (prefix ++ (id ++ suffix)) (id ++ suffix) ≡ some id
unfolding id_between
id_between-append prefix id suffix size some_id fits =
    let total : length (prefix ++ (id ++ suffix)) ≡ length prefix + (length id + length suffix) =
      length-append prefix (id ++ suffix) ∙ ap (λ n. length prefix + n) (length-append id suffix) in
    let front : length (prefix ++ (id ++ suffix)) - length suffix ≡ length (prefix ++ id) =
      omega (arith, total, length-append prefix id) in
    let middle : length (prefix ++ (id ++ suffix)) - length prefix - length suffix ≡ length id =
      omega (arith, total) in
    let end : drop (length (prefix ++ id)) (prefix ++ (id ++ suffix)) ≡ suffix =
      ap (drop (length (prefix ++ id))) (sym (append_assoc prefix id suffix))
      ∙ drop-append (prefix ++ id) suffix in
    rw (front, middle, end, eq_bytes_refl suffix, take-append id suffix) (ground (arith, total))

-- The two topics that name a node give its id, whatever the id and the gateway are.
normalized_id :
    (gateway_id id : List ℕ) (size : ℕ)
    → 0 < length id
    → length id < size
    → topic_device_id gateway_id (normalized_prefix ++ (id ++ normalized_suffix)) size ≡ some id
unfolding topic_device_id node_topic
normalized_id gateway_id id size some_id fits =
    id_between-append normalized_prefix id normalized_suffix size some_id fits

legacy_id :
    (gateway_id id : List ℕ) (size : ℕ)
    → 0 < length id
    → length id < size
    → topic_device_id gateway_id (legacy_prefix ++ (id ++ legacy_suffix)) size ≡ some id
unfolding topic_device_id node_topic
legacy_id gateway_id id size some_id fits =
    id_between-append legacy_prefix id legacy_suffix size some_id fits

-- A topic that names a node by an id that fits gives that id, in the normalized form
-- `farmely/light/<id>/down/cmd` and in the legacy form `office/light/node/<id>/cmd`.
pub topic_device_id-topic :
    (gateway_id id : List ℕ) (size : ℕ)
    → 0 < length id
    → length id < size
    → (topic_device_id gateway_id (normalized_prefix ++ (id ++ normalized_suffix)) size ≡ some id)
      × (topic_device_id gateway_id (legacy_prefix ++ (id ++ legacy_suffix)) size ≡ some id)
topic_device_id-topic gateway_id id size some_id fits =
    (normalized_id gateway_id id size some_id fits, legacy_id gateway_id id size some_id fits)
