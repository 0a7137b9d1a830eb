-- ===== src/Gateway/Topic/Bounds.antt =====
-- The lengths of the ids that `topic_device_id` of esp_ble_mesh/provisioner/main/gateway_bridge.c
-- reads.
use esp32_ble_mesh.Base.{
  Bool-cases, List, Option-cases, ap, append_of_strip_prefix, arith, eq_bytes, inl, inr, length,
  length-append, length-take, or_empty, some, strip_prefix, strlcpy, ℕ, ◌+◌, ◌-◌, ◌<◌, ◌∙◌, ◌≡◌,
}
use esp32_ble_mesh.Gateway.Topic.{
  all_topic, id_between, legacy_prefix, legacy_suffix, node_topic, normalized_prefix,
  normalized_suffix, own_topic, topic_device_id, wildcard,
}

id_between-fits :
    (prefix suffix : List ℕ) (size : ℕ) (topic rest : List ℕ) {id : List ℕ}
    → length topic ≡ length prefix + length rest
    → id_between prefix suffix size topic rest ≡ some id
    → (0 < length id) × (length id < size)
unfolding id_between
id_between-fits prefix suffix size topic rest {id} total h =
    let n : ℕ = length topic - length prefix - length suffix in
    let measured = length-take n rest in ground (arith, total, measured)

strip_prefix-length :
    (p s : List ℕ) {r : List ℕ} → strip_prefix p s ≡ some r → length s ≡ length p + length r
strip_prefix-length p s {r} h =
    ap (λ l. length l) (append_of_strip_prefix p s h) ∙ length-append p r

node_topic-fits :
    (size : ℕ) (topic : List ℕ) {id : List ℕ}
    → node_topic size topic ≡ some id
    → (0 < length id) × (length id < size)
unfolding node_topic
node_topic-fits size topic {id} h = elim (Option-cases (strip_prefix normalized_prefix topic)) [
  | inr (rest, e) ↦
      id_between-fits normalized_prefix normalized_suffix size topic rest
        (strip_prefix-length normalized_prefix topic e) (rw e at h)
  | inl e ↦ elim (Option-cases (strip_prefix legacy_prefix topic)) [
    | inr (rest, f) ↦
        id_between-fits legacy_prefix legacy_suffix size topic rest
          (strip_prefix-length legacy_prefix topic f) (rw (e, f) at h)
    | inl f ↦ absurd (cc (rw (e, f) at h))
  ]
]

wildcard-fits :
    (size : ℕ) (id : List ℕ)
    → 1 < size
    → some (strlcpy wildcard size) ≡ some id
    → (0 < length id) × (length id < size)
wildcard-fits size id room h =
    let same : strlcpy wildcard size ≡ id = ap (λ o. or_empty o) h in
    let measured = length-take (size - 1) wildcard in
    let length_same : length (strlcpy wildcard size) ≡ length id = ap (λ l. length l) same in
    (omega (arith, measured, length_same), omega (arith, measured, length_same))

-- An id that is read from a topic is not empty and fits a buffer of two bytes or more, terminating
-- zero included.
pub topic_device_id-fits :
    (gateway_id topic : List ℕ) (size : ℕ) (id : List ℕ)
    → 1 < size
    → topic_device_id gateway_id topic size ≡ some id
    → (0 < length id) × (length id < size)
unfolding topic_device_id
topic_device_id-fits gateway_id topic size id room h =
    elim (Bool-cases (eq_bytes topic all_topic)) [
      | inl e ↦ wildcard-fits size id room (rw e at h)
      | inr e ↦ elim (Bool-cases (eq_bytes topic (own_topic gateway_id))) [
        | inl f ↦ wildcard-fits size id room (rw (e, f) at h)
        | inr f ↦ node_topic-fits size topic (rw (e, f) at h)
      ]
    ]
