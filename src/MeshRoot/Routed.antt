-- ===== src/MeshRoot/Routed.antt =====
-- Where `mqtt_dispatch` of internal_communication/main/mesh_main.c sends a command.
use esp32_ble_mesh.Base.{
  Bool, List, [], ap, arith, c_string, contains, false, if◌then◌else◌, length, ltb, none, not, refl,
  true, ℕ, ◌++◌, ◌<◌, ◌||◌, ◌∙◌, ◌∷◌, ◌≡◌,
}
use esp32_ble_mesh.MeshRoot.Effects.{Switched}
use esp32_ble_mesh.MeshRoot.Obeyed.{command_group-Switched}
use esp32_ble_mesh.MeshRoot.Routing.{
  command_group, dispatch_command, handle_mqtt_ota_command, is_empty, mqtt_dispatch, wanted,
}
use esp32_ble_mesh.MeshRoot.State.{Config, M, Root, skip}
use esp32_ble_mesh.MeshRoot.TopicText.{gateway-is_group_topic, gateway_topic, no_ota, no_update}
use esp32_ble_mesh.MeshRoot.Topics.{
  between, is_group_topic, new_gateway_prefix, new_light_prefix, new_ota_suffix,
}

module _ (config : Config) (payload : List ℕ) (s : Root) where
  unless-same : (b : Bool) (m : M (Unit {0})) → (m s).1 ≡ s → ((if b then skip else m) s).1 ≡ s
  unless-same true m same = refl
  unless-same false m same = same

  ota_quiet :
      (topic : List ℕ)
      → between new_gateway_prefix new_ota_suffix topic ≡ none
      → between new_light_prefix new_ota_suffix topic ≡ none
      → (handle_mqtt_ota_command config topic payload s).1 ≡ s
  unfolding handle_mqtt_ota_command
  ota_quiet topic gateway light = unless-same (not s.is_root) _ (rw (gateway, light) refl)

given :
    (topic payload : List ℕ) (b : Bool)
    → b ≡ true
    → 0 < length topic
    → 0 < length payload
    → (is_empty topic || (is_empty payload || not b)) ≡ false
given [] payload b root some_topic some_payload = absurd (omega arith)
given (c ∷ t) [] b root some_topic some_payload = absurd (omega arith)
given (c ∷ t) (d ∷ p) b root some_topic some_payload = ap not root

module _ (config : Config) (now now_us : ℕ) (table : List (List ℕ)) (behind payload stale : List ℕ)
    (s : Root) where
  dispatched :
      (topic : List ℕ)
      → s.is_root ≡ true
      → 0 < length topic
      → 0 < length payload
      → length payload < 512
      → no_update topic behind ≡ true
      → (handle_mqtt_ota_command config topic payload s).1 ≡ s
      → (mqtt_dispatch config now now_us table topic behind payload stale s).1
        ≡ (dispatch_command config now now_us table topic payload stale s).1
  unfolding mqtt_dispatch
  dispatched topic root some_topic some_payload small quiet unchanged =
      let fits : ltb 511 (length payload) ≡ false = ground arith in
      let no_ota_text : contains new_ota_suffix (c_string (topic ++ behind)) ≡ false =
        ground arith in
      rw (given topic payload s.is_root root some_topic some_payload, fits, unchanged, no_ota_text)
        refl

  to_group :
      (topic : List ℕ)
      → is_group_topic topic ≡ true
      → (dispatch_command config now now_us table topic payload stale s).1
        ≡ (command_group config now now_us table (wanted payload) s).1
  unfolding dispatch_command
  to_group topic group = rw group refl

  -- A command for a gateway switches the lights of every root that receives it, whichever gateway the
  -- topic names: its own light, and by one message each the nodes of its routing table; nothing but
  -- reports follows. A payload that says neither on nor off changes nothing. No topic of updates is
  -- named behind the topic in memory.
  pub any_gateway_commands :
      (c : ℕ) (id : List ℕ)
      → s.is_root ≡ true
      → 0 < length payload
      → length payload < 512
      → no_update (gateway_topic (c ∷ id)) behind ≡ true
      → Switched table
          (wanted payload)
          s
          (mqtt_dispatch config now now_us table (gateway_topic (c ∷ id)) behind payload stale s).1
  any_gateway_commands c id root some_payload small quiet =
      let name = c ∷ id in
      rw
        (dispatched (gateway_topic name) root (omega arith) some_payload small quiet (
            ota_quiet config payload s (gateway_topic name) (no_ota _ new_gateway_prefix name)
              (no_ota _ new_gateway_prefix name))
          ∙ to_group (gateway_topic name) (gateway-is_group_topic name (omega arith)))
        (command_group-Switched config now now_us table (wanted payload) s root)
