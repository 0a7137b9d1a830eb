-- ===== src/RgbLight/Machine.antt =====
-- The events of rgb_light/main/app_mqtt.c.
use esp32_ble_mesh.Base.{
  Bool, List, [], c_string, codes, eq_bytes, if◌then◌else◌, length, ltb, not, true, ℕ, ◌&&◌, ◌==◌,
  ◌||◌, ◌∷◌,
}
use esp32_ble_mesh.RgbLight.Commands.{Scan, handle_command, handle_ota, publish_status, topic_for}
use esp32_ble_mesh.RgbLight.State.{
  Config, Light, M, confirmed_ota, emit, get, modify, pure, skip, started_timer, stopped_timer,
  subscribed, ◌>>=◌, ◌>>◌,
}

pub data Event : Type 0 where
  connected : Event
  received : (topic payload : List ℕ) → (ota_answer : ℕ) → Event
  disconnected : Event
  other_event : Event
  heartbeat : Event

-- What app_mqtt_start gets: the random number, whether the timer is made, and whether the client is
-- made and what its start returns.
pub record Answers : Type 0 where
  pub random : ℕ
  pub timer : ℕ
  pub client : Bool
  pub start : ℕ

module _ (config : Config) where
  -- The message of MQTT_EVENT_DATA, which must fit 511 bytes.
  unfoldable pub on_message : ℕ → Scan → (ℕ → List ℕ) → (topic payload : List ℕ) → ℕ → M (Unit {0})
  on_message now scan err_name topic payload answer =
      if length payload == 0 || ltb 511 (length payload)
      then skip
      else (if eq_bytes topic (topic_for (codes "farmely/light/") (codes "/down/ota") config)
          then handle_ota config now answer err_name (c_string payload)
          else handle_command config now scan (c_string payload))

  -- `mqtt_event_handler` and `heartbeat_cb`.
  unfoldable pub on_event : ℕ → Scan → (ℕ → List ℕ) → Event → M (Unit {0})
  on_event now scan err_name connected = do
    emit (subscribed (topic_for (codes "office/light/node/") (codes "/cmd") config))
    emit (subscribed (topic_for (codes "farmely/light/") (codes "/down/cmd") config))
    emit (subscribed (topic_for (codes "farmely/light/") (codes "/down/ota") config))
    publish_status config now
    emit confirmed_ota
    s ← get
    if s.has_timer then emit started_timer else skip
  on_event now scan err_name (received topic payload answer) =
      on_message now scan err_name topic payload answer
  on_event now scan err_name disconnected = do
    s ← get
    if s.has_timer then emit stopped_timer else skip
  on_event now scan err_name other_event = skip
  on_event now scan err_name heartbeat = do
    s ← get
    if s.has_client then publish_status config now else skip

  -- `app_mqtt_start`; `fail` is ESP_FAIL.
  unfoldable pub mqtt_start : ℕ → Answers → M ℕ
  mqtt_start fail ans = do
    modify (λ s. record s { boot_nonce = if s.boot_nonce == 0 then ans.random else s.boot_nonce })
    s ← get
    if not s.has_timer && not (ans.timer == 0) then pure ans.timer else do
      modify (λ s. record s { has_timer = true; has_client = ans.client })
      pure (if ans.client then ans.start else fail)

  -- `app_mqtt_publish_status`; `invalid_state` is ESP_ERR_INVALID_STATE.
  unfoldable pub mqtt_publish_status : (now invalid_state : ℕ) → M ℕ
  mqtt_publish_status now invalid_state = do
    s ← get
    if not s.has_client then pure invalid_state else do publish_status config now; pure 0

  unfoldable pub run : Scan → (ℕ → List ℕ) → List (ℕ × Event) → Light → Light
  run scan err_name [] s = s
  run scan err_name ((now, e) ∷ es) s = run scan err_name es (on_event now scan err_name e s).1
