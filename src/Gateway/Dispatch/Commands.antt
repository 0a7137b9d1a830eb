-- ===== src/Gateway/Dispatch/Commands.antt =====
-- What the handlers of esp_ble_mesh/provisioner/main/gateway_bridge.c hand on to the provisioner.
use esp32_ble_mesh.Base.{
  Bool, Bool-cases, List, Option, Option-cases, [], ap, arith, c_string, false, inl, inr, leb,
  length, none, refl, some, true, ℕ, ◌<◌, ◌==◌, ◌||◌, ◌∙◌, ◌∷◌, ◌≡◌, ◌⊎◌,
}
use esp32_ble_mesh.Gateway.Dispatch.{
  MqttEvent, connected, device_id_size, disconnected, dispatch_command, handed_on,
  mqtt_event_handler, other_event, payload_size, read_command, received, topic_size,
}
use esp32_ble_mesh.Gateway.Payload.{CJson, parse_command}
use esp32_ble_mesh.Gateway.State.{Bridge, Outs, called_command}
use esp32_ble_mesh.Gateway.Topic.{topic_device_id}

-- The commands that were handed on.
abbrev pub commands : Outs → List (List ℕ × Bool × List ℕ)
commands [] = []
commands (called_command device on id ∷ outs) = (device, on, id) ∷ commands outs
commands (_ ∷ outs) = commands outs

-- A command that was handed on: the handler is set, and the event is a message that fits the buffers
-- and names the device and the wanted state.
pub record HandedOn (json : CJson) (e : MqttEvent) (s t : Bridge) : Type 0 where
  pub topic : List ℕ
  pub payload : List ℕ
  pub device : List ℕ
  pub on : Bool
  pub id : List ℕ
  pub is_message : e ≡ received topic payload
  pub handler_set : s.has_command_handler ≡ true
  pub topic_fits : length topic < topic_size
  pub payload_fits : length payload < payload_size
  pub addressed : topic_device_id s.gateway_id (c_string topic) device_id_size ≡ some device
  pub parsed : parse_command json (c_string payload) ≡ (some on, id)
  pub handed : commands t.outs ≡ (device, on, id) ∷ commands s.outs

module _ (json : CJson) (topic payload : List ℕ) (s : Bridge) where
  abbrev after : Bridge
  after = (dispatch_command json topic payload s).1

  abbrev read : Option (List ℕ × Bool × List ℕ)
  read = read_command json s.gateway_id (c_string topic) (c_string payload)

  abbrev Parsed : List ℕ → Bool → List ℕ → Type 0
  Parsed device on id =
      (topic_device_id s.gateway_id (c_string topic) device_id_size ≡ some device)
      × (parse_command json (c_string payload) ≡ (some on, id))

  -- What a message is read as.
  read_cases :
      (read ≡ none)
      ⊎ ((device : List ℕ) × (on : Bool) × (id : List ℕ) × Parsed device on id
          × (read ≡ some (device, on, id)))
  unfolding read_command
  read_cases = elim (Option-cases (topic_device_id s.gateway_id (c_string topic) device_id_size)) [
    | inl f ↦ inl (rw (f, read_command) refl)
    | inr (device, f) ↦ elim (Option-cases (parse_command json (c_string payload)).0) [
      | inl g ↦ inl (rw (f, read_command, g) refl)
      | inr (on, g) ↦
          let id : List ℕ = (parse_command json (c_string payload)).1 in
          inr (device, on, id, (f, λ i. (g i, id)), rw (f, read_command, g) refl)
    ]
  ]

  -- A message within the bounds.
  within :
      length topic < topic_size
      → length payload < payload_size
      → after ≡ (handed_on json s.has_command_handler read s).1
      → (commands after.outs ≡ commands s.outs) ⊎ HandedOn json (received topic payload) s after
  within short_topic short_payload e =
      let same = ap (λ t. commands t.outs) e in
      elim read_cases [
        | inl f ↦
            inl (same ∙ ap (λ r. commands (handed_on json s.has_command_handler r s).1.outs) f)
        | inr (device, on, id, p, f) ↦
            let read_same =
              same ∙ ap (λ r. commands (handed_on json s.has_command_handler r s).1.outs) f in
            elim (Bool-cases s.has_command_handler) [
              | inl h ↦ inr (record {
                topic = topic;
                payload = payload;
                device = device;
                on = on;
                id = id;
                is_message = refl;
                handler_set = h;
                topic_fits = short_topic;
                payload_fits = short_payload;
                addressed = p.0;
                parsed = p.1;
                handed =
                    read_same
                    ∙ ap (λ b. commands (handed_on json b (some (device, on, id)) s).1.outs) h;
              })
              | inr h ↦ inl (
                  read_same
                  ∙ ap (λ b. commands (handed_on json b (some (device, on, id)) s).1.outs) h)
            ]
      ]

  -- The test of the lengths.
  abbrev refused : Bool
  refused =
      (length topic == 0)
      || (leb topic_size (length topic)
          || ((length payload == 0) || leb payload_size (length payload)))

  after-refused : refused ≡ true → after ≡ s
  unfolding dispatch_command
  after-refused e = ground arith

  after-read : refused ≡ false → after ≡ (handed_on json s.has_command_handler read s).1
  unfolding dispatch_command
  after-read e = ground arith

  dispatch-commands :
      (commands after.outs ≡ commands s.outs) ⊎ HandedOn json (received topic payload) s after
  dispatch-commands = elim (Bool-cases refused) [
    | inl e ↦ inl (ap (λ t. commands t.outs) (after-refused e))
    | inr e ↦ within (ground arith) (ground arith) (after-read e)
  ]

-- What an MQTT event hands on is at most one command, of a message that names a device by an id that
-- fits and a state; nothing else is handed on.
pub mqtt_event_handler-commands :
    (json : CJson) (e : MqttEvent) (s : Bridge)
    → let t = (mqtt_event_handler json e s).1 in
      (commands t.outs ≡ commands s.outs) ⊎ HandedOn json e s t
unfolding mqtt_event_handler
mqtt_event_handler-commands json connected s = ground arith
mqtt_event_handler-commands json (received topic payload) s = dispatch-commands json topic payload s
mqtt_event_handler-commands json disconnected s = inl refl
mqtt_event_handler-commands json other_event s = inl refl
