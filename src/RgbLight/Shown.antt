-- ===== src/RgbLight/Shown.antt =====
-- The LEDs of rgb_light/main/app_light.c over the events of app_mqtt.c.
use esp32_ble_mesh.Base.{
  List, [], c_string, codes, eq_bytes, false, if◌then◌else◌, length, ltb, not, refl, suc, true,
  zero, ℕ, ◌<◌, ◌==◌, ◌||◌, ◌∷◌, ◌≡◌,
}
use esp32_ble_mesh.RgbLight.Commands.{
  Scan, handle_command, handle_ota, json_string, message_id, publish_status, topic_for,
}
use esp32_ble_mesh.RgbLight.Light.{blink_loop, boot_blink, light_init, set_on, shade}
use esp32_ble_mesh.RgbLight.Machine.{
  Event, connected, disconnected, heartbeat, on_event, on_message, other_event, received, run,
}
use esp32_ble_mesh.RgbLight.State.{Config, Light, emit, skip, started_timer, stopped_timer}
use esp32_ble_mesh.RgbLight.Strip.{
  Shows, branch-Shows, command-Shows, refresh-Shows, set_on-Shows, start_ota-Shows, status-Shows,
}

module _ (config : Config) (scan : Scan) (err_name : ℕ → List ℕ) where
  message-Shows :
      (now : ℕ) (topic payload : List ℕ) (answer : ℕ) (s : Light)
      → Shows config s
      → Shows config (on_message config now scan err_name topic payload answer s).1
  unfolding on_message handle_ota
  message-Shows now topic payload answer s h =
      branch-Shows config (length payload == 0 || ltb 511 (length payload)) skip
        (if eq_bytes topic (topic_for (codes "farmely/light/") (codes "/down/ota") config)
          then handle_ota config now answer err_name (c_string payload)
          else handle_command config now scan (c_string payload))
        s (λ e. h)
        (λ e.
          branch-Shows config
            (eq_bytes topic (topic_for (codes "farmely/light/") (codes "/down/ota") config))
            (handle_ota config now answer err_name (c_string payload))
            (handle_command config now scan (c_string payload)) s
            (λ f.
              start_ota-Shows config now answer err_name (c_string payload)
                (json_string (c_string payload) (codes "url") 256) s h)
            (λ f. command-Shows config now scan (c_string payload) s h))

  event-Shows :
      (now : ℕ) (e : Event) (s : Light)
      → Shows config s
      → Shows config (on_event config now scan err_name e s).1
  unfolding on_event publish_status message_id
  event-Shows now connected s h =
      branch-Shows config s.has_timer (emit started_timer) skip _ (λ e. h) (λ e. h)
  event-Shows now (received topic payload answer) s h = message-Shows now topic payload answer s h
  event-Shows now disconnected s h =
      branch-Shows config s.has_timer (emit stopped_timer) skip s (λ e. h) (λ e. h)
  event-Shows now other_event s h = h
  event-Shows now heartbeat s h =
      branch-Shows config s.has_client (publish_status config now) skip s
        (λ e. status-Shows config now s h) (λ e. h)

  run-Shows :
      (es : List (ℕ × Event)) (s : Light)
      → Shows config s
      → Shows config (run config scan err_name es s)
  unfolding run
  run-Shows [] s h = h
  run-Shows ((now, e) ∷ es) s h =
      run-Shows es (on_event config now scan err_name e s).1 (event-Shows now e s h)

  loop-Shows : (times : ℕ) (s : Light) → Shows config s → Shows config (blink_loop config times s).1
  unfolding blink_loop
  loop-Shows zero s h = h
  loop-Shows (suc n) s h =
      let lit = set_on-Shows config true s h.0 in
      let dark = set_on-Shows config false (set_on config true s).1 lit.0 in
      loop-Shows n (set_on config false (set_on config true s).1).1 dark

  blink-Shows :
      (times : ℕ) (s : Light) → Shows config s → Shows config (boot_blink config times s).1
  unfolding boot_blink
  blink-Shows times s h =
      branch-Shows config (times == 0 || not s.has_strip) skip (blink_loop config times) s (λ e. h)
        (λ e. loop-Shows times s h)

  init-Shows : (s : Light) → Shows config (light_init config 0 s).1
  unfolding light_init
  init-Shows s = refresh-Shows config (record s { has_strip = true }) refl

  -- Once the strip is set up, each of its LEDs shows the colour while the light is on, and black while
  -- it is off, after the blinking at the start and after any messages and timer events.
  pub leds_show_light :
      (times : ℕ) (es : List (ℕ × Event)) (s : Light) (i : ℕ)
      → i < config.led_count
      → let start = (boot_blink config times (light_init config 0 s).1).1 in
        let t = run config scan err_name es start in t.leds i ≡ shade t.on t.color
  leds_show_light times es s i inside =
      let ready = (light_init config 0 s).1 in
      let start = (boot_blink config times ready).1 in
      (run-Shows es start (blink-Shows times ready (init-Shows s))).1 i inside
