-- ===== src/Gateway/Wifi.antt =====
-- The Wi-Fi side of esp_ble_mesh/provisioner/main/gateway_bridge.c: the MQTT client's start, the
-- event handler, the provisioning task and the bridge's start.
pub mod Radio
pub mod Override
use esp32_ble_mesh.Base.{
  Bool, List, Option, codes, false, if◌then◌else◌, not, some, strlcpy, true, ℕ, ◌%◌, ◌&&◌, ◌==◌,
  ◌^◌, ◌||◌,
}
use esp32_ble_mesh.Gateway.Publish.{is_empty, topic_of}
use esp32_ble_mesh.Gateway.State.{
  Env, M, checked, configured_dhcp, created_button_task, created_endpoint, created_event_loop,
  created_netifs, created_wifi_task, emit, get, modify, mqtt_client_started, mqtt_initialised,
  mqtt_registered, netif_init, perform, pinned_channel, portal_start, portal_stop,
  prov_manager_deinit, prov_manager_init, prov_manager_wait, pure, read_ap_config,
  registered_endpoint, registered_ip_events, registered_prov_events, registered_wifi_events,
  set_httpd_handle, skip, start_provisioning, wifi_connect, wifi_init, wifi_set_config,
  wifi_set_mode, wifi_start, yielded_radio, ◌>>=◌, ◌>>◌,
}

-- FARMELY_PROV_AP_CHANNEL.
abbrev pub prov_ap_channel : ℕ
prov_ap_channel = 1

pub data WifiEvent : Type 0 where
  ap_start sta_start sta_disconnected sta_got_ip other_event : WifiEvent

module _ (env : Env) where
  -- `mqtt_start`.
  unfoldable pub mqtt_start : M (Unit {0})
  mqtt_start = do
    s ← get
    if s.mqtt_started || is_empty env.mqtt_uri then skip else do
      modify (λ s. record s {
        gateway_topic = topic_of (codes "farmely/gateway/") s.gateway_id (codes "/up/status");
      })
      client ← perform env mqtt_initialised
      if not client then skip else do
        emit mqtt_registered
        running ← perform env mqtt_client_started
        if running then modify (λ s. record s { mqtt_started = true }) else skip

  -- The case AP_START: the channel is pinned if it is another one.
  unfoldable pub on_ap_start : M (Unit {0})
  on_ap_start = do
    emit configured_dhcp
    s ← get
    readable ← perform env read_ap_config
    if readable && not (env.ap_channel s.outs == prov_ap_channel)
        then emit (pinned_channel prov_ap_channel)
        else skip

  abbrev connect_if : Bool → M (Unit {0})
  connect_if autoconnect = if autoconnect then emit wifi_connect else skip

  -- `wifi_event_handler`.
  unfoldable pub wifi_event_handler : WifiEvent → M (Unit {0})
  unfolding mqtt_start on_ap_start
  wifi_event_handler ap_start = on_ap_start
  wifi_event_handler sta_start = do s ← get; connect_if s.wifi_autoconnect
  wifi_event_handler sta_disconnected = do
    modify (λ s. record s { mqtt_connected = false })
    s ← get
    connect_if s.wifi_autoconnect
  wifi_event_handler sta_got_ip = do modify (λ s. record s { wifi_autoconnect = true }); mqtt_start
  wifi_event_handler other_event = skip

  -- The provisioning window of `gateway_wifi_task`. `network_prov_mgr_wait` returns when it is over.
  unfoldable pub provisioning_window : M (Option (Unit {0}))
  provisioning_window = do
    portal ← perform env portal_start
    if portal then emit set_httpd_handle else skip
    emit (yielded_radio true)
    checked env created_endpoint (
        checked env start_provisioning (
          checked env registered_endpoint (do
            emit prov_manager_wait
            emit (yielded_radio false)
            emit portal_stop
            emit prov_manager_deinit
            pure (some tt))))

  -- `gateway_wifi_task`; `none` is an abort by ESP_ERROR_CHECK.
  unfoldable pub gateway_wifi_task : (provisioned : Bool) → M (Option (Unit {0}))
  unfolding provisioning_window
  gateway_wifi_task provisioned = do
    initialised ← perform env prov_manager_init
    if not initialised then pure (some tt) else if not provisioned then provisioning_window else do
      emit prov_manager_deinit
      modify (λ s. record s { wifi_autoconnect = true })
      checked env wifi_set_mode (checked env wifi_start (pure (some tt)))

  -- The end of `farmely_gateway_bridge_start`: the build's network, or the provisioning at run time.
  unfoldable pub start_wifi : M (Option Bool)
  start_wifi =
      if not (is_empty env.wifi_ssid)
      then checked env wifi_set_mode
          (checked env wifi_set_config (do started ← perform env wifi_start; pure (some started)))
      else do emit created_button_task; created ← perform env created_wifi_task; pure (some created)

  -- The set-up of the libraries in `farmely_gateway_bridge_start`, and what follows it.
  unfoldable pub set_up : M (Option Bool)
  unfolding start_wifi
  set_up = checked env netif_init (do
    loop ← perform env created_event_loop
    if not loop then pure (some false) else do
      emit created_netifs
      checked env wifi_init (
          checked env registered_wifi_events
            (checked env registered_ip_events (checked env registered_prov_events start_wifi))))

  -- `farmely_gateway_bridge_start`. `nonce` is the answer of `esp_random`; the result is the returned
  -- code's being ESP_OK, or none for an abort.
  unfoldable pub bridge_start :
      (gateway_id : List ℕ) → (command_handler sync_handler : Bool) → (nonce : ℕ) → M (Option Bool)
  unfolding set_up
  bridge_start gateway_id command_handler sync_handler nonce =
      if is_empty gateway_id || not command_handler then pure (some false) else do
        modify (λ s. record s {
          gateway_id = strlcpy gateway_id 32;
          has_command_handler = command_handler;
          has_sync_handler = sync_handler;
          boot_nonce = nonce % 2 ^ 32;
        })
        set_up
