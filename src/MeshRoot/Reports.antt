-- ===== src/MeshRoot/Reports.antt =====
-- What the root of internal_communication/main/mesh_main.c records and publishes. `now` is the answer
-- of `time`, `now_us` that of `esp_timer_get_time`.
use Prim.Native.Nat.{min}
use esp32_ble_mesh.Base.{
  Bool, List, Option, [], c_string, codes, false, if◌then◌else◌, ltb, none, not, some, strlcpy, suc,
  take, true, zero, ℕ, ◌%◌, ◌&&◌, ◌++◌, ◌+◌, ◌-◌, ◌==◌, ◌^◌, ◌∷◌,
}
use esp32_ble_mesh.MeshRoot.Registry.{node_find_or_add, node_id}
use esp32_ble_mesh.MeshRoot.State.{
  Config, M, MessageId, NodeEntry, NodeReport, Root, StatusPacket, emit, gateway_legacy,
  gateway_status, get, modify, node_legacy, node_status, published, pure, skip, write, ◌>>=◌, ◌>>◌,
}

-- `unix_ts_s`: 0 until the clock is set.
unfoldable pub unix_ts_s : ℕ → ℕ
unix_ts_s now = if ltb 1730000000 now then now else 0

-- `status_message_id`: the sequence number is a 32-bit counter.
unfoldable pub status_message_id : List ℕ → M MessageId
status_message_id device_id = do
  modify (λ s. record s { sequence = (s.sequence + 1) % 2 ^ 32 })
  s ← get
  pure (record { device_id = device_id; boot_nonce = s.boot_nonce; sequence = s.sequence })

abbrev pub or_default : List ℕ → List ℕ → List ℕ
or_default [] default = default
or_default (c ∷ cs) default = c ∷ cs

-- NODE_OFFLINE_TIMEOUT_US.
abbrev pub offline_timeout_us : ℕ
offline_timeout_us = 30000000

-- `offsetof(mesh_light_status_t, …)` of the strings.
abbrev pub device_type_offset : ℕ
device_type_offset = 10

abbrev pub product_id_offset : ℕ
product_id_offset = 34

abbrev pub hw_version_offset : ℕ
hw_version_offset = 66

abbrev pub fw_version_offset : ℕ
fw_version_offset = 98

-- A string of the packet, as far as the packet reaches and the buffer of `size` bytes holds, or what
-- stands in for an empty one.
abbrev pub copied : (packet_size offset size : ℕ) → (field default : List ℕ) → List ℕ
copied packet_size offset size field default =
    or_default (c_string (take (min (packet_size - offset) (size - 1)) field))
      (strlcpy default size)

abbrev pub is_stale : ℕ → NodeEntry → Bool
is_stale now_us n =
    n.used && (n.online && ((n.is_root == 0) && ltb (n.last_seen_us + offline_timeout_us) now_us))

-- The loop of `root_publish_gateway_status`: how many of the entries satisfy a test.
unfoldable pub count_nodes : ℕ → ℕ → (NodeEntry → Bool) → (ℕ → NodeEntry) → ℕ
count_nodes zero i p nodes = 0
count_nodes (suc k) i p nodes =
    let rest = count_nodes k (suc i) p nodes in if p (nodes i) then suc rest else rest

module _ (config : Config) where
  abbrev report_of : NodeEntry → MessageId → NodeReport
  report_of n message_id = record {
    message_id = message_id;
    online = n.online;
    on = not (n.on == 0);
    device_type = n.device_type;
    product_id = or_default n.product_id config.product_id;
    hw_version = or_default n.hw_version config.hw_version;
    fw_version = or_default n.fw_version config.firmware_version;
  }

  -- `root_publish_node_status`, with the topics in their buffers.
  unfoldable pub root_publish_node_status : ℕ → NodeEntry → M (Unit {0})
  unfolding status_message_id unix_ts_s
  root_publish_node_status now n = do
    s ← get
    if not s.has_client then skip else do
      message_id ← status_message_id (node_id n.mac)
      emit (
          published (take 63 (codes "office/light/node/" ++ (node_id n.mac ++ codes "/status")))
            (node_legacy (node_id n.mac) n.layer (not (n.is_root == 0)) (report_of n message_id)))
      emit (
          published (take 79 (codes "farmely/light/" ++ (node_id n.mac ++ codes "/up/status")))
            (node_status (unix_ts_s now) (report_of n message_id)))

  -- `root_publish_gateway_status`.
  unfoldable pub root_publish_gateway_status : ℕ → M (Unit {0})
  unfolding count_nodes status_message_id unix_ts_s
  root_publish_gateway_status now = do
    s ← get
    if not s.has_client then skip else do
      message_id ← status_message_id (node_id s.self_mac)
      emit (
          published (codes "office/light/gateway/status") (
            gateway_legacy message_id s.layer (count_nodes config.max_nodes 0 (λ n. n.used) s.nodes)
              (count_nodes config.max_nodes 0 (λ n. n.used && n.online) s.nodes)))
      emit (
          published
            (take 79 (codes "farmely/gateway/" ++ (node_id s.self_mac ++ codes "/up/status")))
            (gateway_status message_id (unix_ts_s now)
              (count_nodes config.max_nodes 0 (λ n. n.used) s.nodes)
              (count_nodes config.max_nodes 0 (λ n. n.used && n.online) s.nodes)))

  -- The entry of a node after its report of `packet_size` bytes.
  unfoldable pub recorded : ℕ → List ℕ → StatusPacket → ℕ → NodeEntry → NodeEntry
  recorded now_us from st packet_size n = record n {
    addr = from;
    on = if st.on == 0 then 0 else 1;
    layer = st.layer;
    is_root = if st.is_root == 0 then 0 else 1;
    device_type = copied packet_size device_type_offset 24 st.device_type (codes "light_bulb");
    product_id = copied packet_size product_id_offset 32 st.product_id config.product_id;
    hw_version = copied packet_size hw_version_offset 32 st.hw_version config.hw_version;
    fw_version = copied packet_size fw_version_offset 64 st.fw_version config.firmware_version;
    online = true;
    last_seen_us = now_us;
  }

  -- The root's own entry.
  unfoldable pub refreshed : ℕ → Root → NodeEntry → NodeEntry
  refreshed now_us s n = record n {
    on = s.light_state;
    layer = s.layer % 256;
    is_root = 1;
    device_type = codes "gateway";
    product_id = strlcpy config.product_id 32;
    hw_version = strlcpy config.hw_version 32;
    fw_version = strlcpy config.firmware_version 64;
    online = true;
    last_seen_us = now_us;
  }

  -- An entry that was found is rewritten and published.
  unfoldable pub rewrite_entry : ℕ → (Root → NodeEntry → NodeEntry) → Option ℕ → M (Unit {0})
  rewrite_entry now f none = skip
  rewrite_entry now f (some i) = do
    s ← get
    write i (f s (s.nodes i))
    s ← get
    root_publish_node_status now (s.nodes i)

  -- `root_handle_node_status`.
  unfoldable pub root_handle_node_status :
      (now now_us : ℕ) → (from : List ℕ) → StatusPacket → (packet_size : ℕ) → M (Unit {0})
  unfolding rewrite_entry
  root_handle_node_status now now_us from st packet_size = do
    entry ← node_find_or_add config st.mac
    rewrite_entry now (λ s. recorded now_us from st packet_size) entry

  -- `root_refresh_self`.
  unfoldable pub root_refresh_self : (now now_us : ℕ) → M (Unit {0})
  unfolding rewrite_entry
  root_refresh_self now now_us = do
    s ← get
    entry ← node_find_or_add config s.self_mac
    rewrite_entry now (refreshed now_us) entry

  -- One round of the loop of `root_expire_stale_nodes`.
  unfoldable pub expire : (now now_us : ℕ) → ℕ → M (Unit {0})
  expire now now_us i = do
    s ← get
    if not (is_stale now_us (s.nodes i)) then skip else do
      write i (record (s.nodes i) { online = false })
      s ← get
      root_publish_node_status now (s.nodes i)

  -- `root_expire_stale_nodes`, from the entry `i` on, with `k` entries left.
  unfoldable pub expire_from : (now now_us : ℕ) → (k i : ℕ) → M (Unit {0})
  unfolding expire
  expire_from now now_us zero i = skip
  expire_from now now_us (suc k) i = do expire now now_us i; expire_from now now_us k (suc i)

  unfoldable pub root_expire_stale_nodes : (now now_us : ℕ) → M (Unit {0})
  unfolding expire_from
  root_expire_stale_nodes now now_us = expire_from now now_us config.max_nodes 0
