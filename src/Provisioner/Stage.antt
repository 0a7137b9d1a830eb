-- ===== src/Provisioner/Stage.antt =====
-- The stages of esp_ble_mesh/provisioner/main/main.c, FARMELY_STAGE_STARTED to
-- FARMELY_STAGE_NODE_RECOVERED.
use Prim.Native.Nat.{ℕ}

abbrev pub started : ℕ
started = 1

abbrev pub node_found : ℕ
node_found = 2

abbrev pub provisioned : ℕ
provisioned = 3

abbrev pub composition_received : ℕ
composition_received = 4

abbrev pub app_key_added : ℕ
app_key_added = 5

abbrev pub model_bound : ℕ
model_bound = 6

abbrev pub onoff_received : ℕ
onoff_received = 7

abbrev pub onoff_set : ℕ
onoff_set = 8

abbrev pub node_recovered : ℕ
node_recovered = 9
