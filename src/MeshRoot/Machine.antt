-- ===== src/MeshRoot/Machine.antt =====
-- The operations of the root of internal_communication/main/mesh_main.c on its registry, in any order.
use esp32_ble_mesh.Base.{Bool, List, [], ℕ, ◌∷◌}
use esp32_ble_mesh.MeshRoot.Commands.{mesh_broadcast_ctl, mqtt_handle_node_cmd}
use esp32_ble_mesh.MeshRoot.Reports.{
  root_expire_stale_nodes, root_handle_node_status, root_publish_gateway_status, root_refresh_self,
}
use esp32_ble_mesh.MeshRoot.Routing.{mqtt_dispatch}
use esp32_ble_mesh.MeshRoot.State.{Config, M, Root, StatusPacket}

pub data Step : Type 0 where
  status_packet : (now now_us : ℕ) → (from : List ℕ) → StatusPacket → (packet_size : ℕ) → Step
  refresh_self : (now now_us : ℕ) → Step
  expire_stale : (now now_us : ℕ) → Step
  publish_gateway : (now : ℕ) → Step
  node_command : (now now_us : ℕ) → (id : List ℕ) → (on : Bool) → Step
  group_command : (table : List (List ℕ)) → (on : Bool) → Step
  mqtt_message :
      (now now_us : ℕ) → (table : List (List ℕ)) → (topic behind payload stale : List ℕ) → Step

abbrev pub do_step : Config → Step → M (Unit {0})
do_step config (status_packet now now_us from st packet_size) =
    root_handle_node_status config now now_us from st packet_size
do_step config (refresh_self now now_us) = root_refresh_self config now now_us
do_step config (expire_stale now now_us) = root_expire_stale_nodes config now now_us
do_step config (publish_gateway now) = root_publish_gateway_status config now
do_step config (node_command now now_us id on) = mqtt_handle_node_cmd config now now_us id on
do_step config (group_command table on) = mesh_broadcast_ctl table on
do_step config (mqtt_message now now_us table topic behind payload stale) =
    mqtt_dispatch config now now_us table topic behind payload stale

unfoldable pub run : Config → List Step → Root → Root
run config [] s = s
run config (e ∷ es) s = run config es (do_step config e s).1
