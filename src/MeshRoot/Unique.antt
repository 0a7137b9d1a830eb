-- ===== src/MeshRoot/Unique.antt =====
-- The addresses in the registry of internal_communication/main/mesh_main.c over a history.
use esp32_ble_mesh.Base.{List, [], false, true, ℕ, ◌<◌, ◌∷◌, ◌≡◌}
use esp32_ble_mesh.MeshRoot.Kept.Messages.{dispatch-Distinct}
use esp32_ble_mesh.MeshRoot.Kept.Operations.{
  Keeps, expire_from-Distinct, gateway-Distinct, group-Distinct, handle-Distinct, node_cmd-Distinct,
  refresh-Distinct,
}
use esp32_ble_mesh.MeshRoot.Machine.{
  Step, do_step, expire_stale, group_command, mqtt_message, node_command, publish_gateway,
  refresh_self, run, status_packet,
}
use esp32_ble_mesh.MeshRoot.Reports.{root_expire_stale_nodes}
use esp32_ble_mesh.MeshRoot.State.{Config, Root}

module _ (config : Config) where
  step-Distinct : (e : Step) (s : Root) → Keeps config s → Keeps config (do_step config e s).1
  step-Distinct (status_packet now now_us from st size) s v =
      handle-Distinct config now now_us from st size s v
  step-Distinct (refresh_self now now_us) s v = refresh-Distinct config now now_us s v
  step-Distinct (expire_stale now now_us) s v =
      unfold root_expire_stale_nodes in
      expire_from-Distinct config now now_us config.max_nodes 0 s v
  step-Distinct (publish_gateway now) s v = gateway-Distinct config now s v
  step-Distinct (node_command now now_us id on) s v = node_cmd-Distinct config now now_us id on s v
  step-Distinct (group_command table on) s v = group-Distinct config table on s v
  step-Distinct (mqtt_message now now_us table topic behind payload stale) s v =
      dispatch-Distinct config now now_us table topic behind payload stale s v

  run-Distinct : (es : List Step) (s : Root) → Keeps config s → Keeps config (run config es s)
  unfolding run
  run-Distinct [] s v = v
  run-Distinct (e ∷ es) s v = run-Distinct es _ (step-Distinct e s v)

-- From an empty registry on, over any sequence of status packets, refreshes, expiries, reports,
-- commands and MQTT messages, no two used entries have the same MAC address.
pub run_registry_distinct :
    (config : Config) (es : List Step) (s : Root) (i j : ℕ)
    → ((k : ℕ) → (s.nodes k).used ≡ false)
    → i < config.max_nodes
    → j < config.max_nodes
    → ((run config es s).nodes i).used ≡ true
    → ((run config es s).nodes j).used ≡ true
    → ((run config es s).nodes i).mac ≡ ((run config es s).nodes j).mac
    → i ≡ j
run_registry_distinct config es s i j empty hi hj ui uj e =
    run-Distinct config es s (λ k l hk hl uk ul f. absurd (cc (uk, empty k))) i j hi hj ui uj e
