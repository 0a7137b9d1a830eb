-- ===== src/Provisioner/Machine.antt =====
-- The provisioner of esp_ble_mesh/provisioner/main/main.c as a state machine: every callback, bridge
-- handler and task round is one step, and they interleave freely.
pub mod Safety
pub mod Acks
pub mod Progress
pub mod Timeouts
pub mod Setup
pub mod Retries
pub mod GetRetries
use esp32_ble_mesh.Base.{Bool, List, Option, [], ℕ, ◌∷◌}
use esp32_ble_mesh.Provisioner.Boot.{app_main, zeroed}
use esp32_ble_mesh.Provisioner.Commands.{
  bridge_command, bridge_sync, group_sync_round, mesh_yield_radio, recover_round,
}
use esp32_ble_mesh.Provisioner.ConfigClient.{ConfigEvent, ConfigReply, config_client_cb}
use esp32_ble_mesh.Provisioner.GenericClient.{GenericEvent, GenericReply, generic_client_cb}
use esp32_ble_mesh.Provisioner.Provisioning.{ProvEvent, provisioning_cb}
use esp32_ble_mesh.Provisioner.State.{Env, EspErr, M, Provisioner, skip, ◌>>=◌, ◌>>◌}
use esp32_ble_mesh.Provisioner.Storage.{Saved}

pub data Step : Type 0 where
  provisioning : ProvEvent → Step
  config : ConfigEvent → ConfigReply → Step
  generic : GenericEvent → GenericReply → Step
  command : (device : List ℕ) → (on : Bool) → (message_id : Option (List ℕ)) → Step
  sync : Step
  yield_radio : Bool → Step
  group_sync_turn : ℕ → Step
  recover_turn : ℕ → Step

abbrev do_step : Env → Step → M (Unit {0})
do_step env (provisioning event) = provisioning_cb env event
do_step env (config event reply) = config_client_cb env event reply
do_step env (generic event reply) = generic_client_cb env event reply
do_step env (command device on message_id) = do bridge_command env device on message_id; skip
do_step env sync = bridge_sync env
do_step env (yield_radio yield) = mesh_yield_radio env yield
do_step env (group_sync_turn i) = group_sync_round env skip i
do_step env (recover_turn i) = recover_round env skip i

unfoldable pub step : Env → Step → Provisioner → Provisioner
step env e s = (do_step env e s).1

unfoldable pub run : Env → List Step → Provisioner → Provisioner
run env [] s = s
run env (e ∷ es) s = run env es (step env e s)

-- The state after `app_main`, on any outcome of it.
unfoldable pub boot : Env → Saved → EspErr → List ℕ → Provisioner
boot env saved bluetooth dev_uuid = (app_main env saved bluetooth dev_uuid zeroed).1
