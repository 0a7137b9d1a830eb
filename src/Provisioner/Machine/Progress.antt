-- ===== src/Provisioner/Machine/Progress.antt =====
-- The stage of esp_ble_mesh/provisioner/main/main.c over its histories.
use esp32_ble_mesh.Base.{List, [], arith, refl, ℕ, ◌∷◌, ◌≤◌}
use esp32_ble_mesh.Provisioner.Commands.{clear_pending}
use esp32_ble_mesh.Provisioner.Frame.Callbacks.{config_client_cb-Kept, provisioning_cb-Kept}
use esp32_ble_mesh.Provisioner.Frame.Commands.{
  bridge_command-Kept, bridge_sync-Kept, group_sync_round-Kept, mesh_yield_radio-Kept,
  recover_round-Kept,
}
use esp32_ble_mesh.Provisioner.Frame.Defs.{Kept, acks}
use esp32_ble_mesh.Provisioner.Frame.Operations.{clear_pending-Kept, store_progress-Kept}
use esp32_ble_mesh.Provisioner.Frame.Replies.{on_get_timeout-Kept, on_set_timeout-Kept}
use esp32_ble_mesh.Provisioner.GenericClient.{
  GenericEvent, GenericReply, on_generic_error, on_generic_event,
}
use esp32_ble_mesh.Provisioner.Machine.{
  Step, command, config, generic, group_sync_turn, provisioning, recover_turn, run, step, sync,
  yield_radio,
}
use esp32_ble_mesh.Provisioner.Machine.Acks.{
  ReplyCase, errored, handled, ignored, on_onoff_get-settled, on_onoff_set-settled, reply_case,
}
use esp32_ble_mesh.Provisioner.Nodes.{get_node_info}
use esp32_ble_mesh.Provisioner.Rules.{branch_maybe}
use esp32_ble_mesh.Provisioner.State.{Env, Opcode, Provisioner, gen_onoff_get, gen_onoff_set, skip}

module _ (env : Env) (s : Provisioner) where
  -- Each event of a known node.
  event-stage_le :
      (i : ℕ) (reply : GenericReply) (ev : GenericEvent) (op : Opcode)
      → s.progress_stage ≤ (on_generic_event env i reply ev op s).1.progress_stage
  unfolding on_generic_event
  event-stage_le i reply GenericEvent.get_state_event gen_onoff_get =
      (on_onoff_get-settled env s i reply).1
  event-stage_le i reply GenericEvent.set_state_event gen_onoff_set =
      (on_onoff_set-settled env s i reply).1
  event-stage_le i reply GenericEvent.timeout_event gen_onoff_get =
      (on_get_timeout-Kept env (acks s.log) s.progress_stage i s (refl, omega arith)).1
  event-stage_le i reply GenericEvent.timeout_event gen_onoff_set =
      (on_set_timeout-Kept env (acks s.log) s.progress_stage i s (refl, omega arith)).1
  event-stage_le i reply _ _ = omega arith

  case-stage_le :
      (t : Provisioner) (event : GenericEvent) (reply : GenericReply)
      → ReplyCase env s t event reply
      → s.progress_stage ≤ t.progress_stage
  unfolding on_generic_error
  case-stage_le t event reply (ignored e) = rw e (omega arith)
  case-stage_le t event reply (errored e) =
      rw e
        (store_progress-Kept env (acks s.log) s.progress_stage _ _ _ _ _ (
          branch_maybe (Kept (acks s.log) s.progress_stage) (get_node_info env s.nodes reply.addr)
            skip (clear_pending env) s (λ g. (refl, omega arith))
            (λ i g.
              clear_pending-Kept env (acks s.log) s.progress_stage i s (refl, omega arith)))).1
  case-stage_le t event reply (handled i zero_code known e) =
      rw e (event-stage_le i reply event reply.opcode)

  abbrev start : Kept (acks s.log) s.progress_stage s
  start = (refl, omega arith)

  step-stage_le : (e : Step) → s.progress_stage ≤ (step env e s).progress_stage
  unfolding step
  step-stage_le (generic event reply) = case-stage_le _ event reply (reply_case env s event reply)
  step-stage_le (provisioning event) = (provisioning_cb-Kept env _ _ event s start).1
  step-stage_le (config event reply) = (config_client_cb-Kept env _ _ event reply s start).1
  step-stage_le (command device on id) = (bridge_command-Kept env _ _ device on id s start).1
  step-stage_le sync = (bridge_sync-Kept env _ _ s start).1
  step-stage_le (yield_radio yield) = (mesh_yield_radio-Kept env _ _ yield s start).1
  step-stage_le (group_sync_turn i) = (group_sync_round-Kept env _ _ i s start).1
  step-stage_le (recover_turn i) = (recover_round-Kept env _ _ i s start).1

-- Over every history the stage never falls, also on failures and time-outs.
pub run-stage_le :
    (env : Env) (es : List Step) (s : Provisioner)
    → s.progress_stage ≤ (run env es s).progress_stage
unfolding run
run-stage_le env [] s = omega arith
run-stage_le env (e ∷ es) s =
    omega (arith, step-stage_le env s e, run-stage_le env es (step env e s))
