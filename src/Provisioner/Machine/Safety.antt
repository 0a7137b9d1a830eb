-- ===== src/Provisioner/Machine/Safety.antt =====
-- The invariant over the histories of esp_ble_mesh/provisioner/main/main.c.
use esp32_ble_mesh.Base.{List, [], arith, false, not, ℕ, ◌∷◌}
use esp32_ble_mesh.Provisioner.Boot.{app_main, ble_mesh_init, then_if_ok, zeroed}
use esp32_ble_mesh.Provisioner.Invariant.Callbacks.{config_client_cb-Inv, provisioning_cb-Inv}
use esp32_ble_mesh.Provisioner.Invariant.Commands.{
  bridge_command-Inv, bridge_sync-Inv, group_sync_round-Inv, mesh_yield_radio-Inv,
  recover_round-Inv,
}
use esp32_ble_mesh.Provisioner.Invariant.Defs.{Inv, no_command-IsCommand}
use esp32_ble_mesh.Provisioner.Invariant.Operations.{store_progress-Inv}
use esp32_ble_mesh.Provisioner.Invariant.Replies.{generic_client_cb-Inv}
use esp32_ble_mesh.Provisioner.Machine.{
  Step, boot, command, config, generic, group_sync_turn, provisioning, recover_turn, run, step,
  sync, yield_radio,
}
use esp32_ble_mesh.Provisioner.Rules.{branch}
use esp32_ble_mesh.Provisioner.Stage
use esp32_ble_mesh.Provisioner.State.{
  Effect, Env, EspErr, M, Provisioner, enabled_prov, initialised_mesh, is_ok, led_off, opened_nvs,
  perform, prov_own_addr, pure, set_uuid_match,
}
use esp32_ble_mesh.Provisioner.Storage.{Saved, load_state, store_progress}

step-Inv : (env : Env) (e : Step) (s : Provisioner) → Inv s → Inv (step env e s)
unfolding step
step-Inv env (provisioning event) s v = provisioning_cb-Inv env event s v
step-Inv env (config event reply) s v = config_client_cb-Inv env event reply s v
step-Inv env (generic event reply) s v = generic_client_cb-Inv env event reply s v
step-Inv env (command device on id) s v = bridge_command-Inv env device on id s v
step-Inv env sync s v = bridge_sync-Inv env s v
step-Inv env (yield_radio yield) s v = mesh_yield_radio-Inv env yield s v
step-Inv env (group_sync_turn i) s v = group_sync_round-Inv env i s v
step-Inv env (recover_turn i) s v = recover_round-Inv env i s v

run-Inv : (env : Env) (es : List Step) (s : Provisioner) → Inv s → Inv (run env es s)
unfolding run
run-Inv env [] s v = v
run-Inv env (e ∷ es) s v = run-Inv env es (step env e s) (step-Inv env e s v)

load_state-Inv :
    (env : Env) (saved : Saved) (s : Provisioner) → Inv s → Inv (load_state env saved s).1
unfolding load_state
load_state-Inv env saved s v =
    branch Inv (is_ok (env.answer s.log (opened_nvs false))) _ _ _ (λ e. v) (λ e. v)

-- The library calls of the initialisation change only the log.
guarded_call-Inv :
    (env : Env) (call : Effect) (next : M EspErr) (s : Provisioner)
    → ((t : Provisioner) → Inv t → Inv (next t).1)
    → Inv s
    → Inv (then_if_ok (perform env call) next s).1
guarded_call-Inv env call next s keep v =
    branch Inv (is_ok (env.answer s.log call)) next (pure (env.answer s.log call))
      (perform env call s).1 (λ e. keep _ v) (λ e. v)

ble_mesh_init-Inv : (env : Env) (s : Provisioner) → Inv s → Inv (ble_mesh_init env s).1
unfolding ble_mesh_init
ble_mesh_init-Inv env s v =
    guarded_call-Inv env initialised_mesh _ _
      (λ t h.
        guarded_call-Inv env set_uuid_match _ t
          (λ u k. guarded_call-Inv env enabled_prov _ u (λ w l. l) k) h)
      v

zeroed-Inv : Inv zeroed
unfolding zeroed
zeroed-Inv = record {
  commands = λ i. no_command-IsCommand;
  gets_capped = λ i. omega arith;
  configs_capped = λ i. omega arith;
  tid_byte = omega arith;
}

boot-Inv :
    (env : Env) (saved : Saved) (bluetooth : EspErr) (dev_uuid : List ℕ)
    → Inv (boot env saved bluetooth dev_uuid)
unfolding boot app_main
boot-Inv env saved bluetooth dev_uuid =
    let t : Provisioner = (load_state env saved zeroed).1 in
    let h : Inv t = load_state-Inv env saved zeroed zeroed-Inv in
    let u : Provisioner = (store_progress env Stage.started prov_own_addr led_off 0 t).1 in
    let k : Inv u = store_progress-Inv env Stage.started prov_own_addr led_off 0 t h in
    branch Inv (not (is_ok bluetooth)) _ _ u (λ e. k)
      (λ e.
        branch Inv (not (is_ok (ble_mesh_init env u).0)) _ _ (ble_mesh_init env u).1
          (λ f. ble_mesh_init-Inv env u k) (λ f. ble_mesh_init-Inv env u k))

-- After any boot and any interleaving of callbacks, commands and task rounds, each entry of
-- `s_pending` is either cleared or in flight, no retry counter is above FARMELY_MAX_RETRIES, a wanted
-- state is 0 or 1, a message id fits its buffer, and the transaction number is a byte.
pub run-boot-Inv :
    (env : Env) (saved : Saved) (bluetooth : EspErr) (dev_uuid : List ℕ) (es : List Step)
    → Inv (run env es (boot env saved bluetooth dev_uuid))
run-boot-Inv env saved bluetooth dev_uuid es =
    run-Inv env es _ (boot-Inv env saved bluetooth dev_uuid)
