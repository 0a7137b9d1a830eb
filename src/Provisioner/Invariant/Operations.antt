-- ===== src/Provisioner/Invariant/Operations.antt =====
-- The invariant over the requests, the node table and the storage of
-- esp_ble_mesh/provisioner/main/main.c.
use esp32_ble_mesh.Base.{Bool, arith, leb, ltb, true, ℕ, ◌&&◌, ◌==◌}
use esp32_ble_mesh.Provisioner.Commands.{clear_pending}
use esp32_ble_mesh.Provisioner.Invariant.Defs.{
  Inv, no_command-IsCommand, write_config_retries, write_get_retries, write_pending, write_tid,
}
use esp32_ble_mesh.Provisioner.Requests.{
  reset_config_retries, send_get, send_group_subscription, send_onoff_request, start_get,
  start_group_subscription, take_config_retry,
}
use esp32_ble_mesh.Provisioner.Rules.{branch}
use esp32_ble_mesh.Provisioner.State.{Env, Provisioner, farmely_max_retries, is_ok, opened_nvs}
use esp32_ble_mesh.Provisioner.Storage.{store_nodes, store_progress}

module _ (env : Env) where
  pub store_progress-Inv :
      (stage addr onoff error : ℕ) (s : Provisioner)
      → Inv s
      → Inv (store_progress env stage addr onoff error s).1
  unfolding store_progress
  store_progress-Inv stage addr onoff error s v =
      branch Inv (ltb stage s.progress_stage && (error == 0)) _ _ s (λ e. v)
        (λ e. branch Inv (is_ok (env.answer s.log (opened_nvs true))) _ _ _ (λ o. v) (λ o. v))

  pub store_nodes-Inv : (s : Provisioner) → Inv s → Inv (store_nodes env s).1
  unfolding store_nodes
  store_nodes-Inv s v =
      branch Inv (is_ok (env.answer s.log (opened_nvs true))) _ _ _ (λ o. v) (λ o. v)

  pub send_get-Inv : (i : ℕ) (s : Provisioner) → Inv s → Inv (send_get env i s).1
  unfolding send_get
  send_get-Inv i s v = v

  pub start_get-Inv : (i : ℕ) (s : Provisioner) → Inv s → Inv (start_get env i s).1
  unfolding start_get
  start_get-Inv i s v =
      branch Inv (leb env.max_nodes i) _ _ s (λ e. v)
        (λ e. send_get-Inv i _ (write_get_retries s i 0 v (omega arith)))

  pub reset_config_retries-Inv :
      (i : ℕ) (s : Provisioner) → Inv s → Inv (reset_config_retries env i s).1
  unfolding reset_config_retries
  reset_config_retries-Inv i s v =
      branch Inv (ltb i env.max_nodes) _ _ s (λ e. write_config_retries s i 0 v (omega arith))
        (λ e. v)

  pub take_config_retry-Inv : (i : ℕ) (s : Provisioner) → Inv s → Inv (take_config_retry env i s).1
  unfolding take_config_retry
  take_config_retry-Inv i s v =
      branch Inv (leb env.max_nodes i) _ _ s (λ e. v)
        (λ e.
          branch Inv (leb farmely_max_retries (s.config_retries i)) _ _ s
            (λ f. write_config_retries s i 0 v (omega arith))
            (λ f. write_config_retries s i _ v (ground arith)))

  pub start_group_subscription-Inv :
      (i : ℕ) (s : Provisioner) → Inv s → Inv (start_group_subscription env i s).1
  unfolding start_group_subscription send_group_subscription
  start_group_subscription-Inv i s v =
      branch Inv (leb env.max_nodes i) _ _ s (λ e. v) (λ e. reset_config_retries-Inv i s v)

  pub send_onoff_request-Inv :
      (i : ℕ) (on : Bool) (s : Provisioner) → Inv s → Inv (send_onoff_request env i on s).1
  unfolding send_onoff_request
  send_onoff_request-Inv i on s v = write_tid s v

  pub clear_pending-Inv : (i : ℕ) (s : Provisioner) → Inv s → Inv (clear_pending env i s).1
  unfolding clear_pending
  clear_pending-Inv i s v =
      branch Inv (ltb i env.max_nodes) _ _ s (λ e. write_pending s i _ v no_command-IsCommand)
        (λ e. v)
