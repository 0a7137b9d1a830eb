-- ===== src/Provisioner/Frame/Operations.antt =====
-- The acknowledgements and the stage over the operations of esp_ble_mesh/provisioner/main/main.c.
use esp32_ble_mesh.Base.{Bool, arith, if◌then◌else◌, leb, ltb, true, ℕ, ◌&&◌, ◌==◌}
use esp32_ble_mesh.Provisioner.Commands.{clear_pending}
use esp32_ble_mesh.Provisioner.Frame.Defs.{Acks, Kept}
use esp32_ble_mesh.Provisioner.Requests.{
  reset_config_retries, send_get, send_group_subscription, send_onoff_request, start_get,
  start_group_subscription, take_config_retry,
}
use esp32_ble_mesh.Provisioner.Rules.{branch}
use esp32_ble_mesh.Provisioner.State.{
  Env, Provisioner, emit, farmely_max_retries, is_ok, opened_nvs, perform, skip, stored_progress,
}
use esp32_ble_mesh.Provisioner.Storage.{store_nodes, store_progress}

module _ (env : Env) (l : Acks) (m : ℕ) where
  pub store_progress-Kept :
      (stage addr onoff error : ℕ) (s : Provisioner)
      → Kept l m s
      → Kept l m (store_progress env stage addr onoff error s).1
  unfolding store_progress
  store_progress-Kept stage addr onoff error s v =
      let t : Provisioner = record s {
        progress_stage = if ltb s.progress_stage stage then stage else s.progress_stage;
      } in
      let raised : Kept l m t = (v.0, ground (arith, v.1)) in
      branch (Kept l m) (ltb stage s.progress_stage && (error == 0)) _ _ s (λ e. v)
        (λ e.
          branch (Kept l m) (is_ok (env.answer s.log (opened_nvs true)))
            (emit (stored_progress t.progress_stage addr onoff error)) skip
            (perform env (opened_nvs true) t).1 (λ o. raised) (λ o. raised))

  pub store_nodes-Kept : (s : Provisioner) → Kept l m s → Kept l m (store_nodes env s).1
  unfolding store_nodes
  store_nodes-Kept s v =
      branch (Kept l m) (is_ok (env.answer s.log (opened_nvs true))) _ _ _ (λ o. v) (λ o. v)

  pub send_get-Kept : (i : ℕ) (s : Provisioner) → Kept l m s → Kept l m (send_get env i s).1
  unfolding send_get
  send_get-Kept i s v = v

  pub start_get-Kept : (i : ℕ) (s : Provisioner) → Kept l m s → Kept l m (start_get env i s).1
  unfolding start_get
  start_get-Kept i s v =
      branch (Kept l m) (leb env.max_nodes i) _ _ s (λ e. v) (λ e. send_get-Kept i _ v)

  pub reset_config_retries-Kept :
      (i : ℕ) (s : Provisioner) → Kept l m s → Kept l m (reset_config_retries env i s).1
  unfolding reset_config_retries
  reset_config_retries-Kept i s v = branch (Kept l m) (ltb i env.max_nodes) _ _ s (λ e. v) (λ e. v)

  pub take_config_retry-Kept :
      (i : ℕ) (s : Provisioner) → Kept l m s → Kept l m (take_config_retry env i s).1
  unfolding take_config_retry
  take_config_retry-Kept i s v =
      branch (Kept l m) (leb env.max_nodes i) _ _ s (λ e. v)
        (λ e.
          branch (Kept l m) (leb farmely_max_retries (s.config_retries i)) _ _ s (λ f. v) (λ f. v))

  pub start_group_subscription-Kept :
      (i : ℕ) (s : Provisioner) → Kept l m s → Kept l m (start_group_subscription env i s).1
  unfolding start_group_subscription send_group_subscription
  start_group_subscription-Kept i s v =
      branch (Kept l m) (leb env.max_nodes i) _ _ s (λ e. v) (λ e. reset_config_retries-Kept i s v)

  pub send_onoff_request-Kept :
      (i : ℕ) (on : Bool) (s : Provisioner)
      → Kept l m s
      → Kept l m (send_onoff_request env i on s).1
  unfolding send_onoff_request
  send_onoff_request-Kept i on s v = v

  pub clear_pending-Kept :
      (i : ℕ) (s : Provisioner) → Kept l m s → Kept l m (clear_pending env i s).1
  unfolding clear_pending
  clear_pending-Kept i s v = branch (Kept l m) (ltb i env.max_nodes) _ _ s (λ e. v) (λ e. v)
