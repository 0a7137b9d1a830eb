-- ===== src/Provisioner/Invariant/Callbacks.antt =====
-- The invariant over the provisioning and configuration callbacks of
-- esp_ble_mesh/provisioner/main/main.c.
use esp32_ble_mesh.Base.{List, not, ℕ, ◌==◌}
use esp32_ble_mesh.Provisioner.ConfigClient.{
  ConfigEvent, ConfigReply, config_client_cb, on_config_event, on_config_get, on_config_set,
  on_config_timeout, retry,
}
use esp32_ble_mesh.Provisioner.Invariant.Defs.{Inv}
use esp32_ble_mesh.Provisioner.Invariant.Operations.{
  reset_config_retries-Inv, start_get-Inv, start_group_subscription-Inv, store_nodes-Inv,
  store_progress-Inv, take_config_retry-Inv,
}
use esp32_ble_mesh.Provisioner.Nodes.{entry_of, free_entry, get_node_info, store_node_info}
use esp32_ble_mesh.Provisioner.Provisioning.{
  ProvEvent, add_local_app_key_comp, logged_event, on_local_app_key, on_prov_complete,
  on_unprov_adv_pkt, prov_complete, provisioning_cb, recv_unprov_adv_pkt,
}
use esp32_ble_mesh.Provisioner.Requests.{
  send_app_key_add, send_composition_get, send_group_subscription, send_model_app_bind,
  take_config_retry,
}
use esp32_ble_mesh.Provisioner.Rules.{branch, branch_maybe}
use esp32_ble_mesh.Provisioner.Stage
use esp32_ble_mesh.Provisioner.State.{
  Env, EspErr, M, Opcode, Provisioner, app_key_add, composition_data_get, emit, is_ok, led_off,
  model_app_bind, model_sub_add, named_node, skip, ◌>>◌,
}
use esp32_ble_mesh.Provisioner.Storage.{store_progress}

module _ (env : Env) where
  pub store_node_info-Inv :
      (uuid : List ℕ) (unicast elem_num onoff : ℕ) (s : Provisioner)
      → Inv s
      → Inv (store_node_info env uuid unicast elem_num onoff s).1
  unfolding store_node_info
  store_node_info-Inv uuid unicast elem_num onoff s v =
      branch Inv (not (env.is_unicast unicast)) _ _ s (λ e. v)
        (λ e.
          branch_maybe Inv (entry_of env s.nodes uuid) _ _ s
            (λ f.
              branch_maybe Inv (free_entry env s.nodes) _ _ s (λ g. v)
                (λ i g. store_nodes-Inv env _ v))
            (λ i f. store_nodes-Inv env _ v))

  pub on_prov_complete-Inv :
      (node_idx : ℕ) (uuid : List ℕ) (unicast elem_num : ℕ) (s : Provisioner)
      → Inv s
      → Inv (on_prov_complete env node_idx uuid unicast elem_num s).1
  unfolding on_prov_complete send_composition_get
  on_prov_complete-Inv node_idx uuid unicast elem_num s v =
      let t : Provisioner = (emit (named_node node_idx) s).1 in
      let u : Provisioner = (store_node_info env uuid unicast elem_num led_off t).1 in
      let w : Provisioner = (store_progress env Stage.provisioned unicast led_off 0 u).1 in
      let stored : Inv u = store_node_info-Inv uuid unicast elem_num led_off t v in
      let noted : Inv w = store_progress-Inv env Stage.provisioned unicast led_off 0 u stored in
      branch Inv (is_ok (env.answer s.log (named_node node_idx))) _ _ t
        (λ e.
          branch Inv (not (is_ok (store_node_info env uuid unicast elem_num led_off t).0)) _ _ u
            (λ f. stored)
            (λ f.
              branch_maybe Inv (get_node_info env w.nodes unicast) _ _ w (λ g. noted)
                (λ i g. noted)))
        (λ e. v)

  pub provisioning_cb-Inv :
      (event : ProvEvent) (s : Provisioner) → Inv s → Inv (provisioning_cb env event s).1
  unfolding provisioning_cb on_unprov_adv_pkt on_local_app_key
  provisioning_cb-Inv (recv_unprov_adv_pkt dev) s v = store_progress-Inv env _ _ _ _ s v
  provisioning_cb-Inv (prov_complete node_idx uuid unicast elem_num) s v =
      on_prov_complete-Inv node_idx uuid unicast elem_num s v
  provisioning_cb-Inv (add_local_app_key_comp err_code app_idx) s v =
      branch Inv (err_code == 0) _ _ s (λ e. v) (λ e. v)
  provisioning_cb-Inv logged_event s v = v

  on_config_get-Inv :
      (i : ℕ) (reply : ConfigReply) (op : Opcode) (s : Provisioner)
      → Inv s
      → Inv (on_config_get env i reply op s).1
  unfolding on_config_get send_app_key_add
  on_config_get-Inv i reply composition_data_get s v =
      store_progress-Inv env _ _ _ _ _ (reset_config_retries-Inv env i s v)
  on_config_get-Inv i reply _ s v = v

  on_config_set-Inv :
      (i : ℕ) (reply : ConfigReply) (op : Opcode) (s : Provisioner)
      → Inv s
      → Inv (on_config_set env i reply op s).1
  unfolding on_config_set send_model_app_bind
  on_config_set-Inv i reply app_key_add s v =
      branch Inv (not (reply.status == 0)) _ _ s (λ e. store_progress-Inv env _ _ _ _ s v)
        (λ e. store_progress-Inv env _ _ _ _ _ (reset_config_retries-Inv env i s v))
  on_config_set-Inv i reply model_app_bind s v =
      branch Inv (not (reply.status == 0)) _ _ s (λ e. store_progress-Inv env _ _ _ _ s v)
        (λ e.
          start_group_subscription-Inv env i _
            (store_progress-Inv env _ _ _ _ _ (reset_config_retries-Inv env i s v)))
  on_config_set-Inv i reply model_sub_add s v =
      branch Inv (not (reply.status == 0)) _ _ s (λ e. store_progress-Inv env _ _ _ _ s v)
        (λ e. start_get-Inv env i _ (reset_config_retries-Inv env i s v))
  on_config_set-Inv i reply _ s v = v

  retry-Inv :
      (i : ℕ) (request : M EspErr) (s : Provisioner)
      → ((t : Provisioner) → Inv t → Inv (request t).1)
      → Inv s
      → Inv (retry env i request s).1
  unfolding retry
  retry-Inv i request s keep v =
      let t : Provisioner = (take_config_retry env i s).1 in
      let h : Inv t = take_config_retry-Inv env i s v in
      branch Inv (take_config_retry env i s).0 (do request; skip) skip t (λ e. keep t h) (λ e. h)

  on_config_timeout-Inv :
      (i : ℕ) (op : Opcode) (s : Provisioner) → Inv s → Inv (on_config_timeout env i op s).1
  unfolding on_config_timeout send_composition_get send_app_key_add send_model_app_bind
      send_group_subscription
  on_config_timeout-Inv i composition_data_get s v =
      retry-Inv i (send_composition_get env i) s (λ t h. h) v
  on_config_timeout-Inv i app_key_add s v = retry-Inv i (send_app_key_add env i) s (λ t h. h) v
  on_config_timeout-Inv i model_app_bind s v =
      retry-Inv i (send_model_app_bind env i) s (λ t h. h) v
  on_config_timeout-Inv i model_sub_add s v =
      retry-Inv i (send_group_subscription env i) s (λ t h. h) v
  on_config_timeout-Inv i _ s v = v

  on_config_event-Inv :
      (i : ℕ) (event : ConfigEvent) (reply : ConfigReply) (s : Provisioner)
      → Inv s
      → Inv (on_config_event env i event reply s).1
  unfolding on_config_event
  on_config_event-Inv i ConfigEvent.get_state_event reply s v =
      on_config_get-Inv i reply reply.opcode s v
  on_config_event-Inv i ConfigEvent.set_state_event reply s v =
      on_config_set-Inv i reply reply.opcode s v
  on_config_event-Inv i ConfigEvent.timeout_event reply s v =
      on_config_timeout-Inv i reply.opcode s v
  on_config_event-Inv i _ reply s v = v

  pub config_client_cb-Inv :
      (event : ConfigEvent) (reply : ConfigReply) (s : Provisioner)
      → Inv s
      → Inv (config_client_cb env event reply s).1
  unfolding config_client_cb
  config_client_cb-Inv event reply s v =
      branch Inv (not (reply.error_code == 0)) _ _ s (λ e. store_progress-Inv env _ _ _ _ s v)
        (λ e.
          branch_maybe Inv (get_node_info env s.nodes reply.addr) _ _ s (λ f. v)
            (λ i f. on_config_event-Inv i event reply s v))
