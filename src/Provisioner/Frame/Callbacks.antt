-- ===== src/Provisioner/Frame/Callbacks.antt =====
-- The acknowledgements and the stage over the provisioning and configuration callbacks of
-- esp_ble_mesh/provisioner/main/main.c.
use esp32_ble_mesh.Base.{List, not, ℕ, ◌==◌}
use esp32_ble_mesh.Provisioner.ConfigClient.{
  ConfigEvent, ConfigReply, config_client_cb, on_config_event, on_config_get, on_config_set,
  on_config_timeout, retry,
}
use esp32_ble_mesh.Provisioner.Frame.Defs.{Acks, Kept}
use esp32_ble_mesh.Provisioner.Frame.Operations.{
  reset_config_retries-Kept, start_get-Kept, start_group_subscription-Kept, store_nodes-Kept,
  store_progress-Kept, take_config_retry-Kept,
}
use esp32_ble_mesh.Provisioner.Nodes.{entry_of, free_entry, get_node_info, store_node_info}
use esp32_ble_mesh.Provisioner.Provisioning.{
  ProvEvent, add_local_app_key_comp, logged_event, on_local_app_key, on_prov_complete,
  on_unprov_adv_pkt, prov_complete, provisioning_cb, recv_unprov_adv_pkt,
}
use esp32_ble_mesh.Provisioner.Requests.{
  send_app_key_add, send_composition_get, send_group_subscription, send_model_app_bind,
  take_config_retry,
}
use esp32_ble_mesh.Provisioner.Rules.{branch, branch_maybe}
use esp32_ble_mesh.Provisioner.Stage
use esp32_ble_mesh.Provisioner.State.{
  Env, EspErr, M, Opcode, Provisioner, app_key_add, composition_data_get, emit, is_ok, led_off,
  model_app_bind, model_sub_add, named_node, skip, ◌>>◌,
}
use esp32_ble_mesh.Provisioner.Storage.{store_progress}

module _ (env : Env) (l : Acks) (m : ℕ) where
  pub store_node_info-Kept :
      (uuid : List ℕ) (unicast elem_num onoff : ℕ) (s : Provisioner)
      → Kept l m s
      → Kept l m (store_node_info env uuid unicast elem_num onoff s).1
  unfolding store_node_info
  store_node_info-Kept uuid unicast elem_num onoff s v =
      branch (Kept l m) (not (env.is_unicast unicast)) _ _ s (λ e. v)
        (λ e.
          branch_maybe (Kept l m) (entry_of env s.nodes uuid) _ _ s
            (λ f.
              branch_maybe (Kept l m) (free_entry env s.nodes) _ _ s (λ g. v)
                (λ i g. store_nodes-Kept env l m _ v))
            (λ i f. store_nodes-Kept env l m _ v))

  pub on_prov_complete-Kept :
      (node_idx : ℕ) (uuid : List ℕ) (unicast elem_num : ℕ) (s : Provisioner)
      → Kept l m s
      → Kept l m (on_prov_complete env node_idx uuid unicast elem_num s).1
  unfolding on_prov_complete send_composition_get
  on_prov_complete-Kept node_idx uuid unicast elem_num s v =
      let t : Provisioner = (emit (named_node node_idx) s).1 in
      let u : Provisioner = (store_node_info env uuid unicast elem_num led_off t).1 in
      let w : Provisioner = (store_progress env Stage.provisioned unicast led_off 0 u).1 in
      let stored : Kept l m u = store_node_info-Kept uuid unicast elem_num led_off t v in
      let noted : Kept l m w =
        store_progress-Kept env l m Stage.provisioned unicast led_off 0 u stored in
      branch (Kept l m) (is_ok (env.answer s.log (named_node node_idx))) _ _ t
        (λ e.
          branch (Kept l m) (not (is_ok (store_node_info env uuid unicast elem_num led_off t).0)) _
            _ u (λ f. stored)
            (λ f.
              branch_maybe (Kept l m) (get_node_info env w.nodes unicast) _ _ w (λ g. noted)
                (λ i g. noted)))
        (λ e. v)

  pub provisioning_cb-Kept :
      (event : ProvEvent) (s : Provisioner) → Kept l m s → Kept l m (provisioning_cb env event s).1
  unfolding provisioning_cb on_unprov_adv_pkt on_local_app_key
  provisioning_cb-Kept (recv_unprov_adv_pkt dev) s v = store_progress-Kept env l m _ _ _ _ s v
  provisioning_cb-Kept (prov_complete node_idx uuid unicast elem_num) s v =
      on_prov_complete-Kept node_idx uuid unicast elem_num s v
  provisioning_cb-Kept (add_local_app_key_comp err_code app_idx) s v =
      branch (Kept l m) (err_code == 0) _ _ s (λ e. v) (λ e. v)
  provisioning_cb-Kept logged_event s v = v

  on_config_get-Kept :
      (i : ℕ) (reply : ConfigReply) (op : Opcode) (s : Provisioner)
      → Kept l m s
      → Kept l m (on_config_get env i reply op s).1
  unfolding on_config_get send_app_key_add
  on_config_get-Kept i reply composition_data_get s v =
      store_progress-Kept env l m _ _ _ _ _ (reset_config_retries-Kept env l m i s v)
  on_config_get-Kept i reply _ s v = v

  on_config_set-Kept :
      (i : ℕ) (reply : ConfigReply) (op : Opcode) (s : Provisioner)
      → Kept l m s
      → Kept l m (on_config_set env i reply op s).1
  unfolding on_config_set send_model_app_bind
  on_config_set-Kept i reply app_key_add s v =
      branch (Kept l m) (not (reply.status == 0)) _ _ s
        (λ e. store_progress-Kept env l m _ _ _ _ s v)
        (λ e. store_progress-Kept env l m _ _ _ _ _ (reset_config_retries-Kept env l m i s v))
  on_config_set-Kept i reply model_app_bind s v =
      branch (Kept l m) (not (reply.status == 0)) _ _ s
        (λ e. store_progress-Kept env l m _ _ _ _ s v)
        (λ e.
          start_group_subscription-Kept env l m i _
            (store_progress-Kept env l m _ _ _ _ _ (reset_config_retries-Kept env l m i s v)))
  on_config_set-Kept i reply model_sub_add s v =
      branch (Kept l m) (not (reply.status == 0)) _ _ s
        (λ e. store_progress-Kept env l m _ _ _ _ s v)
        (λ e. start_get-Kept env l m i _ (reset_config_retries-Kept env l m i s v))
  on_config_set-Kept i reply _ s v = v

  retry-Kept :
      (i : ℕ) (request : M EspErr) (s : Provisioner)
      → ((t : Provisioner) → Kept l m t → Kept l m (request t).1)
      → Kept l m s
      → Kept l m (retry env i request s).1
  unfolding retry
  retry-Kept i request s keep v =
      let t : Provisioner = (take_config_retry env i s).1 in
      let h : Kept l m t = take_config_retry-Kept env l m i s v in
      branch (Kept l m) (take_config_retry env i s).0 (do request; skip) skip t (λ e. keep t h)
        (λ e. h)

  on_config_timeout-Kept :
      (i : ℕ) (op : Opcode) (s : Provisioner)
      → Kept l m s
      → Kept l m (on_config_timeout env i op s).1
  unfolding on_config_timeout send_composition_get send_app_key_add send_model_app_bind
      send_group_subscription
  on_config_timeout-Kept i composition_data_get s v =
      retry-Kept i (send_composition_get env i) s (λ t h. h) v
  on_config_timeout-Kept i app_key_add s v = retry-Kept i (send_app_key_add env i) s (λ t h. h) v
  on_config_timeout-Kept i model_app_bind s v =
      retry-Kept i (send_model_app_bind env i) s (λ t h. h) v
  on_config_timeout-Kept i model_sub_add s v =
      retry-Kept i (send_group_subscription env i) s (λ t h. h) v
  on_config_timeout-Kept i _ s v = v

  on_config_event-Kept :
      (i : ℕ) (event : ConfigEvent) (reply : ConfigReply) (s : Provisioner)
      → Kept l m s
      → Kept l m (on_config_event env i event reply s).1
  unfolding on_config_event
  on_config_event-Kept i ConfigEvent.get_state_event reply s v =
      on_config_get-Kept i reply reply.opcode s v
  on_config_event-Kept i ConfigEvent.set_state_event reply s v =
      on_config_set-Kept i reply reply.opcode s v
  on_config_event-Kept i ConfigEvent.timeout_event reply s v =
      on_config_timeout-Kept i reply.opcode s v
  on_config_event-Kept i _ reply s v = v

  pub config_client_cb-Kept :
      (event : ConfigEvent) (reply : ConfigReply) (s : Provisioner)
      → Kept l m s
      → Kept l m (config_client_cb env event reply s).1
  unfolding config_client_cb
  config_client_cb-Kept event reply s v =
      branch (Kept l m) (not (reply.error_code == 0)) _ _ s
        (λ e. store_progress-Kept env l m _ _ _ _ s v)
        (λ e.
          branch_maybe (Kept l m) (get_node_info env s.nodes reply.addr) _ _ s (λ f. v)
            (λ i f. on_config_event-Kept i event reply s v))
