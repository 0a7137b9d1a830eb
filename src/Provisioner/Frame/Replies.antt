-- ===== src/Provisioner/Frame/Replies.antt =====
-- The acknowledgements and the stage over the parts of `example_ble_mesh_generic_client_cb` of
-- esp_ble_mesh/provisioner/main/main.c that confirm no command.
use esp32_ble_mesh.Base.{Bool, if◌then◌else◌, leb, ltb, none, not, update, ℕ, ◌&&◌, ◌==◌, ◌||◌}
use esp32_ble_mesh.Provisioner.Commands.{clear_pending}
use esp32_ble_mesh.Provisioner.Frame.Commands.{send_onoff-Kept}
use esp32_ble_mesh.Provisioner.Frame.Defs.{Acks, Kept}
use esp32_ble_mesh.Provisioner.Frame.Operations.{
  clear_pending-Kept, send_get-Kept, send_onoff_request-Kept, store_nodes-Kept, store_progress-Kept,
}
use esp32_ble_mesh.Provisioner.GenericClient.{
  GenericReply, note_status, on_get_timeout, on_set_timeout, record_get, record_set, resend_get,
  resend_onoff, toggle_once,
}
use esp32_ble_mesh.Provisioner.Requests.{send_get, send_onoff_request, to_bool}
use esp32_ble_mesh.Provisioner.Rules.{branch}
use esp32_ble_mesh.Provisioner.State.{Env, Provisioner, farmely_max_retries, is_ok, modify, skip}

module _ (env : Env) (l : Acks) (m : ℕ) where
  pub resend_onoff-Kept : (i : ℕ) (s : Provisioner) → Kept l m s → Kept l m (resend_onoff env i s).1
  unfolding resend_onoff
  resend_onoff-Kept i s v =
      let on : Bool = to_bool (s.pending i).desired_onoff in
      let h : Kept l m (send_onoff_request env i on s).1 =
        send_onoff_request-Kept env l m i on s v in
      branch (Kept l m) (is_ok (send_onoff_request env i on s).0) skip (clear_pending env i)
        (send_onoff_request env i on s).1 (λ o. h) (λ o. clear_pending-Kept env l m i _ h)

  pub toggle_once-Kept :
      (i addr : ℕ) (s : Provisioner) → Kept l m s → Kept l m (toggle_once env i addr s).1
  unfolding toggle_once
  toggle_once-Kept i addr s v =
      branch (Kept l m) (s.toggle_after_get_addr == addr) _ _ s
        (λ e. send_onoff-Kept env l m i _ none _ v) (λ e. v)

  pub note_status-Kept :
      (i present : ℕ) (s : Provisioner) → Kept l m s → Kept l m (note_status env i present s).1
  unfolding note_status
  note_status-Kept i present s v = branch (Kept l m) (ltb i env.max_nodes) _ _ _ (λ e. v) (λ e. v)

  pub record_get-Kept :
      (i : ℕ) (reply : GenericReply) (s : Provisioner)
      → Kept l m s
      → Kept l m (record_get env i reply s).1
  unfolding record_get
  record_get-Kept i reply s v =
      let t : Provisioner = (note_status env i reply.present_onoff s).1 in
      let h : Kept l m t = note_status-Kept i reply.present_onoff s v in
      let u : Provisioner =
        ((if ltb i env.max_nodes
            then modify (λ s. record s { get_retries = update s.get_retries i 0 })
            else skip)
          t).1 in
      let k : Kept l m u =
        branch (Kept l m) (ltb i env.max_nodes)
          (modify (λ s. record s { get_retries = update s.get_retries i 0 })) skip t (λ e. h)
          (λ e. h) in
      store_progress-Kept env l m _ _ _ _ _ (store_nodes-Kept env l m u k)

  pub record_set-Kept :
      (i : ℕ) (reply : GenericReply) (s : Provisioner)
      → Kept l m s
      → Kept l m (record_set env i reply s).1
  unfolding record_set
  record_set-Kept i reply s v =
      store_progress-Kept env l m _ _ _ _ _
        (store_nodes-Kept env l m _ (note_status-Kept i reply.present_onoff s v))

  pub resend_get-Kept : (i : ℕ) (s : Provisioner) → Kept l m s → Kept l m (resend_get env i s).1
  unfolding resend_get
  resend_get-Kept i s v =
      let t : Provisioner = (send_get env i s).1 in
      let h : Kept l m t = send_get-Kept env l m i s v in
      branch (Kept l m)
        (not (is_ok (send_get env i s).0) && (ltb i env.max_nodes && (t.pending i).in_flight))
        (clear_pending env i) skip t (λ e. clear_pending-Kept env l m i t h) (λ e. h)

  pub on_get_timeout-Kept :
      (i : ℕ) (s : Provisioner) → Kept l m s → Kept l m (on_get_timeout env i s).1
  unfolding on_get_timeout
  on_get_timeout-Kept i s v =
      branch (Kept l m) (ltb i env.max_nodes && (s.pending i).in_flight) _ _ s
        (λ e.
          branch (Kept l m) (leb farmely_max_retries (s.pending i).retries) _ _ s
            (λ f. clear_pending-Kept env l m i s v) (λ f. resend_get-Kept i _ v))
        (λ e.
          branch (Kept l m) (ltb i env.max_nodes) _ _ s
            (λ f.
              branch (Kept l m) (leb farmely_max_retries (s.get_retries i)) _ _ s (λ g. v)
                (λ g. resend_get-Kept i _ v))
            (λ f. resend_get-Kept i s v))

  pub on_set_timeout-Kept :
      (i : ℕ) (s : Provisioner) → Kept l m s → Kept l m (on_set_timeout env i s).1
  unfolding on_set_timeout
  on_set_timeout-Kept i s v =
      branch (Kept l m) (leb env.max_nodes i || not (s.pending i).in_flight) _ _ s (λ e. v)
        (λ e.
          branch (Kept l m) (leb farmely_max_retries (s.pending i).retries) _ _ s
            (λ f. clear_pending-Kept env l m i s v) (λ f. resend_onoff-Kept i _ v))
