-- ===== src/Provisioner/Frame/Commands.antt =====
-- The acknowledgements and the stage over the commands and the tasks of
-- esp_ble_mesh/provisioner/main/main.c.
use esp32_ble_mesh.Base.{Bool, List, Option, codes, eq_bytes, leb, not, ℕ, ◌%◌, ◌+◌, ◌==◌, ◌||◌}
use esp32_ble_mesh.Provisioner.Commands.{
  bridge_command, bridge_sync, clear_all_pending, clear_pending, finish_group, group_count,
  group_mark, group_sync_round, is_registered, mesh_yield_radio, node_with_id, recover_round,
  send_group_onoff, send_group_request, send_group_set, send_onoff, take_pending,
}
use esp32_ble_mesh.Provisioner.Frame.Defs.{Acks, Kept}
use esp32_ble_mesh.Provisioner.Frame.Operations.{
  clear_pending-Kept, send_get-Kept, send_onoff_request-Kept, start_get-Kept,
  start_group_subscription-Kept,
}
use esp32_ble_mesh.Provisioner.Requests.{
  send_get, send_onoff_request, start_get, start_group_subscription,
}
use esp32_ble_mesh.Provisioner.Rules.{branch, branch_maybe, for_from_keeps}
use esp32_ble_mesh.Provisioner.State.{
  Env, EspErr, Provisioner, created, emit, enabled_prov, group_sync, is_ok, no_mem, perform, pure,
  recover_nodes, skip, ◌>>◌,
}

module _ (env : Env) (l : Acks) (m : ℕ) where
  pub take_pending-Kept :
      (i : ℕ) (on : Bool) (id : Option (List ℕ)) (s : Provisioner)
      → Kept l m s
      → Kept l m (take_pending env i on id s).1
  unfolding take_pending
  take_pending-Kept i on id s v = v

  -- A cleared entry is written when the request could not be sent.
  pub send_onoff-Kept :
      (i : ℕ) (on : Bool) (id : Option (List ℕ)) (s : Provisioner)
      → Kept l m s
      → Kept l m (send_onoff env i on id s).1
  unfolding send_onoff
  send_onoff-Kept i on id s v =
      branch (Kept l m) (leb env.max_nodes i) _ _ s (λ e. v)
        (λ e.
          branch (Kept l m) ((s.pending i).in_flight) _ _ s (λ f. v)
            (λ f.
              let t : Provisioner = (take_pending env i on id s).1 in
              let sent_Inv : Kept l m (send_onoff_request env i on t).1 =
                send_onoff_request-Kept env l m i on t (take_pending-Kept i on id s v) in
              branch (Kept l m) (is_ok (send_onoff_request env i on t).0) _ _ _ (λ o. sent_Inv)
                (λ o. clear_pending-Kept env l m i _ sent_Inv)))

  pub clear_all_pending-Kept : (s : Provisioner) → Kept l m s → Kept l m (clear_all_pending env s).1
  unfolding clear_all_pending
  clear_all_pending-Kept s v =
      for_from_keeps (Kept l m) env.max_nodes 0 (clear_pending env) s (clear_pending-Kept env l m) v

  finish_group-Kept :
      (err : EspErr) (s : Provisioner) → Kept l m s → Kept l m (finish_group env err s).1
  unfolding finish_group
  finish_group-Kept err s v =
      branch (Kept l m) (is_ok err) skip (clear_all_pending env) s (λ o. v)
        (λ o. clear_all_pending-Kept s v)

  pub send_group_set-Kept :
      (on : Bool) (s : Provisioner) → Kept l m s → Kept l m (send_group_set env on s).1
  unfolding send_group_set send_group_request
  send_group_set-Kept on s v =
      let t : Provisioner = record s { tid = (s.tid + 1) % 256 } in
      branch (Kept l m) (is_ok (perform env (created group_sync) t).0)
        (send_group_request env on s.tid) (do clear_all_pending env; pure no_mem)
        (perform env (created group_sync) t).1 (λ o. finish_group-Kept _ _ (v))
        (λ o. clear_all_pending-Kept _ (v))

  pub send_group_onoff-Kept :
      (on : Bool) (id : Option (List ℕ)) (s : Provisioner)
      → Kept l m s
      → Kept l m (send_group_onoff env on id s).1
  unfolding send_group_onoff group_mark
  send_group_onoff-Kept on id s v =
      branch_maybe (Kept l m) (group_count env env.max_nodes 0 0 s) _ _ s (λ e. v)
        (λ n e.
          branch (Kept l m) (n == 0) _ _ s (λ z. v)
            (λ z. send_group_set-Kept on _ (
              for_from_keeps (Kept l m) env.max_nodes 0 (group_mark env on id) s
                (λ j t h.
                  branch (Kept l m) (is_registered env t j) _ _ t
                    (λ r. take_pending-Kept j on id t h) (λ r. h))
                v)))

  pub bridge_command-Kept :
      (device : List ℕ) (on : Bool) (id : Option (List ℕ)) (s : Provisioner)
      → Kept l m s
      → Kept l m (bridge_command env device on id s).1
  unfolding bridge_command
  bridge_command-Kept device on id s v =
      branch (Kept l m) (eq_bytes device (codes "*")) _ _ s (λ e. send_group_onoff-Kept on id s v)
        (λ e.
          branch_maybe (Kept l m) (node_with_id env s.nodes device) _ _ s (λ f. v)
            (λ i f. send_onoff-Kept i on id s v))

  pub bridge_sync-Kept : (s : Provisioner) → Kept l m s → Kept l m (bridge_sync env s).1
  unfolding bridge_sync
  bridge_sync-Kept s v =
      for_from_keeps (Kept l m) env.max_nodes 0 _ s
        (λ j t h.
          branch (Kept l m) (is_registered env t j) _ _ t (λ r. start_get-Kept env l m j t h)
            (λ r. h))
        v

  pub group_sync_round-Kept :
      (i : ℕ) (s : Provisioner) → Kept l m s → Kept l m (group_sync_round env skip i s).1
  unfolding group_sync_round
  group_sync_round-Kept i s v =
      branch (Kept l m) (not (s.pending i).in_flight || not (is_registered env s i)) _ _ s (λ e. v)
        (λ e.
          branch (Kept l m) (is_ok (send_get env i s).0) skip (clear_pending env i)
            (send_get env i s).1 (λ o. send_get-Kept env l m i s v)
            (λ o. clear_pending-Kept env l m i _ (send_get-Kept env l m i s v)))

  pub recover_round-Kept :
      (i : ℕ) (s : Provisioner) → Kept l m s → Kept l m (recover_round env skip i s).1
  unfolding recover_round
  recover_round-Kept i s v =
      branch (Kept l m) (is_registered env s i) _ _ s
        (λ e.
          let t : Provisioner = (start_group_subscription env i s).1 in
          let h : Kept l m t = start_group_subscription-Kept env l m i s v in
          branch (Kept l m) (is_ok (start_group_subscription env i s).0) skip
            (do start_get env i; skip) t (λ o. h) (λ o. start_get-Kept env l m i t h))
        (λ e. v)

  pub mesh_yield_radio-Kept :
      (yield : Bool) (s : Provisioner) → Kept l m s → Kept l m (mesh_yield_radio env yield s).1
  unfolding mesh_yield_radio
  mesh_yield_radio-Kept yield s v =
      branch (Kept l m) yield _ _ s (λ e. v)
        (λ e.
          branch (Kept l m) (is_ok (perform env enabled_prov s).0) (emit (created recover_nodes))
            skip (perform env enabled_prov s).1 (λ o. v) (λ o. v))
