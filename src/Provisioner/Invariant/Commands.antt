-- ===== src/Provisioner/Invariant/Commands.antt =====
-- The invariant over the commands and the tasks of esp_ble_mesh/provisioner/main/main.c.
use esp32_ble_mesh.Base.{
  Bool, List, Option, arith, codes, eq_bytes, leb, length-take, not, or_empty, ℕ, ◌%◌, ◌+◌, ◌==◌,
  ◌||◌,
}
use esp32_ble_mesh.Provisioner.Commands.{
  bridge_command, bridge_sync, clear_all_pending, clear_pending, finish_group, group_count,
  group_mark, group_sync_round, is_registered, mesh_yield_radio, node_with_id, recover_round,
  send_group_onoff, send_group_request, send_group_set, send_onoff, take_pending,
}
use esp32_ble_mesh.Provisioner.Invariant.Defs.{Inv, to_byte-le, write_pending, write_tid}
use esp32_ble_mesh.Provisioner.Invariant.Operations.{
  clear_pending-Inv, send_get-Inv, send_onoff_request-Inv, start_get-Inv,
  start_group_subscription-Inv,
}
use esp32_ble_mesh.Provisioner.Requests.{
  send_get, send_onoff_request, start_get, start_group_subscription,
}
use esp32_ble_mesh.Provisioner.Rules.{branch, branch_maybe, for_from_keeps}
use esp32_ble_mesh.Provisioner.State.{
  Env, EspErr, Provisioner, created, emit, enabled_prov, group_sync, is_ok, no_mem, perform, pure,
  recover_nodes, skip, ◌>>◌,
}

module _ (env : Env) where
  -- Only an entry that is not in flight, or registered and scanned by the group command, is taken.
  pub take_pending-Inv :
      (i : ℕ) (on : Bool) (id : Option (List ℕ)) (s : Provisioner)
      → Inv s
      → Inv (take_pending env i on id s).1
  unfolding take_pending
  take_pending-Inv i on id s v = write_pending s i _ v (record {
    cleared = λ e. cc;
    retries_capped = (v.commands i).retries_capped;
    desired_bit = to_byte-le on;
    id_fits = omega (arith, length-take 95 (or_empty id));
  })

  -- A cleared entry is written when the request could not be sent.
  pub send_onoff-Inv :
      (i : ℕ) (on : Bool) (id : Option (List ℕ)) (s : Provisioner)
      → Inv s
      → Inv (send_onoff env i on id s).1
  unfolding send_onoff
  send_onoff-Inv i on id s v =
      branch Inv (leb env.max_nodes i) _ _ s (λ e. v)
        (λ e.
          branch Inv ((s.pending i).in_flight) _ _ s (λ f. v)
            (λ f.
              let t : Provisioner = (take_pending env i on id s).1 in
              let sent_Inv : Inv (send_onoff_request env i on t).1 =
                send_onoff_request-Inv env i on t (take_pending-Inv i on id s v) in
              branch Inv (is_ok (send_onoff_request env i on t).0) _ _ _ (λ o. sent_Inv)
                (λ o. clear_pending-Inv env i _ sent_Inv)))

  pub clear_all_pending-Inv : (s : Provisioner) → Inv s → Inv (clear_all_pending env s).1
  unfolding clear_all_pending
  clear_all_pending-Inv s v =
      for_from_keeps Inv env.max_nodes 0 (clear_pending env) s (clear_pending-Inv env) v

  finish_group-Inv : (err : EspErr) (s : Provisioner) → Inv s → Inv (finish_group env err s).1
  unfolding finish_group
  finish_group-Inv err s v =
      branch Inv (is_ok err) skip (clear_all_pending env) s (λ o. v)
        (λ o. clear_all_pending-Inv s v)

  pub send_group_set-Inv : (on : Bool) (s : Provisioner) → Inv s → Inv (send_group_set env on s).1
  unfolding send_group_set send_group_request
  send_group_set-Inv on s v =
      let t : Provisioner = record s { tid = (s.tid + 1) % 256 } in
      branch Inv (is_ok (perform env (created group_sync) t).0) (send_group_request env on s.tid)
        (do clear_all_pending env; pure no_mem) (perform env (created group_sync) t).1
        (λ o. finish_group-Inv _ _ (write_tid s v)) (λ o. clear_all_pending-Inv _ (write_tid s v))

  pub send_group_onoff-Inv :
      (on : Bool) (id : Option (List ℕ)) (s : Provisioner)
      → Inv s
      → Inv (send_group_onoff env on id s).1
  unfolding send_group_onoff group_mark
  send_group_onoff-Inv on id s v =
      branch_maybe Inv (group_count env env.max_nodes 0 0 s) _ _ s (λ e. v)
        (λ n e.
          branch Inv (n == 0) _ _ s (λ z. v)
            (λ z. send_group_set-Inv on _ (
              for_from_keeps Inv env.max_nodes 0 (group_mark env on id) s
                (λ j t h.
                  branch Inv (is_registered env t j) _ _ t (λ r. take_pending-Inv j on id t h)
                    (λ r. h))
                v)))

  pub bridge_command-Inv :
      (device : List ℕ) (on : Bool) (id : Option (List ℕ)) (s : Provisioner)
      → Inv s
      → Inv (bridge_command env device on id s).1
  unfolding bridge_command
  bridge_command-Inv device on id s v =
      branch Inv (eq_bytes device (codes "*")) _ _ s (λ e. send_group_onoff-Inv on id s v)
        (λ e.
          branch_maybe Inv (node_with_id env s.nodes device) _ _ s (λ f. v)
            (λ i f. send_onoff-Inv i on id s v))

  pub bridge_sync-Inv : (s : Provisioner) → Inv s → Inv (bridge_sync env s).1
  unfolding bridge_sync
  bridge_sync-Inv s v =
      for_from_keeps Inv env.max_nodes 0 _ s
        (λ j t h. branch Inv (is_registered env t j) _ _ t (λ r. start_get-Inv env j t h) (λ r. h))
        v

  pub group_sync_round-Inv :
      (i : ℕ) (s : Provisioner) → Inv s → Inv (group_sync_round env skip i s).1
  unfolding group_sync_round
  group_sync_round-Inv i s v =
      branch Inv (not (s.pending i).in_flight || not (is_registered env s i)) _ _ s (λ e. v)
        (λ e.
          branch Inv (is_ok (send_get env i s).0) skip (clear_pending env i) (send_get env i s).1
            (λ o. send_get-Inv env i s v) (λ o. clear_pending-Inv env i _ (send_get-Inv env i s v)))

  pub recover_round-Inv : (i : ℕ) (s : Provisioner) → Inv s → Inv (recover_round env skip i s).1
  unfolding recover_round
  recover_round-Inv i s v =
      branch Inv (is_registered env s i) _ _ s
        (λ e.
          let t : Provisioner = (start_group_subscription env i s).1 in
          let h : Inv t = start_group_subscription-Inv env i s v in
          branch Inv (is_ok (start_group_subscription env i s).0) skip (do start_get env i; skip) t
            (λ o. h) (λ o. start_get-Inv env i t h))
        (λ e. v)

  pub mesh_yield_radio-Inv :
      (yield : Bool) (s : Provisioner) → Inv s → Inv (mesh_yield_radio env yield s).1
  unfolding mesh_yield_radio
  mesh_yield_radio-Inv yield s v =
      branch Inv yield _ _ s (λ e. v)
        (λ e.
          branch Inv (is_ok (perform env enabled_prov s).0) (emit (created recover_nodes)) skip
            (perform env enabled_prov s).1 (λ o. v) (λ o. v))
