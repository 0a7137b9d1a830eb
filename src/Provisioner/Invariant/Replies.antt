-- ===== src/Provisioner/Invariant/Replies.antt =====
-- The invariant over `example_ble_mesh_generic_client_cb` of
-- esp_ble_mesh/provisioner/main/main.c.
use esp32_ble_mesh.Base.{
  Bool, arith, false, if◌then◌else◌, leb, ltb, none, not, true, update, ℕ, ◌%◌, ◌&&◌, ◌+◌, ◌==◌,
  ◌||◌, ◌≡◌, ◌≤◌,
}
use esp32_ble_mesh.Provisioner.Commands.{clear_pending}
use esp32_ble_mesh.Provisioner.GenericClient.{
  GenericEvent, GenericReply, confirm, generic_client_cb, is_set_unack, note_status,
  on_generic_error, on_generic_event, on_get_timeout, on_onoff_get, on_onoff_set, on_set_timeout,
  record_get, record_set, resend_get, resend_onoff, set_retries, settle_get, settle_set,
  toggle_once,
}
use esp32_ble_mesh.Provisioner.Invariant.Commands.{send_onoff-Inv}
use esp32_ble_mesh.Provisioner.Invariant.Defs.{Inv, write_get_retries, write_pending}
use esp32_ble_mesh.Provisioner.Invariant.Operations.{
  clear_pending-Inv, send_get-Inv, send_onoff_request-Inv, store_nodes-Inv, store_progress-Inv,
}
use esp32_ble_mesh.Provisioner.Nodes.{get_node_info}
use esp32_ble_mesh.Provisioner.Requests.{send_get, send_onoff_request, to_bool}
use esp32_ble_mesh.Provisioner.Rules.{branch, branch_maybe}
use esp32_ble_mesh.Provisioner.State.{
  Env, Opcode, Provisioner, farmely_group_addr, farmely_max_retries, gen_onoff_get, gen_onoff_set,
  is_ok, modify, skip,
}

module _ (env : Env) where
  resend_onoff-Inv : (i : ℕ) (s : Provisioner) → Inv s → Inv (resend_onoff env i s).1
  unfolding resend_onoff
  resend_onoff-Inv i s v =
      let on : Bool = to_bool (s.pending i).desired_onoff in
      let h : Inv (send_onoff_request env i on s).1 = send_onoff_request-Inv env i on s v in
      branch Inv (is_ok (send_onoff_request env i on s).0) skip (clear_pending env i)
        (send_onoff_request env i on s).1 (λ o. h) (λ o. clear_pending-Inv env i _ h)

  -- A counter that is written while the command is in flight.
  set_retries-Inv :
      (i n : ℕ) (s : Provisioner)
      → (s.pending i).in_flight ≡ true
      → n ≤ farmely_max_retries
      → Inv s
      → Inv (set_retries env i n s).1
  unfolding set_retries
  set_retries-Inv i n s flying h v = write_pending s i _ v (record {
    cleared = λ e. cc flying;
    retries_capped = h;
    desired_bit = (v.commands i).desired_bit;
    id_fits = (v.commands i).id_fits;
  })

  confirm-Inv : (i : ℕ) (s : Provisioner) → Inv s → Inv (confirm env i s).1
  unfolding confirm
  confirm-Inv i s v = clear_pending-Inv env i _ v

  settle_get-Inv : (i : ℕ) (s : Provisioner) → Inv s → Inv (settle_get env i s).1
  unfolding settle_get
  settle_get-Inv i s v =
      branch Inv (ltb i env.max_nodes && (s.pending i).in_flight) _ _ s
        (λ e.
          branch Inv ((s.pending i).desired_onoff == (s.nodes i).onoff) _ _ s
            (λ f. confirm-Inv i s v)
            (λ f. resend_onoff-Inv i _ (set_retries-Inv i 0 s (ground arith) (omega arith) v)))
        (λ e. v)

  -- One retry more, as long as the limit is not reached.
  count_retry-Inv :
      (i : ℕ) (s : Provisioner)
      → (s.pending i).in_flight ≡ true
      → leb farmely_max_retries (s.pending i).retries ≡ false
      → Inv s
      → Inv (set_retries env i (((s.pending i).retries + 1) % 256) s).1
  count_retry-Inv i s flying more v = set_retries-Inv i _ s flying (ground arith) v

  settle_set-Inv : (i : ℕ) (s : Provisioner) → Inv s → Inv (settle_set env i s).1
  unfolding settle_set
  settle_set-Inv i s v =
      branch Inv (ltb i env.max_nodes && (s.pending i).in_flight) _ _ s
        (λ e.
          branch Inv ((s.pending i).desired_onoff == (s.nodes i).onoff) _ _ s
            (λ f. confirm-Inv i s v)
            (λ f.
              branch Inv (leb farmely_max_retries (s.pending i).retries) _ _ s
                (λ g. clear_pending-Inv env i s v)
                (λ g. resend_onoff-Inv i _ (count_retry-Inv i s (ground arith) g v))))
        (λ e. v)

  toggle_once-Inv : (i addr : ℕ) (s : Provisioner) → Inv s → Inv (toggle_once env i addr s).1
  unfolding toggle_once
  toggle_once-Inv i addr s v =
      branch Inv (s.toggle_after_get_addr == addr) _ _ s (λ e. send_onoff-Inv env i _ none _ v)
        (λ e. v)

  -- The status is noted in fields that the invariant does not read.
  note_status-Inv : (i present : ℕ) (s : Provisioner) → Inv s → Inv (note_status env i present s).1
  unfolding note_status
  note_status-Inv i present s v = branch Inv (ltb i env.max_nodes) _ _ _ (λ e. v) (λ e. v)

  record_get-Inv :
      (i : ℕ) (reply : GenericReply) (s : Provisioner) → Inv s → Inv (record_get env i reply s).1
  unfolding record_get
  record_get-Inv i reply s v =
      let t : Provisioner = (note_status env i reply.present_onoff s).1 in
      let h : Inv t = note_status-Inv i reply.present_onoff s v in
      let u : Provisioner =
        ((if ltb i env.max_nodes
            then modify (λ s. record s { get_retries = update s.get_retries i 0 })
            else skip)
          t).1 in
      let k : Inv u =
        branch Inv (ltb i env.max_nodes)
          (modify (λ s. record s { get_retries = update s.get_retries i 0 })) skip t
          (λ e. write_get_retries t i 0 h (omega arith)) (λ e. h) in
      store_progress-Inv env _ _ _ _ _ (store_nodes-Inv env u k)

  record_set-Inv :
      (i : ℕ) (reply : GenericReply) (s : Provisioner) → Inv s → Inv (record_set env i reply s).1
  unfolding record_set
  record_set-Inv i reply s v =
      store_progress-Inv env _ _ _ _ _
        (store_nodes-Inv env _ (note_status-Inv i reply.present_onoff s v))

  resend_get-Inv : (i : ℕ) (s : Provisioner) → Inv s → Inv (resend_get env i s).1
  unfolding resend_get
  resend_get-Inv i s v =
      let t : Provisioner = (send_get env i s).1 in
      let h : Inv t = send_get-Inv env i s v in
      branch Inv
        (not (is_ok (send_get env i s).0) && (ltb i env.max_nodes && (t.pending i).in_flight))
        (clear_pending env i) skip t (λ e. clear_pending-Inv env i t h) (λ e. h)

  on_get_timeout-Inv : (i : ℕ) (s : Provisioner) → Inv s → Inv (on_get_timeout env i s).1
  unfolding on_get_timeout
  on_get_timeout-Inv i s v =
      branch Inv (ltb i env.max_nodes && (s.pending i).in_flight) _ _ s
        (λ e.
          branch Inv (leb farmely_max_retries (s.pending i).retries) _ _ s
            (λ f. clear_pending-Inv env i s v)
            (λ f. resend_get-Inv i _ (count_retry-Inv i s (ground arith) f v)))
        (λ e.
          branch Inv (ltb i env.max_nodes) _ _ s
            (λ f.
              branch Inv (leb farmely_max_retries (s.get_retries i)) _ _ s
                (λ g. write_get_retries s i 0 v (omega arith))
                (λ g. resend_get-Inv i _ (write_get_retries s i _ v (ground arith))))
            (λ f. resend_get-Inv i s v))

  on_set_timeout-Inv : (i : ℕ) (s : Provisioner) → Inv s → Inv (on_set_timeout env i s).1
  unfolding on_set_timeout
  on_set_timeout-Inv i s v =
      branch Inv (leb env.max_nodes i || not (s.pending i).in_flight) _ _ s (λ e. v)
        (λ e.
          branch Inv (leb farmely_max_retries (s.pending i).retries) _ _ s
            (λ f. clear_pending-Inv env i s v)
            (λ f. resend_onoff-Inv i _ (count_retry-Inv i s (ground arith) f v)))

  on_generic_event-Inv :
      (i : ℕ) (reply : GenericReply) (event : GenericEvent) (op : Opcode) (s : Provisioner)
      → Inv s
      → Inv (on_generic_event env i reply event op s).1
  unfolding on_generic_event on_onoff_get on_onoff_set
  on_generic_event-Inv i reply GenericEvent.get_state_event gen_onoff_get s v =
      toggle_once-Inv i reply.addr _ (settle_get-Inv i _ (record_get-Inv i reply s v))
  on_generic_event-Inv i reply GenericEvent.set_state_event gen_onoff_set s v =
      settle_set-Inv i _ (record_set-Inv i reply s v)
  on_generic_event-Inv i reply GenericEvent.timeout_event gen_onoff_get s v =
      on_get_timeout-Inv i s v
  on_generic_event-Inv i reply GenericEvent.timeout_event gen_onoff_set s v =
      on_set_timeout-Inv i s v
  on_generic_event-Inv i reply _ _ s v = v

  pub generic_client_cb-Inv :
      (event : GenericEvent) (reply : GenericReply) (s : Provisioner)
      → Inv s
      → Inv (generic_client_cb env event reply s).1
  unfolding generic_client_cb on_generic_error
  generic_client_cb-Inv event reply s v =
      branch Inv (is_set_unack reply.opcode && (reply.addr == farmely_group_addr)) _ _ s (λ e. v)
        (λ e.
          branch Inv (not (reply.error_code == 0)) _ _ s
            (λ f. store_progress-Inv env _ _ _ _ _ (
              branch_maybe Inv (get_node_info env s.nodes reply.addr) skip (clear_pending env) s
                (λ g. v) (λ i g. clear_pending-Inv env i s v)))
            (λ f.
              branch_maybe Inv (get_node_info env s.nodes reply.addr) _ _ s (λ g. v)
                (λ i g. on_generic_event-Inv i reply event reply.opcode s v)))
