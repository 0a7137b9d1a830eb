-- ===== src/Provisioner/Frame/Recorded.antt =====
-- The fields that a status reply records and that its settling reads, in
-- esp_ble_mesh/provisioner/main/main.c.
use esp32_ble_mesh.Base.{
  ap, ltb, refl, true, update, update_self, ℕ, ◌%◌, ◌&&◌, ◌+◌, ◌==◌, ◌^◌, ◌≡◌,
}
use esp32_ble_mesh.Provisioner.Frame.Confirm.{acks_after, confirms}
use esp32_ble_mesh.Provisioner.Frame.Defs.{Acks}
use esp32_ble_mesh.Provisioner.GenericClient.{GenericReply, note_status, record_get, record_set}
use esp32_ble_mesh.Provisioner.Rules.{branch}
use esp32_ble_mesh.Provisioner.State.{
  Env, Provisioner, emit, is_ok, modify, opened_nvs, perform, skip, stored_nodes,
}
use esp32_ble_mesh.Provisioner.Storage.{store_nodes, store_progress}

-- The pending commands are untouched, and the node has the reported state and its UUID.
abbrev pub IsRecorded : Provisioner → ℕ → ℕ → Provisioner → Type 0
IsRecorded s i present t =
    (t.pending ≡ s.pending) × ((t.nodes i).onoff ≡ present) × ((t.nodes i).uuid ≡ (s.nodes i).uuid)

module _ (env : Env) (s : Provisioner) (i present : ℕ) where
  abbrev P : Provisioner → Type 0
  P = IsRecorded s i present

  note_status-IsRecorded : P (note_status env i present s).1
  unfolding note_status
  note_status-IsRecorded =
      let t : Provisioner = record s {
        nodes = update s.nodes i (record (s.nodes i) { onoff = present });
      } in
      let e : t.nodes i ≡ record (s.nodes i) { onoff = present } = update_self s.nodes i _ in
      let h : P t = (refl, ap (λ node. node.onoff) e, ap (λ node. node.uuid) e) in
      branch P (ltb i env.max_nodes)
        (modify (λ s. record s {
          status_version = update s.status_version i ((s.status_version i + 1) % 2 ^ 32);
        }))
        skip t (λ e. h) (λ e. h)

  store_nodes-IsRecorded : (t : Provisioner) → P t → P (store_nodes env t).1
  unfolding store_nodes
  store_nodes-IsRecorded t h =
      branch P (is_ok (env.answer t.log (opened_nvs true))) (emit (stored_nodes t.nodes)) skip
        (perform env (opened_nvs true) t).1 (λ e. h) (λ e. h)

  store_progress-IsRecorded :
      (stage addr onoff error : ℕ) (t : Provisioner)
      → P t
      → P (store_progress env stage addr onoff error t).1
  unfolding store_progress
  store_progress-IsRecorded stage addr onoff error t h =
      branch P (ltb stage t.progress_stage && (error == 0)) _ _ t (λ e. h)
        (λ e. branch P (is_ok (env.answer t.log (opened_nvs true))) _ _ _ (λ o. h) (λ o. h))

  pub record_set-IsRecorded :
      (reply : GenericReply) → reply.present_onoff ≡ present → P (record_set env i reply s).1
  unfolding record_set
  record_set-IsRecorded reply e =
      rw e (store_progress-IsRecorded _ _ _ _ _ (store_nodes-IsRecorded _ note_status-IsRecorded))

  pub record_get-IsRecorded :
      (reply : GenericReply) → reply.present_onoff ≡ present → P (record_get env i reply s).1
  unfolding record_get
  record_get-IsRecorded reply e =
      let t : Provisioner = (note_status env i present s).1 in
      rw e (
        store_progress-IsRecorded _ _ _ _ _ (
          store_nodes-IsRecorded _ (
            branch P (ltb i env.max_nodes)
              (modify (λ s. record s { get_retries = update s.get_retries i 0 })) skip t
              (λ e. note_status-IsRecorded) (λ e. note_status-IsRecorded))))

-- So the acknowledgements after the reply are told by the state before it.
pub acks_after_recorded :
    (env : Env) (s t : Provisioner) (i present : ℕ) (l : Acks)
    → IsRecorded s i present t
    → acks_after env t i (t.nodes i).onoff l ≡ acks_after env s i present l
unfolding confirms
acks_after_recorded env s t i present l h = rw (h.0, h.1, h.2)
