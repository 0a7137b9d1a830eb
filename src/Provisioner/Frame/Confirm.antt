-- ===== src/Provisioner/Frame/Confirm.antt =====
-- The settling of a status reply, which acknowledges commands, in
-- `example_ble_mesh_generic_client_cb` of esp_ble_mesh/provisioner/main/main.c.
use esp32_ble_mesh.Base.{Bool, ap, if◌then◌else◌, leb, ltb, ℕ, ◌&&◌, ◌==◌, ◌∷◌}
use esp32_ble_mesh.Provisioner.Frame.Defs.{Acks, Kept}
use esp32_ble_mesh.Provisioner.Frame.Operations.{clear_pending-Kept}
use esp32_ble_mesh.Provisioner.Frame.Replies.{resend_onoff-Kept}
use esp32_ble_mesh.Provisioner.GenericClient.{confirm, settle_get, settle_set}
use esp32_ble_mesh.Provisioner.Nodes.{device_id}
use esp32_ble_mesh.Provisioner.Rules.{branch}
use esp32_ble_mesh.Provisioner.State.{Env, Provisioner, farmely_max_retries}

module _ (env : Env) where
  -- The command in flight for the node `i` has the wanted state `present`.
  unfoldable pub confirms : Provisioner → ℕ → ℕ → Bool
  confirms s i present =
      (ltb i env.max_nodes && (s.pending i).in_flight) && ((s.pending i).desired_onoff == present)

  -- The acknowledgements after a status reply.
  abbrev pub acks_after : Provisioner → ℕ → ℕ → Acks → Acks
  acks_after s i present l =
      if confirms s i present then (device_id (s.nodes i), (s.pending i).message_id) ∷ l else l

  module _ (l : Acks) (m : ℕ) where
    confirm-Kept :
        (i : ℕ) (s : Provisioner)
        → Kept l m s
        → Kept ((device_id (s.nodes i), (s.pending i).message_id) ∷ l) m (confirm env i s).1
    unfolding confirm
    confirm-Kept i s v =
        clear_pending-Kept env ((device_id (s.nodes i), (s.pending i).message_id) ∷ l) m i _
          (ap (λ k. (device_id (s.nodes i), (s.pending i).message_id) ∷ k) v.0, v.1)

    pub settle_get-Kept :
        (i : ℕ) (s : Provisioner)
        → Kept l m s
        → Kept (acks_after s i (s.nodes i).onoff l) m (settle_get env i s).1
    unfolding settle_get confirms
    settle_get-Kept i s v =
        branch (Kept (acks_after s i (s.nodes i).onoff l) m)
          (ltb i env.max_nodes && (s.pending i).in_flight) _ _ s
          (λ e.
            branch (Kept (acks_after s i (s.nodes i).onoff l) m)
              ((s.pending i).desired_onoff == (s.nodes i).onoff) _ _ s
              (λ f. rw (e, f) (confirm-Kept i s v))
              (λ f. rw (e, f) (resend_onoff-Kept env l m i _ v)))
          (λ e. rw e v)

    pub settle_set-Kept :
        (i : ℕ) (s : Provisioner)
        → Kept l m s
        → Kept (acks_after s i (s.nodes i).onoff l) m (settle_set env i s).1
    unfolding settle_set confirms
    settle_set-Kept i s v =
        branch (Kept (acks_after s i (s.nodes i).onoff l) m)
          (ltb i env.max_nodes && (s.pending i).in_flight) _ _ s
          (λ e.
            branch (Kept (acks_after s i (s.nodes i).onoff l) m)
              ((s.pending i).desired_onoff == (s.nodes i).onoff) _ _ s
              (λ f. rw (e, f) (confirm-Kept i s v))
              (λ f.
                rw (e, f)
                  (branch (Kept l m) (leb farmely_max_retries (s.pending i).retries) _ _ s
                    (λ g. clear_pending-Kept env l m i s v)
                    (λ g. resend_onoff-Kept env l m i _ v))))
          (λ e. rw e v)
