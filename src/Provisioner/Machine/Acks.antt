-- ===== src/Provisioner/Machine/Acks.antt =====
-- The acknowledgements over the steps of esp_ble_mesh/provisioner/main/main.c.
use esp32_ble_mesh.Base.{
  ==_iff, Bool-cases, Option-cases, ap, arith, inl, inr, refl, some, true, ℕ, ◌&&◌, ◌==◌, ◌∙◌, ◌∷◌,
  ◌≡◌, ◌⊎◌,
}
use esp32_ble_mesh.Provisioner.Commands.{clear_pending}
use esp32_ble_mesh.Provisioner.Frame.Callbacks.{config_client_cb-Kept, provisioning_cb-Kept}
use esp32_ble_mesh.Provisioner.Frame.Commands.{
  bridge_command-Kept, bridge_sync-Kept, group_sync_round-Kept, mesh_yield_radio-Kept,
  recover_round-Kept,
}
use esp32_ble_mesh.Provisioner.Frame.Confirm.{
  acks_after, confirms, settle_get-Kept, settle_set-Kept,
}
use esp32_ble_mesh.Provisioner.Frame.Defs.{Acks, Kept, acks}
use esp32_ble_mesh.Provisioner.Frame.Operations.{clear_pending-Kept, store_progress-Kept}
use esp32_ble_mesh.Provisioner.Frame.Recorded.{
  acks_after_recorded, record_get-IsRecorded, record_set-IsRecorded,
}
use esp32_ble_mesh.Provisioner.Frame.Replies.{
  on_get_timeout-Kept, on_set_timeout-Kept, record_get-Kept, record_set-Kept, toggle_once-Kept,
}
use esp32_ble_mesh.Provisioner.GenericClient.{
  GenericEvent, GenericReply, generic_client_cb, is_set_unack, on_generic_error, on_generic_event,
  on_onoff_get, on_onoff_set, record_get, record_set,
}
use esp32_ble_mesh.Provisioner.Machine.{
  Step, command, config, generic, group_sync_turn, provisioning, recover_turn, step, sync,
  yield_radio,
}
use esp32_ble_mesh.Provisioner.Nodes.{device_id, get_node_info}
use esp32_ble_mesh.Provisioner.Rules.{branch_maybe}
use esp32_ble_mesh.Provisioner.State.{
  Env, Opcode, Provisioner, farmely_group_addr, gen_onoff_get, gen_onoff_set, skip,
}

-- A reply to a get or to a set.
abbrev pub Answers : GenericEvent → Opcode → Type 0
Answers event op =
    ((event ≡ GenericEvent.get_state_event) × (op ≡ gen_onoff_get))
    ⊎ ((event ≡ GenericEvent.set_state_event) × (op ≡ gen_onoff_set))

-- What a step does to the acknowledgements: `e` is a status reply, to a get or to a set, that confirms
-- the command in flight for the node `i`, whose device id and message id are acknowledged.
pub record Confirmation (env : Env) (e : Step) (s : Provisioner) : Type 0 where
  pub event : GenericEvent
  pub reply : GenericReply
  pub i : ℕ
  pub is_reply : e ≡ generic event reply
  pub answers : Answers event reply.opcode
  pub succeeded : reply.error_code ≡ 0
  pub from_node : get_node_info env s.nodes reply.addr ≡ some i
  pub flying : (s.pending i).in_flight ≡ true
  pub wanted : (s.pending i).desired_onoff ≡ reply.present_onoff
  pub acknowledged :
      acks (step env e s).log ≡ (device_id (s.nodes i), (s.pending i).message_id) ∷ acks s.log

-- Either no acknowledgement is sent, or one that a reply confirms.
abbrev pub Outcome : Env → Step → Provisioner → Type 0
Outcome env e s = (acks (step env e s).log ≡ acks s.log) ⊎ Confirmation env e s

module _ (env : Env) (s : Provisioner) (i : ℕ) (reply : GenericReply) where
  abbrev pub m : ℕ
  m = s.progress_stage

  -- The acknowledgements after a status reply.
  abbrev pub settled : Acks
  settled = acks_after env s i reply.present_onoff (acks s.log)

  pub on_onoff_set-settled : Kept settled m (on_onoff_set env i reply s).1
  unfolding on_onoff_set
  on_onoff_set-settled =
      let t : Provisioner = (record_set env i reply s).1 in
      rw
        (← acks_after_recorded env s t i _ (acks s.log)
          (record_set-IsRecorded env s i _ reply refl))
        (settle_set-Kept env (acks s.log) m i t
          (record_set-Kept env (acks s.log) m i reply s (refl, omega arith)))

  pub on_onoff_get-settled : Kept settled m (on_onoff_get env i reply s).1
  unfolding on_onoff_get
  on_onoff_get-settled =
      let t : Provisioner = (record_get env i reply s).1 in
      rw
        (← acks_after_recorded env s t i _ (acks s.log)
          (record_get-IsRecorded env s i _ reply refl))
        (toggle_once-Kept env _ m i reply.addr _ (
          settle_get-Kept env (acks s.log) m i t
            (record_get-Kept env (acks s.log) m i reply s (refl, omega arith))))

-- The ways through `example_ble_mesh_generic_client_cb`.
pub data ReplyCase (env : Env) (s t : Provisioner) (event : GenericEvent) (reply : GenericReply)
    : Type 0 where
  ignored : t ≡ s → ReplyCase env s t event reply
  errored : t ≡ (on_generic_error env reply s).1 → ReplyCase env s t event reply
  handled :
      (i : ℕ)
      → reply.error_code ≡ 0
      → get_node_info env s.nodes reply.addr ≡ some i
      → t ≡ (on_generic_event env i reply event reply.opcode s).1
      → ReplyCase env s t event reply

-- The reply's outcome is the step's.
module _ (env : Env) (s : Provisioner) (event : GenericEvent) (reply : GenericReply) where
  from_settled :
      (i : ℕ)
      → Answers event reply.opcode
      → reply.error_code ≡ 0
      → get_node_info env s.nodes reply.addr ≡ some i
      → acks (step env (generic event reply) s).log
        ≡ acks_after env s i reply.present_onoff (acks s.log)
      → Outcome env (generic event reply) s
  unfolding confirms
  from_settled i kind ok_code known after =
      elim (Bool-cases (confirms env s i reply.present_onoff)) [
        | inl e ↦ inr (record {
          event = event;
          reply = reply;
          i = i;
          is_reply = refl;
          answers = kind;
          succeeded = ok_code;
          from_node = known;
          flying = ground arith;
          wanted = ground arith;
          acknowledged = after ∙ rw (e);
        })
        | inr e ↦ inl (after ∙ rw (e))
      ]

  -- Each event of a known node.
  event-Kept :
      (i : ℕ) (ev : GenericEvent) (op : Opcode)
      → (acks (on_generic_event env i reply ev op s).1.log ≡ acks s.log)
        ⊎ (Answers ev op
            × (acks (on_generic_event env i reply ev op s).1.log
                ≡ acks_after env s i reply.present_onoff (acks s.log)))
  unfolding on_generic_event
  event-Kept i GenericEvent.get_state_event gen_onoff_get =
      inr (inl (refl, refl), (on_onoff_get-settled env s i reply).0)
  event-Kept i GenericEvent.set_state_event gen_onoff_set =
      inr (inr (refl, refl), (on_onoff_set-settled env s i reply).0)
  event-Kept i GenericEvent.timeout_event gen_onoff_get =
      inl (on_get_timeout-Kept env (acks s.log) 0 i s (refl, omega arith)).0
  event-Kept i GenericEvent.timeout_event gen_onoff_set =
      inl (on_set_timeout-Kept env (acks s.log) 0 i s (refl, omega arith)).0
  event-Kept i _ _ = inl refl

  pub reply_case : ReplyCase env s (generic_client_cb env event reply s).1 event reply
  unfolding generic_client_cb
  reply_case = elim (Bool-cases (is_set_unack reply.opcode && (reply.addr == farmely_group_addr))) [
    | inl e ↦ ignored (rw e)
    | inr e ↦ elim (Bool-cases (reply.error_code == 0)) [
      | inr f ↦ errored (rw (e, f))
      | inl f ↦ elim (Option-cases (get_node_info env s.nodes reply.addr)) [
        | inl g ↦ ignored (rw (e, f, g))
        | inr (i, g) ↦ handled i ((==_iff _ _).0 f) g (rw (e, f, g))
      ]
    ]
  ]

  of_case :
      ReplyCase env s (generic_client_cb env event reply s).1 event reply
      → Outcome env (generic event reply) s
  unfolding step on_generic_error
  of_case (ignored e) = inl (ap (λ t. acks t.log) e)
  of_case (errored e) = inl (
      ap (λ t. acks t.log) e
      ∙ (store_progress-Kept env (acks s.log) 0 _ _ _ _ _ (
          branch_maybe (Kept (acks s.log) 0) (get_node_info env s.nodes reply.addr) skip
            (clear_pending env) s (λ g. (refl, omega arith))
            (λ i g. clear_pending-Kept env (acks s.log) 0 i s (refl, omega arith)))).0)
  of_case (handled i zero_code known e) = elim (event-Kept i event reply.opcode) [
    | inl k ↦ inl (ap (λ t. acks t.log) e ∙ k)
    | inr (kind, k) ↦ from_settled i kind zero_code known (ap (λ t. acks t.log) e ∙ k)
  ]

-- An acknowledgement is sent only by a reply to a get or a set that reports the wanted state of the
-- command in flight for the node, and then it is the one of that command; every other step, whatever
-- the libraries answer, sends none.
pub step-acks : (env : Env) (e : Step) (s : Provisioner) → Outcome env e s
unfolding step
step-acks env (generic event reply) s = of_case env s event reply (reply_case env s event reply)
step-acks env (provisioning event) s =
    inl (provisioning_cb-Kept env (acks s.log) 0 event s (refl, omega arith)).0
step-acks env (config event reply) s =
    inl (config_client_cb-Kept env (acks s.log) 0 event reply s (refl, omega arith)).0
step-acks env (command device on id) s =
    inl (bridge_command-Kept env (acks s.log) 0 device on id s (refl, omega arith)).0
step-acks env sync s = inl (bridge_sync-Kept env (acks s.log) 0 s (refl, omega arith)).0
step-acks env (yield_radio yield) s =
    inl (mesh_yield_radio-Kept env (acks s.log) 0 yield s (refl, omega arith)).0
step-acks env (group_sync_turn i) s =
    inl (group_sync_round-Kept env (acks s.log) 0 i s (refl, omega arith)).0
step-acks env (recover_turn i) s =
    inl (recover_round-Kept env (acks s.log) 0 i s (refl, omega arith)).0
