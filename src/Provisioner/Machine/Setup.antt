-- ===== src/Provisioner/Machine/Setup.antt =====
-- The configuration of a new node, request by request, in `example_ble_mesh_config_client_cb` of
-- esp_ble_mesh/provisioner/main/main.c.
use esp32_ble_mesh.Base.{List, [], ap, arith, refl, some, ℕ, ◌++◌, ◌<◌, ◌∙◌, ◌∷◌, ◌≡◌}
use esp32_ble_mesh.Provisioner.ConfigClient.{
  ConfigEvent, ConfigReply, config_client_cb, on_config_event, on_config_get, on_config_set,
}
use esp32_ble_mesh.Provisioner.Machine.{Step, config, run, step}
use esp32_ble_mesh.Provisioner.Nodes.{get_node_info}
use esp32_ble_mesh.Provisioner.Nodes.Lookup.{get_node_info-lt}
use esp32_ble_mesh.Provisioner.Requests.{
  reset_config_retries, send_app_key_add, send_get, send_group_subscription, send_model_app_bind,
  start_get, start_group_subscription,
}
use esp32_ble_mesh.Provisioner.State.{
  Common, Env, Log, Opcode, Provisioner, Request, app_bind, app_key_add, composition_data_get,
  composition_get, gen_onoff_get, key_add, model_app_bind, model_sub_add, onoff_get, onoff_set,
  sent, sub_add,
}
use esp32_ble_mesh.Provisioner.Storage.{store_progress}

abbrev common_of : Request → Common
common_of (composition_get c page) = c
common_of (key_add c net_idx app_idx key) = c
common_of (app_bind c element app_idx model company) = c
common_of (sub_add c element group model company) = c
common_of (onoff_get c) = c
common_of (onoff_set c op_en onoff tid) = c

-- The requests that were sent: what they ask for, and of whom.
abbrev pub asked : Log → List (Opcode × ℕ)
asked [] = []
asked (sent r ∷ es) = ((common_of r).opcode, (common_of r).addr) ∷ asked es
asked (_ ∷ es) = asked es

-- From `s` to `t` the requests `l` were sent, and the table is as it was.
abbrev pub Asked : List (Opcode × ℕ) → Provisioner → Provisioner → Type 0
Asked l s t = (asked t.log ≡ l ++ asked s.log) × (t.nodes ≡ s.nodes)

-- A successful reply.
abbrev pub reply_ok : Opcode → ℕ → ConfigReply
reply_ok opcode addr = record { error_code = 0; opcode = opcode; addr = addr; status = 0 }

module _ (env : Env) where
  store_progress-Asked :
      (stage addr onoff error : ℕ) (s : Provisioner)
      → Asked [] s (store_progress env stage addr onoff error s).1
  unfolding store_progress
  store_progress-Asked stage addr onoff error s = ground arith

  module _ (i addr : ℕ) (s : Provisioner) (inside : i < env.max_nodes) where
    composition-Asked :
        Asked
          ((app_key_add, (s.nodes i).unicast) ∷ [])
          s
          (on_config_get env i (reply_ok composition_data_get addr) composition_data_get s).1
    unfolding on_config_get reset_config_retries store_progress send_app_key_add
    composition-Asked = ground arith

    app_key-Asked :
        Asked
          ((model_app_bind, (s.nodes i).unicast) ∷ [])
          s
          (on_config_set env i (reply_ok app_key_add addr) app_key_add s).1
    unfolding on_config_set reset_config_retries store_progress send_model_app_bind
    app_key-Asked = ground arith

    app_bind-Asked :
        Asked
          ((model_sub_add, (s.nodes i).unicast) ∷ [])
          s
          (on_config_set env i (reply_ok model_app_bind addr) model_app_bind s).1
    unfolding on_config_set reset_config_retries store_progress start_group_subscription
        send_group_subscription
    app_bind-Asked = ground arith

    sub_add-Asked :
        Asked
          ((gen_onoff_get, (s.nodes i).unicast) ∷ [])
          s
          (on_config_set env i (reply_ok model_sub_add addr) model_sub_add s).1
    unfolding on_config_set reset_config_retries start_get send_get
    sub_add-Asked = ground arith

  module _ (i addr : ℕ) where
    reply_handled :
        (event : ConfigEvent) (opcode : Opcode) (s : Provisioner)
        → get_node_info env s.nodes addr ≡ some i
        → (config_client_cb env event (reply_ok opcode addr) s).1
          ≡ (on_config_event env i event (reply_ok opcode addr) s).1
    unfolding config_client_cb
    reply_handled event opcode s e = rw e refl

    -- A successful reply of the node `i` reaches the switch over the events.
    pub step-reply :
        (event : ConfigEvent) (opcode : Opcode) (s : Provisioner)
        → get_node_info env s.nodes addr ≡ some i
        → step env (config event (reply_ok opcode addr)) s
          ≡ (on_config_event env i event (reply_ok opcode addr) s).1
    unfolding step
    step-reply event opcode s e = reply_handled event opcode s e

    -- One reply more: it is followed by one request.
    then-Asked :
        (event : ConfigEvent) (opcode : Opcode) (next : Opcode) (l : List (Opcode × ℕ))
        (s t : Provisioner)
        → get_node_info env s.nodes addr ≡ some i
        → ((u : Provisioner)
            → Asked
                ((next, (u.nodes i).unicast) ∷ [])
                u
                (on_config_event env i event (reply_ok opcode addr) u).1)
        → Asked l s t
        → Asked
            ((next, (s.nodes i).unicast) ∷ l)
            s
            (step env (config event (reply_ok opcode addr)) t)
    then-Asked event opcode next l s t e follows a =
        let found : get_node_info env t.nodes addr ≡ some i =
          ap (λ nodes. get_node_info env nodes addr) a.1 ∙ e in
        let same = step-reply event opcode t found in
        let b = follows t in
        (
          ap (λ u. asked u.log) same
              ∙ (b.0
                  ∙ ((λ k. (next, (a.1 k i).unicast) ∷ asked t.log)
                      ∙ ap (λ m. (next, (s.nodes i).unicast) ∷ m) a.0)),
          ap (λ u. u.nodes) same ∙ (b.1 ∙ a.1),
        )

-- The replies to the configuration requests of a new node, in their order.
abbrev pub setup : ℕ → List Step
setup addr =
    config ConfigEvent.get_state_event (reply_ok composition_data_get addr)
    ∷ config ConfigEvent.set_state_event (reply_ok app_key_add addr)
    ∷ config ConfigEvent.set_state_event (reply_ok model_app_bind addr)
    ∷ config ConfigEvent.set_state_event (reply_ok model_sub_add addr)
    ∷ []

-- A node of the table that answers every configuration request with success is asked, whatever the
-- stack answers to the calls and newest first: for its state, to subscribe to the group, to bind its
-- model, to add the application key; nothing else is sent and the table stays.
pub setup-Asked :
    (env : Env) (i addr : ℕ) (s : Provisioner)
    → get_node_info env s.nodes addr ≡ some i
    → let unicast = (s.nodes i).unicast in
      Asked
        ((gen_onoff_get, unicast)
          ∷ (model_sub_add, unicast)
          ∷ (model_app_bind, unicast)
          ∷ (app_key_add, unicast)
          ∷ [])
        s
        (run env (setup addr) s)
unfolding run on_config_event
setup-Asked env i addr s e =
    let unicast : ℕ = (s.nodes i).unicast in
    let inside = get_node_info-lt env s.nodes addr e in
    let after_1 =
      then-Asked env i addr ConfigEvent.get_state_event composition_data_get app_key_add [] s s e
        (λ u. composition-Asked env i addr u inside) (refl, refl) in
    let after_2 =
      then-Asked env i addr ConfigEvent.set_state_event app_key_add model_app_bind
        ((app_key_add, unicast) ∷ []) s _ e (λ u. app_key-Asked env i addr u inside) after_1 in
    let after_3 =
      then-Asked env i addr ConfigEvent.set_state_event model_app_bind model_sub_add
        ((model_app_bind, unicast) ∷ (app_key_add, unicast) ∷ []) s _ e
        (λ u. app_bind-Asked env i addr u inside) after_2 in
    then-Asked env i addr ConfigEvent.set_state_event model_sub_add gen_onoff_get
      ((model_sub_add, unicast) ∷ (model_app_bind, unicast) ∷ (app_key_add, unicast) ∷ []) s _ e
      (λ u. sub_add-Asked env i addr u inside) after_3
