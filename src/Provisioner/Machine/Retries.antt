-- ===== src/Provisioner/Machine/Retries.antt =====
-- The repetitions of a configuration request that times out, in
-- `example_ble_mesh_config_client_cb` of esp_ble_mesh/provisioner/main/main.c.
use mathlib.Core.Path.{subst}
use esp32_ble_mesh.Base.{
  Bool, List, [], ap, arith, false, replicate, replicate-snoc, some, suc, sym, true, update, zero,
  ℕ, ◌++◌, ◌+◌, ◌-◌, ◌<◌, ◌∙◌, ◌∷◌, ◌≡◌, ◌≤◌,
}
use esp32_ble_mesh.Provisioner.ConfigClient.{ConfigEvent, on_config_event, on_config_timeout, retry}
use esp32_ble_mesh.Provisioner.Invariant.Defs.{Inv}
use esp32_ble_mesh.Provisioner.Machine.{Step, config, run, step}
use esp32_ble_mesh.Provisioner.Machine.Setup.{Asked, asked, reply_ok, step-reply}
use esp32_ble_mesh.Provisioner.Nodes.{get_node_info}
use esp32_ble_mesh.Provisioner.Nodes.Lookup.{get_node_info-lt}
use esp32_ble_mesh.Provisioner.Requests.{
  send_app_key_add, send_composition_get, send_group_subscription, send_model_app_bind,
  take_config_retry,
}
use esp32_ble_mesh.Provisioner.State.{
  Env, Opcode, Provisioner, app_key_add, app_key_status, composition_data_get,
  composition_data_status, farmely_max_retries, gen_onoff_get, gen_onoff_set, gen_onoff_set_unack,
  model_app_bind, model_sub_add, other_opcode,
}

-- The requests that are repeated.
abbrev pub is_repeated : Opcode → Bool
is_repeated composition_data_get = true
is_repeated app_key_add = true
is_repeated model_app_bind = true
is_repeated model_sub_add = true
is_repeated _ = false

-- From `s` to `t` the requests `l` were sent, and `n` is the retry counter of the node `i`.
abbrev pub Counted : ℕ → ℕ → List (Opcode × ℕ) → Provisioner → Provisioner → Type 0
Counted i n l s t = Asked l s t × (t.config_retries i ≡ n)

module _ (env : Env) (i : ℕ) (inside : i < env.max_nodes) where
  retry_next :
      (opcode : Opcode) (s : Provisioner)
      → is_repeated opcode ≡ true
      → s.config_retries i < 3
      → Counted i
          (s.config_retries i + 1)
          ((opcode, (s.nodes i).unicast) ∷ [])
          s
          (on_config_timeout env i opcode s).1
  unfolding on_config_timeout retry take_config_retry send_composition_get send_app_key_add
      send_model_app_bind send_group_subscription update
  retry_next composition_data_get s e h = ground arith
  retry_next app_key_add s e h = ground arith
  retry_next model_app_bind s e h = ground arith
  retry_next model_sub_add s e h = ground arith
  retry_next gen_onoff_get s e h = cc
  retry_next gen_onoff_set s e h = cc
  retry_next gen_onoff_set_unack s e h = cc
  retry_next composition_data_status s e h = cc
  retry_next app_key_status s e h = cc
  retry_next (other_opcode n) s e h = cc

  retry_last :
      (opcode : Opcode) (s : Provisioner)
      → is_repeated opcode ≡ true
      → 3 ≤ s.config_retries i
      → Counted i 0 [] s (on_config_timeout env i opcode s).1
  unfolding on_config_timeout retry take_config_retry update
  retry_last composition_data_get s e h = ground arith
  retry_last app_key_add s e h = ground arith
  retry_last model_app_bind s e h = ground arith
  retry_last model_sub_add s e h = ground arith
  retry_last gen_onoff_get s e h = cc
  retry_last gen_onoff_set s e h = cc
  retry_last gen_onoff_set_unack s e h = cc
  retry_last composition_data_status s e h = cc
  retry_last app_key_status s e h = cc
  retry_last (other_opcode n) s e h = cc

abbrev pub config_timeout : Opcode → ℕ → Step
config_timeout opcode addr = config ConfigEvent.timeout_event (reply_ok opcode addr)

module _ (env : Env) (i addr : ℕ) (opcode : Opcode) (repeated : is_repeated opcode ≡ true) where
  timeout_step :
      (s : Provisioner)
      → get_node_info env s.nodes addr ≡ some i
      → step env (config_timeout opcode addr) s ≡ (on_config_timeout env i opcode s).1
  unfolding on_config_event
  timeout_step s e = step-reply env i addr ConfigEvent.timeout_event opcode s e

  -- With `k` retries left.
  repeat_all :
      (k : ℕ) (s : Provisioner)
      → get_node_info env s.nodes addr ≡ some i
      → s.config_retries i + k ≡ 3
      → Counted i 0
          (replicate k (opcode, (s.nodes i).unicast))
          s
          (run env (replicate (suc k) (config_timeout opcode addr)) s)
  unfolding run
  repeat_all zero s e budget =
      subst (Counted i 0 [] s) (sym (timeout_step s e))
        (retry_last env i (get_node_info-lt env s.nodes addr e) opcode s repeated (omega arith))
  repeat_all (suc k) s e budget =
      let u : Provisioner = step env (config_timeout opcode addr) s in
      let (once, counted) =
        subst (Counted i (s.config_retries i + 1) ((opcode, (s.nodes i).unicast) ∷ []) s)
          (sym (timeout_step s e))
          (retry_next env i (get_node_info-lt env s.nodes addr e) opcode s repeated
            (omega arith)) in
      let (rest, done) =
        repeat_all k u (ap (λ nodes. get_node_info env nodes addr) once.1 ∙ e)
          (omega (arith, counted)) in
      let request : Opcode × ℕ = (opcode, (s.nodes i).unicast) in
      (
        (
          rest.0
              ∙ ((λ j. replicate k (opcode, (once.1 j i).unicast) ++ asked u.log)
                  ∙ (ap (λ l. replicate k request ++ l) once.0
                      ∙ replicate-snoc k request (asked s.log))),
          rest.1 ∙ once.1,
        ),
        done,
      )

-- A configuration request whose replies keep timing out is repeated exactly as often as the node has
-- retries left, to the node itself, whatever the stack answers; the time-out after that sends nothing,
-- and starts the counter anew for the next request.
pub config_timeouts_repeat :
    (env : Env) (i addr : ℕ) (opcode : Opcode) (s : Provisioner)
    → is_repeated opcode ≡ true
    → get_node_info env s.nodes addr ≡ some i
    → Inv s
    → let left : ℕ = farmely_max_retries - s.config_retries i in
      Counted i 0
        (replicate left (opcode, (s.nodes i).unicast))
        s
        (run env (replicate (suc left) (config_timeout opcode addr)) s)
config_timeouts_repeat env i addr opcode s repeated e v =
    repeat_all env i addr opcode repeated (farmely_max_retries - s.config_retries i) s e
      (omega (arith, v.configs_capped i))
