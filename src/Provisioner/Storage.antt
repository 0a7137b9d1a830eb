-- ===== src/Provisioner/Storage.antt =====
-- What esp_ble_mesh/provisioner/main/main.c keeps in NVS. The answer of `nvs_open` is the
-- environment's; the writes behind it are one effect, since the code reads none of their answers.
use esp32_ble_mesh.Base.{Option, false, if◌then◌else◌, ltb, none, some, true, ℕ, ◌&&◌, ◌==◌}
use esp32_ble_mesh.Provisioner.State.{
  Env, M, NodeInfo, emit, get, is_ok, modify, no_node, opened_nvs, perform, skip, stored_nodes,
  stored_progress, ◌>>=◌, ◌>>◌,
}

module _ (env : Env) where
  -- The writes of `farmely_store_progress`, once the stage is settled.
  write_progress : ℕ → ℕ → ℕ → M (Unit {0})
  write_progress addr onoff error = do
    opened ← perform env (opened_nvs true)
    s ← get
    if is_ok opened then emit (stored_progress s.progress_stage addr onoff error) else skip

  -- `farmely_store_progress`. `error` is the bit pattern of the `int32_t`.
  unfoldable pub store_progress : ℕ → ℕ → ℕ → ℕ → M (Unit {0})
  unfolding write_progress
  store_progress stage addr onoff error = do
    s ← get
    if ltb stage s.progress_stage && (error == 0) then skip else (do
      modify (λ s. record s {
        progress_stage = if ltb s.progress_stage stage then stage else s.progress_stage;
      })
      write_progress addr onoff error)

  -- `farmely_store_nodes`.
  unfoldable pub store_nodes : M (Unit {0})
  store_nodes = do
    opened ← perform env (opened_nvs true)
    s ← get
    if is_ok opened then emit (stored_nodes s.nodes) else skip

-- What NVS holds under "stage", and under "nodes" with the blob's size in entries.
pub record Saved : Type 0 where
  pub stage : Option ℕ
  pub blob : Option (ℕ × (ℕ → NodeInfo))

-- `nvs_get_blob(handle, "nodes", nodes, &size) != ESP_OK || size != sizeof(nodes)` clears the table.
abbrev loaded_nodes : Env → Option (ℕ × (ℕ → NodeInfo)) → ℕ → NodeInfo
loaded_nodes env none = λ i. no_node
loaded_nodes env (some (size, nodes)) = if size == env.max_nodes then nodes else λ i. no_node

abbrev loaded_stage : Option ℕ → ℕ → ℕ
loaded_stage none stage = stage
loaded_stage (some saved) stage = saved

module _ (env : Env) where
  -- `farmely_load_state`, given what NVS holds.
  unfoldable pub load_state : Saved → M (Unit {0})
  load_state saved = do
    opened ← perform env (opened_nvs false)
    if is_ok opened
        then modify (λ s. record s {
          progress_stage = loaded_stage saved.stage s.progress_stage;
          nodes = loaded_nodes env saved.blob;
        })
        else skip
