-- ===== src/OnoffNode/Storage.antt =====
-- What esp_ble_mesh/onoff_models/onoff_server/main/main.c keeps in NVS.
use esp32_ble_mesh.Base.{Option, if◌then◌else◌, ltb, none, not, some, ℕ, ◌&&◌}
use esp32_ble_mesh.OnoffNode.Board.{board_led_operation}
use esp32_ble_mesh.OnoffNode.State.{
  Flash, M, Sdk, addr_key, get, modify, onoff_key, skip, stage_key, ◌>>=◌, ◌>>◌,
}

-- What `nvs_get_*` leaves in a variable: a key that is not there leaves it as it was.
abbrev pub or_else : Option ℕ → ℕ → ℕ
or_else none old = old
or_else (some saved) old = saved

abbrev pub write_back : {F : Type 0} → Option F → (F → F) → M F (Unit {0})
write_back none change = skip
write_back (some opened) change = modify (λ s. record s { flash = change opened })

module _ {F : Type 0} (nvs : Flash F) where
  -- `farmely_load_node_state`.
  unfoldable pub load_node_state : M F (Unit {0})
  load_node_state = do
    s ← get
    if nvs.open_read s.flash
        then modify (λ s. record s {
          stage = or_else (nvs.get_key s.flash stage_key) s.stage;
          addr = or_else (nvs.get_key s.flash addr_key) s.addr;
          restored_onoff = or_else (nvs.get_key s.flash onoff_key) s.restored_onoff;
        })
        else skip

  -- The writes of `farmely_store_node_state`.
  abbrev pub save : ℕ → ℕ → ℕ → F → F
  save stage addr onoff f =
      nvs.commit
        (nvs.set_key (nvs.set_key (nvs.set_key f stage_key stage) addr_key addr) onoff_key onoff)

  -- `farmely_store_node_state`.
  unfoldable pub store_node_state : Sdk → ℕ → ℕ → ℕ → M F (Unit {0})
  store_node_state sdk stage addr onoff = do
    s ← get
    let kept_stage = if ltb stage s.stage then s.stage else stage
    let kept_addr = if not (sdk.is_unicast addr) && sdk.is_unicast s.addr then s.addr else addr
    modify (λ s. record s { stage = kept_stage; addr = kept_addr; restored_onoff = onoff })
    write_back (nvs.open_write s.flash) (save kept_stage kept_addr onoff)

  -- `farmely_reset_node_state`.
  unfoldable pub reset_node_state : M F (Unit {0})
  reset_node_state = do
    modify (λ s. record s { stage = 0; addr = 0; restored_onoff = 0; server_onoff = 0 })
    board_led_operation 0
    s ← get
    write_back (nvs.open_write s.flash) (λ f. nvs.commit (nvs.erase_all f))
