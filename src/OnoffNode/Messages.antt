-- ===== src/OnoffNode/Messages.antt =====
-- The on/off server of esp_ble_mesh/onoff_models/onoff_server/main/main.c.
use esp32_ble_mesh.Base.{Bool, false, if◌then◌else◌, suc, true, zero, ℕ, ◌+◌, ◌-◌, ◌==◌}
use esp32_ble_mesh.OnoffNode.Board.{board_led_operation}
use esp32_ble_mesh.OnoffNode.State.{
  Context, Flash, M, Opcode, Place, Sdk, emit, gen_onoff_get, gen_onoff_set, gen_onoff_set_unack,
  get, modify, other_opcode, published_status, sent_status, skip, ◌>>=◌, ◌>>◌,
}
use esp32_ble_mesh.OnoffNode.Storage.{store_node_state}

-- `board_led_operation(led_state[i].pin, onoff)`; past the one entry of `led_state`, where the C code
-- would read out of the array, nothing.
unfoldable pub led_at : {F : Type 0} → ℕ → ℕ → M F (Unit {0})
led_at i onoff = if i == 0 then board_led_operation onoff else skip

-- The loop over the elements, from `i`, of the `n` that are left.
unfoldable pub led_loop : {F : Type 0} → ℕ → ℕ → ℕ → ℕ → ℕ → M F (Unit {0})
unfolding led_at
led_loop zero i dst primary onoff = skip
led_loop (suc n) i dst primary onoff = do
  if dst == primary + i then led_at i onoff else skip
  led_loop n (suc i) dst primary onoff

-- `example_change_led_state`.
unfoldable pub change_led_state : {F : Type 0} → Sdk → Place → Context → ℕ → M F (Unit {0})
unfolding led_at
change_led_state sdk place ctx onoff =
    if sdk.is_unicast ctx.recv_dst
    then led_loop place.elem_count 0 ctx.recv_dst place.primary onoff
    else (if sdk.is_group ctx.recv_dst
        then (if ctx.subscribed then led_at (place.element - place.primary) onoff else skip)
        else (if ctx.recv_dst == 0xFFFF
            then led_at (place.element - place.primary) onoff
            else skip))

unfoldable pub send_status : {F : Type 0} → M F (Unit {0})
send_status = do s ← get; emit (sent_status s.server_onoff)

-- The case of the two set messages, with the reply or without it.
unfoldable pub handle_set : {F : Type 0} → Sdk → Place → Context → Bool → ℕ → M F (Unit {0})
unfolding send_status
handle_set sdk place ctx replies onoff = do
  modify (λ s. record s { server_onoff = onoff })
  if replies then send_status else skip
  s ← get
  emit (published_status s.server_onoff)
  change_led_state sdk place ctx s.server_onoff

-- `example_handle_gen_onoff_msg`; both values of `set->op_en` store the same.
unfoldable pub handle_gen_onoff_msg :
    {F : Type 0} → Sdk → Place → Context → Opcode → ℕ → M F (Unit {0})
unfolding send_status
handle_gen_onoff_msg sdk place ctx gen_onoff_get onoff = send_status
handle_gen_onoff_msg sdk place ctx gen_onoff_set onoff = handle_set sdk place ctx true onoff
handle_gen_onoff_msg sdk place ctx gen_onoff_set_unack onoff = handle_set sdk place ctx false onoff
handle_gen_onoff_msg sdk place ctx other_opcode onoff = skip

-- The events of the generic server; a set message carries the value.
pub data ServerEvent : Type 0 where
  state_change : Context → (onoff : ℕ) → ServerEvent
  recv_get_msg : Context → ServerEvent
  recv_set_msg : Context → (onoff : ℕ) → ServerEvent
  unknown_event : ServerEvent

abbrev pub is_set : Opcode → Bool
is_set gen_onoff_get = false
is_set gen_onoff_set = true
is_set gen_onoff_set_unack = true
is_set other_opcode = false

abbrev pub is_get : Opcode → Bool
is_get gen_onoff_get = true
is_get gen_onoff_set = false
is_get gen_onoff_set_unack = false
is_get other_opcode = false

-- `example_ble_mesh_generic_server_cb`.
unfoldable pub generic_server_cb :
    {F : Type 0} → Flash F → Sdk → Place → ServerEvent → M F (Unit {0})
generic_server_cb nvs sdk place (state_change ctx onoff) =
    if is_set ctx.recv_op
    then (do change_led_state sdk place ctx onoff; store_node_state nvs sdk 7 place.primary onoff)
    else skip
generic_server_cb nvs sdk place (recv_get_msg ctx) =
    if is_get ctx.recv_op then handle_gen_onoff_msg sdk place ctx ctx.recv_op 0 else skip
generic_server_cb nvs sdk place (recv_set_msg ctx onoff) =
    if is_set ctx.recv_op then handle_gen_onoff_msg sdk place ctx ctx.recv_op onoff else skip
generic_server_cb nvs sdk place unknown_event = skip
