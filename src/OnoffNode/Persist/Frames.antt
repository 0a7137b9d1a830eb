-- ===== src/OnoffNode/Persist/Frames.antt =====
-- The calls of esp_ble_mesh/onoff_models/onoff_server/main that touch only the LED and the server.
use esp32_ble_mesh.Base.{
  Bool, false, if◌then◌else◌, refl, suc, true, zero, ℕ, ◌+◌, ◌-◌, ◌==◌, ◌∙◌, ◌≡◌,
}
use esp32_ble_mesh.OnoffNode.Board.{board_led_operation, board_led_write}
use esp32_ble_mesh.OnoffNode.Machine.{before_callback}
use esp32_ble_mesh.OnoffNode.Messages.{
  ServerEvent, change_led_state, handle_gen_onoff_msg, handle_set, is_set, led_at, led_loop,
  recv_get_msg, recv_set_msg, send_status, state_change, unknown_event,
}
use esp32_ble_mesh.OnoffNode.Persist.Laws.{View, view}
use esp32_ble_mesh.OnoffNode.State.{
  Context, Flash, M, Node, Opcode, Place, Sdk, gen_onoff_get, gen_onoff_set, gen_onoff_set_unack,
  other_opcode, skip,
}

module _ {F : Type 0} where
  pub branch :
      {A : Type 0} (b : Bool) (m n : M F A) (s : Node F) (v : View F)
      → view (m s).1 ≡ v
      → view (n s).1 ≡ v
      → view ((if b then m else n) s).1 ≡ v
  branch true m n s v yes_case no_case = yes_case
  branch false m n s v yes_case no_case = no_case

  pub view-board_led_operation :
      (onoff : ℕ) (s : Node F) → view (board_led_operation onoff s).1 ≡ view s
  unfolding board_led_operation board_led_write
  view-board_led_operation onoff s = branch (onoff == s.previous) skip _ s _ refl refl

  view-led_at : (i onoff : ℕ) (s : Node F) → view (led_at i onoff s).1 ≡ view s
  unfolding led_at
  view-led_at i onoff s = branch (i == 0) _ skip s _ (view-board_led_operation onoff s) refl

  view-led_loop :
      (n i dst primary onoff : ℕ) (s : Node F) → view (led_loop n i dst primary onoff s).1 ≡ view s
  unfolding led_loop
  view-led_loop zero i dst primary onoff s = refl
  view-led_loop (suc n) i dst primary onoff s =
      view-led_loop n (suc i) dst primary onoff
        ((if dst == primary + i then led_at i onoff else skip) s).1
      ∙ branch (dst == primary + i) (led_at i onoff) skip s _ (view-led_at i onoff s) refl

  pub view-change_led_state :
      (sdk : Sdk) (place : Place) (ctx : Context) (onoff : ℕ) (s : Node F)
      → view (change_led_state sdk place ctx onoff s).1 ≡ view s
  unfolding change_led_state
  view-change_led_state sdk place ctx onoff s =
      let here = led_at {F = F} (place.element - place.primary) onoff in
      let lit = view-led_at (place.element - place.primary) onoff s in
      let to_group = branch ctx.subscribed here skip s (view s) lit refl in
      let to_all = branch (ctx.recv_dst == 0xFFFF) here skip s (view s) lit refl in
      let rest = branch (sdk.is_group ctx.recv_dst) _ _ s (view s) to_group to_all in
      branch (sdk.is_unicast ctx.recv_dst) _ _ s (view s)
        (view-led_loop place.elem_count 0 ctx.recv_dst place.primary onoff s) rest

  view-handle_set :
      (sdk : Sdk) (place : Place) (ctx : Context) (replies : Bool) (onoff : ℕ) (s : Node F)
      → view (handle_set sdk place ctx replies onoff s).1 ≡ view s
  unfolding handle_set send_status
  view-handle_set sdk place ctx true onoff s = view-change_led_state sdk place ctx onoff _
  view-handle_set sdk place ctx false onoff s = view-change_led_state sdk place ctx onoff _

  pub view-handle_gen_onoff_msg :
      (sdk : Sdk) (place : Place) (ctx : Context) (op : Opcode) (onoff : ℕ) (s : Node F)
      → view (handle_gen_onoff_msg sdk place ctx op onoff s).1 ≡ view s
  unfolding handle_gen_onoff_msg send_status
  view-handle_gen_onoff_msg sdk place ctx gen_onoff_get onoff s = refl
  view-handle_gen_onoff_msg sdk place ctx gen_onoff_set onoff s =
      view-handle_set sdk place ctx true onoff s
  view-handle_gen_onoff_msg sdk place ctx gen_onoff_set_unack onoff s =
      view-handle_set sdk place ctx false onoff s
  view-handle_gen_onoff_msg sdk place ctx other_opcode onoff s = refl

  pub view-before_callback :
      (nvs : Flash F) (sdk : Sdk) (e : ServerEvent) (s : Node F)
      → view (before_callback nvs sdk e s).1 ≡ view s
  view-before_callback nvs sdk (state_change ctx onoff) s =
      branch (is_set ctx.recv_op) _ skip s (view s) refl refl
  view-before_callback nvs sdk (recv_get_msg ctx) s = refl
  view-before_callback nvs sdk (recv_set_msg ctx onoff) s = refl
  view-before_callback nvs sdk unknown_event s = refl
