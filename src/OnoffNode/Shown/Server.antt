-- ===== src/OnoffNode/Shown/Server.antt =====
-- The LED calls of esp_ble_mesh/onoff_models/onoff_server/main/main.c beside the server's state.
use esp32_ble_mesh.Base.{
  Bool, false, if◌then◌else◌, refl, suc, true, zero, ℕ, ◌+◌, ◌-◌, ◌==◌, ◌∙◌, ◌≡◌,
}
use esp32_ble_mesh.OnoffNode.Board.{board_led_operation, board_led_write}
use esp32_ble_mesh.OnoffNode.Messages.{change_led_state, led_at, led_loop}
use esp32_ble_mesh.OnoffNode.State.{Context, M, Node, Place, Sdk, skip}

module _ {F : Type 0} where
  branch-server :
      (b : Bool) (m n : M F (Unit {0})) (s : Node F) {v : ℕ}
      → (m s).1.server_onoff ≡ v
      → (n s).1.server_onoff ≡ v
      → ((if b then m else n) s).1.server_onoff ≡ v
  branch-server true m n s yes_case no_case = yes_case
  branch-server false m n s yes_case no_case = no_case

  pub server-board_led_operation :
      (onoff : ℕ) (s : Node F) → (board_led_operation onoff s).1.server_onoff ≡ s.server_onoff
  unfolding board_led_operation board_led_write
  server-board_led_operation onoff s = branch-server (onoff == s.previous) skip _ s refl refl

  server-led_at : (i onoff : ℕ) (s : Node F) → (led_at i onoff s).1.server_onoff ≡ s.server_onoff
  unfolding led_at
  server-led_at i onoff s =
      branch-server (i == 0) (board_led_operation onoff) skip s (server-board_led_operation onoff s)
        refl

  server-led_loop :
      (n i dst primary onoff : ℕ) (s : Node F)
      → (led_loop n i dst primary onoff s).1.server_onoff ≡ s.server_onoff
  unfolding led_loop
  server-led_loop zero i dst primary onoff s = refl
  server-led_loop (suc n) i dst primary onoff s =
      server-led_loop n (suc i) dst primary onoff
        ((if dst == primary + i then led_at i onoff else skip) s).1
      ∙ branch-server (dst == primary + i) (led_at i onoff) skip s (server-led_at i onoff s) refl

  pub server-change_led_state :
      (sdk : Sdk) (place : Place) (ctx : Context) (onoff : ℕ) (s : Node F)
      → (change_led_state sdk place ctx onoff s).1.server_onoff ≡ s.server_onoff
  unfolding change_led_state
  server-change_led_state sdk place ctx onoff s =
      let here = led_at {F = F} (place.element - place.primary) onoff in
      let lit = server-led_at (place.element - place.primary) onoff s in
      let to_group = branch-server ctx.subscribed here skip s lit refl in
      let to_all = branch-server (ctx.recv_dst == 0xFFFF) here skip s lit refl in
      let rest = branch-server (sdk.is_group ctx.recv_dst) _ _ s to_group to_all in
      branch-server (sdk.is_unicast ctx.recv_dst)
        (led_loop place.elem_count 0 ctx.recv_dst place.primary onoff) _ s
        (server-led_loop place.elem_count 0 ctx.recv_dst place.primary onoff s) rest
