-- ===== src/OnoffNode/Board.antt =====
-- The LED of esp_ble_mesh/onoff_models/onoff_server/main/board.c, which has one.
use esp32_ble_mesh.Base.{if◌then◌else◌, ℕ, ◌==◌}
use esp32_ble_mesh.OnoffNode.State.{M, get, modify, skip, ◌>>=◌, ◌>>◌}

-- `board_led_write` on a board with a plain LED.
unfoldable pub board_led_write : {F : Type 0} → ℕ → M F (Unit {0})
board_led_write onoff = modify (λ s. record s { level = onoff })

-- `board_led_operation(LED_G, onoff)`.
unfoldable pub board_led_operation : {F : Type 0} → ℕ → M F (Unit {0})
unfolding board_led_write
board_led_operation onoff = do
  s ← get
  if onoff == s.previous
      then skip
      else (do board_led_write onoff; modify (λ s. record s { previous = onoff }))

-- `board_init`.
unfoldable pub board_init : {F : Type 0} → M F (Unit {0})
unfolding board_led_write
board_init = do board_led_write 0; modify (λ s. record s { previous = 0 })
