-- ===== src/Gateway/Button.antt =====
-- `prov_button_task` of esp_ble_mesh/provisioner/main/gateway_bridge.c: the button that resets
-- the Wi-Fi.
pub mod Hold
use esp32_ble_mesh.Base.{
  Bool, List, Option, [], false, if◌then◌else◌, none, some, true, ℕ, ◌%◌, ◌+◌, ◌==◌, ◌^◌, ◌∷◌,
}

-- FARMELY_PROV_BUTTON_HOLD_MS and FARMELY_PROV_BUTTON_POLL_MS.
abbrev pub hold_ms : ℕ
hold_ms = 3000

abbrev pub poll_ms : ℕ
poll_ms = 100

-- One poll: the new counter (a `uint32_t`), or none for the restart. The button is active low.
unfoldable pub poll : (held_ms : ℕ) → (level : Bool) → Option ℕ
poll held_ms true = some 0
poll held_ms false =
    let held = (held_ms + poll_ms) % 2 ^ 32 in if held == hold_ms then none else some held

-- The loop over the levels that are read: the counter after them, or none once it has restarted.
unfoldable pub poll_all : ℕ → List Bool → Option ℕ
poll_all held_ms [] = some held_ms
poll_all held_ms (level ∷ levels) = elim (poll held_ms level) [
  | none ↦ none
  | some held ↦ poll_all held levels
]

-- `prov_button_task`, on the levels that are read.
unfoldable pub button_restarts : List Bool → Bool
unfolding poll_all poll
button_restarts levels = elim (poll_all 0 levels) [ none ↦ true | some held ↦ false ]
