-- ===== src/Provisioner/Frame/Defs.antt =====
-- The acknowledgements that esp_ble_mesh/provisioner/main/main.c sent, and the stage that it
-- reached.
use esp32_ble_mesh.Base.{List, [], ℕ, ◌∷◌, ◌≡◌, ◌≤◌}
use esp32_ble_mesh.Provisioner.State.{Log, Provisioner, ack}

-- The device and the message id of each acknowledgement, newest first.
abbrev pub Acks : Type 0
Acks = List (List ℕ × List ℕ)

abbrev pub acks : Log → Acks
acks [] = []
acks (ack device id ∷ es) = (device, id) ∷ acks es
acks (_ ∷ es) = acks es

-- The acknowledgements are still `l`, and the stage is at least `n`.
abbrev pub Kept : Acks → ℕ → Provisioner → Type 0
Kept l n s = (acks s.log ≡ l) × (n ≤ s.progress_stage)
