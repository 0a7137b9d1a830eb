-- ===== src/MeshRoot/Rules.antt =====
-- A rule for the branches of the operations of internal_communication/main/mesh_main.c.
use esp32_ble_mesh.Base.{Bool, false, if◌then◌else◌, refl, true, ◌≡◌}
use esp32_ble_mesh.MeshRoot.State.{M, Root}

-- A branch, with the outcome of its test.
pub branch {ℓ} :
    {A : Type 0} (P : Root → Type ℓ) (b : Bool) (m n : M A) (s : Root)
    → (b ≡ true → P (m s).1)
    → (b ≡ false → P (n s).1)
    → P ((if b then m else n) s).1
branch P true m n s yes_case no_case = yes_case refl
branch P false m n s yes_case no_case = no_case refl
