-- ===== src/Provisioner/Nodes/Identity.antt =====
-- The device ids of esp_ble_mesh/provisioner/main/main.c under which the cloud addresses the
-- nodes.
use esp32_ble_mesh.Base.{
  List, [], ap, arith, get_or, hex_byte, hex_digit-injective, suc, ℕ, ◌%◌, ◌/◌, ◌<◌, ◌∷◌, ◌≡◌,
}
use esp32_ble_mesh.Provisioner.Nodes.{device_id}
use esp32_ble_mesh.Provisioner.State.{NodeInfo}

-- Bytes are told apart by their two hexadecimal digits.
hex_byte-injective : (a b : ℕ) → a < 256 → b < 256 → hex_byte a ≡ hex_byte b → a ≡ b
hex_byte-injective a b ha hb h = omega (
  arith,
  hex_digit-injective (a / 16) (b / 16) (ap (λ l. get_or l 0 0) h),
  hex_digit-injective (a % 16) (b % 16) (ap (λ l. get_or l 1 0) h),
)

-- The part of the UUID that the device id shows.
abbrev pub shown : NodeInfo → ℕ × ℕ × ℕ
shown node = (get_or node.uuid 5 0, get_or node.uuid 6 0, get_or node.uuid 7 0)

abbrev pub ShowsBytes : NodeInfo → Type 0
ShowsBytes node =
    (get_or node.uuid 5 0 < 256) × (get_or node.uuid 6 0 < 256) × (get_or node.uuid 7 0 < 256)

abbrev digits_at : ℕ → List ℕ → List ℕ
digits_at k l = get_or l k 0 ∷ get_or l (suc k) 0 ∷ []

-- Two nodes have the same device id only if bytes 5 to 7 of their UUIDs, which are below 256, agree.
pub device_id-injective :
    (a b : NodeInfo) → ShowsBytes a → ShowsBytes b → device_id a ≡ device_id b → shown a ≡ shown b
device_id-injective a b ha hb h =
    let first = hex_byte-injective (shown a).0 (shown b).0 ha.0 hb.0 (ap (digits_at 5) h) in
    let second = hex_byte-injective (shown a).1 (shown b).1 ha.1 hb.1 (ap (digits_at 7) h) in
    let third = hex_byte-injective (shown a).2 (shown b).2 ha.2 hb.2 (ap (digits_at 9) h) in
    λ i. (first i, second i, third i)
