-- ===== src/Ota/Hex.antt =====
-- The hexadecimal digests of internal_communication/main/mesh_ota.c.
use esp32_ble_mesh.Base.{
  Bool, List, Option, [], if◌then◌else◌, leb, length, none, some, true, ℕ, ◌&&◌, ◌*◌, ◌+◌, ◌-◌,
  ◌==◌, ◌||◌, ◌∷◌,
}

-- `isxdigit` in the C locale.
abbrev pub is_xdigit : ℕ → Bool
is_xdigit c =
    (leb b'0' c && leb c b'9') || ((leb b'A' c && leb c b'F') || (leb b'a' c && leb c b'f'))

abbrev pub all_xdigits : List ℕ → Bool
all_xdigits [] = true
all_xdigits (c ∷ s) = let rest = all_xdigits s in is_xdigit c && rest

-- `is_hex_sha256`.
unfoldable pub is_hex_sha256 : List ℕ → Bool
is_hex_sha256 text = length text == 64 && all_xdigits text

-- `tolower` in the C locale.
abbrev pub tolower : ℕ → ℕ
tolower c = if leb b'A' c && leb c b'Z' then c + 32 else c

-- `hex_nibble`; `none` for -1.
unfoldable pub hex_nibble : ℕ → Option ℕ
hex_nibble ch =
    if leb b'0' ch && leb ch b'9'
    then some (ch - b'0')
    else (let low = tolower ch in
        if leb b'a' low && leb low b'f' then some (low - b'a' + 10) else none)

-- `(hi << 4) | lo` of two nibbles, in front of the bytes that follow.
abbrev pub joined : Option ℕ → Option ℕ → Option (List ℕ) → Option (List ℕ)
joined (some hi) (some lo) (some rest) = some ((hi * 16 + lo) ∷ rest)
joined (some hi) (some lo) none = none
joined (some hi) none rest = none
joined none lo rest = none

-- The loop over the pairs of digits.
unfoldable pub hex_pairs : List ℕ → Option (List ℕ)
hex_pairs [] = some []
hex_pairs (a ∷ []) = none
hex_pairs (a ∷ (b ∷ s)) = let rest = hex_pairs s in joined (hex_nibble a) (hex_nibble b) rest

-- `sha256_hex_to_bytes`.
unfoldable pub sha256_hex_to_bytes : List ℕ → Option (List ℕ)
sha256_hex_to_bytes hex = if is_hex_sha256 hex then hex_pairs hex else none
