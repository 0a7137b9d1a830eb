-- ===== src/Ota/Digits.antt =====
-- The digests that internal_communication/main/mesh_ota.c reads, beside the texts that print them.
use esp32_ble_mesh.Base.{
  Bool, List, [], and_right, ap, arith, false, if◌then◌else◌, length, ltb, refl, some, true, ℕ, ◌%◌,
  ◌&&◌, ◌*◌, ◌+◌, ◌/◌, ◌<◌, ◌==◌, ◌∙◌, ◌∷◌, ◌≡◌,
}
use esp32_ble_mesh.Ota.Hex.{
  all_xdigits, hex_nibble, hex_pairs, is_hex_sha256, is_xdigit, sha256_hex_to_bytes,
}

-- A digit below 16 in either case.
abbrev pub digit_char : Bool → ℕ → ℕ
digit_char upper d = if ltb d 10 then 48 + d else (if upper then 55 + d else 87 + d)

-- A digest as text; the list says of each byte whether its two digits are capitals.
abbrev pub hex_text : List (ℕ × Bool × Bool) → List ℕ
hex_text [] = []
hex_text ((b, hi, lo) ∷ bs) = digit_char hi (b / 16) ∷ (digit_char lo (b % 16) ∷ hex_text bs)

abbrev pub bytes_of : List (ℕ × Bool × Bool) → List ℕ
bytes_of [] = []
bytes_of ((b, hi, lo) ∷ bs) = b ∷ bytes_of bs

abbrev pub all_bytes : List (ℕ × Bool × Bool) → Bool
all_bytes [] = true
all_bytes ((b, hi, lo) ∷ bs) = let rest = all_bytes bs in ltb b 256 && rest

hex_nibble-digit_char : (upper : Bool) (d : ℕ) → d < 16 → hex_nibble (digit_char upper d) ≡ some d
unfolding hex_nibble
hex_nibble-digit_char true d h = ground arith
hex_nibble-digit_char false d h = ground arith

is_xdigit-digit_char : (upper : Bool) (d : ℕ) → d < 16 → is_xdigit (digit_char upper d) ≡ true
is_xdigit-digit_char true d h = ground arith
is_xdigit-digit_char false d h = ground arith

all_xdigits-hex_text :
    (bs : List (ℕ × Bool × Bool)) → all_bytes bs ≡ true → all_xdigits (hex_text bs) ≡ true
all_xdigits-hex_text [] h = refl
all_xdigits-hex_text ((b, hi, lo) ∷ bs) h =
    let small : b < 256 = ground arith in
    rw
      (
        is_xdigit-digit_char hi (b / 16) (omega arith),
        is_xdigit-digit_char lo (b % 16) (omega arith),
      )
      (all_xdigits-hex_text bs (and_right _ _ h))

length-hex_text : (bs : List (ℕ × Bool × Bool)) → length (hex_text bs) ≡ 2 * length bs
length-hex_text [] = refl
length-hex_text ((b, hi, lo) ∷ bs) = omega (arith, length-hex_text bs)

hex_pairs_step :
    (a b : ℕ) (s : List ℕ) {hi lo : ℕ} {rest : List ℕ}
    → hex_nibble a ≡ some hi
    → hex_nibble b ≡ some lo
    → hex_pairs s ≡ some rest
    → hex_pairs (a ∷ (b ∷ s)) ≡ some ((hi * 16 + lo) ∷ rest)
unfolding hex_pairs
hex_pairs_step a b s p q r = rw (p, q, r) refl

hex_pairs-hex_text :
    (bs : List (ℕ × Bool × Bool))
    → all_bytes bs ≡ true
    → hex_pairs (hex_text bs) ≡ some (bytes_of bs)
unfolding hex_pairs
hex_pairs-hex_text [] h = refl
hex_pairs-hex_text ((b, hi, lo) ∷ bs) h =
    let small : b < 256 = ground arith in
    let split : b / 16 * 16 + b % 16 ≡ b = omega arith in
    hex_pairs_step _ _ (hex_text bs) (hex_nibble-digit_char hi (b / 16) (omega arith))
      (hex_nibble-digit_char lo (b % 16) (omega arith)) (hex_pairs-hex_text bs (and_right _ _ h))
    ∙ ap (λ c. some (c ∷ bytes_of bs)) split

-- A SHA-256 digest of 32 bytes comes back from its text, whichever of its digits are capitals.
pub sha256_hex_to_bytes-hex_text :
    (bs : List (ℕ × Bool × Bool))
    → length bs ≡ 32
    → all_bytes bs ≡ true
    → sha256_hex_to_bytes (hex_text bs) ≡ some (bytes_of bs)
unfolding sha256_hex_to_bytes is_hex_sha256
sha256_hex_to_bytes-hex_text bs size h =
    let long : (length (hex_text bs) == 64) ≡ true = ground (arith, length-hex_text bs) in
    rw (long, all_xdigits-hex_text bs h) (hex_pairs-hex_text bs h)
