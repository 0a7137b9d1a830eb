-- ===== src/Base/Text.antt =====
-- C strings as lists of bytes without the terminating zero, and the formats that the code prints.
use Prim.Native.Nat.{ℕ, ◌+◌, ◌-◌, ◌/◌, ◌%◌}
use Prim.Native.Char.{code}
use Prim.Native.String.{String}
use mathlib.Core.Path.{◌≡◌, refl}
use mathlib.Core.Option.{Option, none, some}
use mathlib.Core.List.{List, [], ◌∷◌, ◌++◌}
use native.Mathlib.Omega.{arith}
use esp32_ble_mesh.Base.Tests.{ltb, ◌==◌, if◌then◌else◌}
use esp32_ble_mesh.Base.Lists.{take}

-- The bytes of a literal.
abbrev pub codes : String → List ℕ
codes String.[] = []
codes (String.◌∷◌ c s) = code c ∷ codes s

-- The C string that starts a buffer: the bytes before the first zero.
abbrev pub c_string : List ℕ → List ℕ
c_string [] = []
c_string (b ∷ bs) = let rest = c_string bs in if b == 0 then [] else b ∷ rest

-- `strlcpy(dst, src, size)` into a buffer of `size` bytes; a null `src` is read as "".
abbrev pub strlcpy : List ℕ → ℕ → List ℕ
strlcpy src size = take (size - 1) src

abbrev pub or_empty : Option (List ℕ) → List ℕ
or_empty none = []
or_empty (some s) = s

abbrev pub hex_digit : ℕ → ℕ
hex_digit d = if ltb d 10 then 48 + d else 55 + d

-- `%02X` of a byte.
abbrev pub hex_byte : ℕ → List ℕ
hex_byte b = hex_digit (b / 16) ∷ hex_digit (b % 16) ∷ []

-- `strncmp(s, p, strlen(p)) == 0`, with what follows the prefix.
abbrev pub strip_prefix : List ℕ → List ℕ → Option (List ℕ)
strip_prefix [] s = some s
strip_prefix (p ∷ ps) [] = none
strip_prefix (p ∷ ps) (c ∷ s) = let rest = strip_prefix ps s in if p == c then rest else none

pub strip_prefix-append : (p s : List ℕ) → strip_prefix p (p ++ s) ≡ some s
strip_prefix-append [] s = refl
strip_prefix-append (p ∷ ps) s = ground (arith, strip_prefix-append ps s)

pub append_of_strip_prefix : (p s : List ℕ) {r : List ℕ} → strip_prefix p s ≡ some r → s ≡ p ++ r
append_of_strip_prefix [] s h = ground arith
append_of_strip_prefix (p ∷ ps) [] h = cc
append_of_strip_prefix (p ∷ ps) (c ∷ s) {r} h = ground (arith, append_of_strip_prefix ps s {r = r})

-- Hexadecimal digits tell the values below 16 apart.
pub hex_digit-injective : (a b : ℕ) → hex_digit a ≡ hex_digit b → a ≡ b
hex_digit-injective a b h = ground arith
