-- ===== src/Base/Search.antt =====
-- Searching in C strings: `strstr` and `strchr`.
use Prim.Native.Nat.{ℕ}
use mathlib.Core.Bool.{Bool, true, false}
use mathlib.Core.Option.{Option, none, some}
use mathlib.Core.List.{List, [], ◌∷◌}
use esp32_ble_mesh.Base.Tests.{◌==◌, if◌then◌else◌}
use esp32_ble_mesh.Base.Text.{strip_prefix}

-- The quotation mark.
abbrev pub quote : ℕ
quote = 34

-- `strstr(s, pattern)` in a string: what stands from the first occurrence on.
abbrev pub strstr : (pattern s : List ℕ) → Option (List ℕ)
strstr pattern [] = elim (strip_prefix pattern []) [ some rest ↦ some [] | none ↦ none ]
strstr pattern (c ∷ s) =
    let later = strstr pattern s in
    elim (strip_prefix pattern (c ∷ s)) [ some rest ↦ some (c ∷ s) | none ↦ later ]

abbrev pub after_char : ℕ → Option (List ℕ × List ℕ) → Option (List ℕ × List ℕ)
after_char d none = none
after_char d (some (before, after)) = some (d ∷ before, after)

-- `strchr(s, c)`, with what stands before and after the character.
abbrev pub split_at : ℕ → List ℕ → Option (List ℕ × List ℕ)
split_at c [] = none
split_at c (d ∷ s) = let later = split_at c s in if d == c then some ([], s) else after_char d later

abbrev pub contains : (pattern s : List ℕ) → Bool
contains pattern s = elim (strstr pattern s) [ some rest ↦ true | none ↦ false ]
