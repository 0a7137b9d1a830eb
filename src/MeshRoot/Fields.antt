-- ===== src/MeshRoot/Fields.antt =====
-- How internal_communication/main/mesh_main.c reads the fields of a JSON text: by searching in it.
use Prim.Native.Nat.{max}
use esp32_ble_mesh.Base.{
  Bool, List, Option, [], c_string, drop, if◌then◌else◌, length, none, quote, some, split_at,
  strstr, take, ℕ, ◌++◌, ◌+◌, ◌-◌, ◌==◌, ◌||◌, ◌∷◌,
}

abbrev pub is_space : ℕ → Bool
is_space c = (c == b' ') || ((c == 9) || ((c == 10) || (c == 13)))

abbrev pub skip_spaces : List ℕ → List ℕ
skip_spaces [] = []
skip_spaces (c ∷ s) = let rest = skip_spaces s in if is_space c then rest else c ∷ s

-- The value before the closing quotation mark, which is not empty, cut to a buffer of `max` bytes.
abbrev pub cut_value : ℕ → Option (List ℕ × List ℕ) → Option (List ℕ)
cut_value max none = none
cut_value max (some ([], after)) = none
cut_value max (some (v ∷ vs, after)) = some (take (max - 1) (v ∷ vs))

-- The value of `json_string_field` from the text behind the colon and its spaces.
abbrev pub quoted : List ℕ → ℕ → Option (List ℕ)
quoted [] max = none
quoted (c ∷ s) max = if c == quote then cut_value max (split_at quote s) else none

abbrev pub quote_key : List ℕ → List ℕ
quote_key key = quote ∷ (key ++ (quote ∷ []))

-- What follows the colon.
abbrev pub behind_colon : ℕ → Option (List ℕ × List ℕ) → Option (List ℕ)
behind_colon max none = none
behind_colon max (some (before, after)) = quoted (skip_spaces after) max

-- What follows the key.
abbrev pub field_value : Option (List ℕ) → ℕ → ℕ → Option (List ℕ)
field_value none key_length max = none
field_value (some found) key_length max = behind_colon max (split_at b':' (drop key_length found))

-- `json_string_field(json, key, out, max)`, for a key whose pattern fits 48 bytes and a buffer that is
-- not empty; `none` where the buffer stays as it was.
unfoldable pub json_string_field : (json key : List ℕ) → ℕ → Option (List ℕ)
json_string_field json key max =
    field_value (strstr (quote_key key) json) (length (quote_key key)) max

-- The C string that stands `n` bytes behind the start of a buffer.
abbrev string_at : ℕ → List ℕ → List ℕ
string_at n buffer = c_string (drop n buffer)

-- `json_extract_str(json, key, &len)`, where `buffer` is all the memory from the text on: the search
-- for the quotation mark starts one byte behind the key, which may be the terminating zero.
unfoldable pub json_extract_str : (buffer key : List ℕ) → Option (List ℕ)
json_extract_str buffer key = elim (strstr key (c_string buffer)) [
  | none ↦ none
  | some found ↦
      let start : ℕ = length (c_string buffer) - length found + length key + 1 in
      elim (split_at quote (string_at start buffer)) [
        | none ↦ none
        | some (before, after) ↦ elim (split_at quote after) [
          | some ([], rest) ↦ none
          | some (v ∷ vs, rest) ↦ some (v ∷ vs)
          | none ↦ elim after [ [] ↦ none | v ∷ vs ↦ some (v ∷ vs) ]
        ]
      ]
]
