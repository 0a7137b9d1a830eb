-- ===== src/MeshRoot/FieldText.antt =====
-- The texts in which `json_string_field` of internal_communication/main/mesh_main.c finds a value.
use Prim.Native.Nat.{max, min}
use mathlib.Core.Path.{subst}
use esp32_ble_mesh.Base.{
  Bool, Bool-cases, List, Option, Option-cases, [], after_char, ap, append_of_strip_prefix, arith,
  drop, drop-append, false, inl, inr, length, length-take, none, not, quote, refl, some, split_at,
  strip_prefix, strstr, sym, take, true, ℕ, ◌&&◌, ◌++◌, ◌-◌, ◌<◌, ◌==◌, ◌∙◌, ◌∷◌, ◌≡◌,
}
use esp32_ble_mesh.MeshRoot.Fields.{
  behind_colon, cut_value, field_value, is_space, json_string_field, quote_key, quoted, skip_spaces,
}
use esp32_ble_mesh.MeshRoot.Topics.{cut}

abbrev pub without : ℕ → List ℕ → Bool
without c [] = true
without c (d ∷ s) = let rest = without c s in not (d == c) && rest

abbrev pub all_spaces : List ℕ → Bool
all_spaces [] = true
all_spaces (c ∷ s) = let rest = all_spaces s in is_space c && rest

-- The text is `pre "key" gap : spaces "value" post`, where the gap holds no colon and the value no
-- quotation mark.
pub record Field (json key : List ℕ) : Type 0 where
  pub pre : List ℕ
  pub gap : List ℕ
  pub spaces : List ℕ
  pub value : List ℕ
  pub post : List ℕ
  pub text :
      json
      ≡ pre ++ (quote_key key ++ (gap ++ (b':' ∷ (spaces ++ (quote ∷ (value ++ (quote ∷ post)))))))
  pub gap_plain : without b':' gap ≡ true
  pub blank : all_spaces spaces ≡ true
  pub value_plain : without quote value ≡ true

strstr-found :
    (p s : List ℕ) {r : List ℕ}
    → strstr p s ≡ some r
    → (pre rest : List ℕ) × (s ≡ pre ++ r) × (r ≡ p ++ rest)
strstr-found p [] {r} h = elim (Option-cases (strip_prefix p [])) [
  | inl e ↦ absurd (ground arith)
  | inr (rest, e) ↦
      let same : r ≡ [] = ground arith in ([], rest, sym same, same ∙ append_of_strip_prefix p [] e)
]
strstr-found p (c ∷ s) {r} h = elim (Option-cases (strip_prefix p (c ∷ s))) [
  | inl e ↦
      let (pre, rest, split, starts) = strstr-found p s {r = r} (ground arith) in
      (c ∷ pre, rest, ap (λ l. c ∷ l) split, starts)
  | inr (rest, e) ↦
      let same : r ≡ c ∷ s = ground arith in
      ([], rest, sym same, same ∙ append_of_strip_prefix p (c ∷ s) e)
]

abbrev SplitsAt : ℕ → List ℕ → Option (List ℕ × List ℕ) → Type 0
SplitsAt c s none = Unit {0}
SplitsAt c s (some (before, after)) = (s ≡ before ++ (c ∷ after)) × (without c before ≡ true)

after_char-SplitsAt :
    (c d : ℕ) (s : List ℕ) (o : Option (List ℕ × List ℕ))
    → (d == c) ≡ false
    → SplitsAt c s o
    → SplitsAt c (d ∷ s) (after_char d o)
after_char-SplitsAt c d s none other h = tt
after_char-SplitsAt c d s (some (before, after)) other (split, plain) =
    (ap (λ l. d ∷ l) split, rw other plain)

split_at-SplitsAt : (c : ℕ) (s : List ℕ) → SplitsAt c s (split_at c s)
split_at-SplitsAt c [] = tt
split_at-SplitsAt c (d ∷ s) = elim (Bool-cases (d == c)) [
  | inl e ↦ let same : d ≡ c = ground arith in rw e (ap (λ x. x ∷ s) same, refl)
  | inr e ↦ rw e (after_char-SplitsAt c d s (split_at c s) e (split_at-SplitsAt c s))
]

spaces-skipped :
    (s : List ℕ) → (spaces : List ℕ) × (s ≡ spaces ++ skip_spaces s) × (all_spaces spaces ≡ true)
spaces-skipped [] = ([], refl, refl)
spaces-skipped (c ∷ s) = elim (Bool-cases (is_space c)) [
  | inl e ↦
      let (spaces, split, blank) = spaces-skipped s in
      (c ∷ spaces, rw e (ap (λ l. c ∷ l) split), rw e blank)
  | inr e ↦ ([], rw e refl, refl)
]

-- A quoted text that begins with the value, cut to the buffer.
abbrev Quoted : List ℕ → ℕ → Option (List ℕ) → Type 0
Quoted s max none = Unit {0}
Quoted s max (some v) =
    (value post : List ℕ) × (s ≡ quote ∷ (value ++ (quote ∷ post)))
    × (without quote value ≡ true)
    × (0 < length value)
    × (v ≡ take (max - 1) value)

cut_value-Quoted :
    (s : List ℕ) (max : ℕ) (o : Option (List ℕ × List ℕ))
    → SplitsAt quote s o
    → Quoted (quote ∷ s) max (cut_value max o)
cut_value-Quoted s max none h = tt
cut_value-Quoted s max (some ([], after)) h = tt
cut_value-Quoted s max (some (v ∷ vs, after)) (split, plain) =
    (v ∷ vs, after, ap (λ l. quote ∷ l) split, plain, omega arith, refl)

quoted-Quoted : (s : List ℕ) (max : ℕ) → Quoted s max (quoted s max)
quoted-Quoted [] max = tt
quoted-Quoted (c ∷ s) max = elim (Bool-cases (c == quote)) [
  | inl e ↦
      let same : quote ≡ c = ground arith in
      rw e (
        subst (λ x. Quoted (x ∷ s) max (cut_value max (split_at quote s))) same
          (cut_value-Quoted s max (split_at quote s) (split_at-SplitsAt quote s)))
  | inr e ↦ rw e tt
]

-- What a value means: the text has the field, and the value is the field's, cut to the buffer.
abbrev pub Read : (json key : List ℕ) → ℕ → List ℕ → Type 0
Read json key max v =
    (f : Field json key) × (v ≡ take (max - 1) f.value) × (0 < length v) × (length v < max)

behind_colon-Read :
    (json key pre rest : List ℕ) (max : ℕ) (o : Option (List ℕ × List ℕ)) {v : List ℕ}
    → 1 < max
    → json ≡ pre ++ (quote_key key ++ rest)
    → SplitsAt b':' rest o
    → behind_colon max o ≡ some v
    → Read json key max v
behind_colon-Read json key pre rest max none room split parts h = cc
behind_colon-Read json key pre rest max (some (gap, after)) {v} room split (colon, plain) h =
    let (spaces, skipped, blank) = spaces-skipped after in
    let found : Quoted (skip_spaces after) max (some v) =
      subst (λ o. Quoted (skip_spaces after) max o) h (quoted-Quoted (skip_spaces after) max) in
    let (value, post, here, value_plain, some_value, cut) = found in
    let whole =
      split
      ∙ ap (λ r. pre ++ (quote_key key ++ r))
          (colon ∙ ap (λ r. gap ++ (b':' ∷ r)) (skipped ∙ ap (λ r. spaces ++ r) here)) in
    let size : length v ≡ min (max - 1) (length value) =
      ap (length {A = ℕ}) cut ∙ length-take (max - 1) value in
    (
      record {
        pre = pre;
        gap = gap;
        spaces = spaces;
        value = value;
        post = post;
        text = whole;
        gap_plain = plain;
        blank = blank;
        value_plain = value_plain;
      },
      cut,
      omega (arith, size),
      omega (arith, size),
    )

field_value-Read :
    (json key : List ℕ) (max : ℕ) (o : Option (List ℕ)) {v : List ℕ}
    → 1 < max
    → strstr (quote_key key) json ≡ o
    → field_value o (length (quote_key key)) max ≡ some v
    → Read json key max v
field_value-Read json key max none room search h = cc
field_value-Read json key max (some found) {v} room search h =
    let (pre, rest, split, starts) = strstr-found (quote_key key) json {r = found} search in
    let behind : drop (length (quote_key key)) found ≡ rest =
      ap (drop (length (quote_key key))) starts ∙ drop-append (quote_key key) rest in
    behind_colon-Read json key pre rest max (split_at b':' rest) room
      (split ∙ ap (λ r. pre ++ r) starts) (split_at-SplitsAt b':' rest)
      (subst (λ r. behind_colon max (split_at b':' r) ≡ some v) behind h)

-- A value that is read from a JSON text really stands in it: behind the quoted key, a colon and
-- spaces, between quotation marks. It is cut to the buffer, where it fits with its terminating zero,
-- and it is not empty.
pub json_string_field-Read :
    (json key : List ℕ) (max : ℕ) (v : List ℕ)
    → 1 < max
    → json_string_field json key max ≡ some v
    → Read json key max v
unfolding json_string_field
json_string_field-Read json key max v room h =
    field_value-Read json key max (strstr (quote_key key) json) room refl h
