-- ===== src/Gateway/Payload/SafeText.antt =====
-- The message ids that `parse_command` of esp_ble_mesh/provisioner/main/gateway_bridge.c accepts, which
-- the acknowledgements print into JSON strings.
use esp32_ble_mesh.Base.{
  Bool, Bool-cases, List, Option, [], arith, false, if◌then◌else◌, inl, inr, leb, length,
  length-take, none, not, refl, some, suc, take, true, zero, ℕ, ◌&&◌, ◌<◌, ◌==◌, ◌∷◌, ◌≡◌,
}
use esp32_ble_mesh.Gateway.Payload.{
  CJson, accepted_id, id_size, id_value, parse_command, parsed, says_off, says_on,
}
use esp32_ble_mesh.Gateway.Topic.{all_id_chars, is_id_char, valid_message_id}

-- A character that stands for itself in a JSON string.
abbrev pub is_plain : ℕ → Bool
is_plain c = leb 32 c && (not (c == b'"') && not (c == b'\\'))

abbrev pub all_plain : List ℕ → Bool
all_plain [] = true
all_plain (c ∷ cs) = is_plain c && all_plain cs

id_char-is_plain : (c : ℕ) → is_id_char c ≡ true → is_plain c ≡ true
id_char-is_plain c h = ground arith

all_plain-all_id_chars : (cs : List ℕ) → all_id_chars cs ≡ true → all_plain cs ≡ true
unfolding all_id_chars
all_plain-all_id_chars [] h = refl
all_plain-all_id_chars (c ∷ cs) h = ground (arith, id_char-is_plain c, all_plain-all_id_chars cs)

all_plain-valid : (cs : List ℕ) → valid_message_id cs ≡ true → all_plain cs ≡ true
unfolding valid_message_id
all_plain-valid [] h = refl
all_plain-valid (c ∷ cs) h = all_plain-all_id_chars (c ∷ cs) h

all_plain-take : (n : ℕ) (cs : List ℕ) → all_plain cs ≡ true → all_plain (take n cs) ≡ true
all_plain-take zero cs h = refl
all_plain-take (suc n) [] h = refl
all_plain-take (suc n) (c ∷ cs) h = ground (arith, all_plain-take n cs)

-- The id that is kept of a message, plain and in its buffer.
abbrev Safe : List ℕ → Type 0
Safe id = (all_plain id ≡ true) × (length id < id_size)

module _ (json : CJson) where
  accepted_id-Safe : (id : Option (List ℕ)) → Safe (accepted_id json id)
  accepted_id-Safe none = (refl, omega arith)
  accepted_id-Safe (some id) = elim (Bool-cases (valid_message_id id)) [
    | inl e ↦ rw e (all_plain-take 95 id (all_plain-valid id e), omega (arith, length-take 95 id))
    | inr e ↦ rw e (refl, omega arith)
  ]

  parsed-Safe : (o : Option json.Node) → Safe (parsed json o).1
  unfolding parsed
  parsed-Safe none = (refl, omega arith)
  parsed-Safe (some root) = accepted_id-Safe (id_value json root)

if-Safe :
    (b : Bool) (x y : Option Bool × List ℕ) → Safe x.1 → Safe y.1 → Safe (if b then x else y).1
if-Safe true x y hx hy = hx
if-Safe false x y hx hy = hy

-- The message id that is taken from a payload, whatever cJSON makes of it, fits its buffer and holds
-- no quotation mark, backslash or control character, so it stands for itself in a JSON string.
pub parse_command-plain_id :
    (json : CJson) (payload : List ℕ)
    → (all_plain (parse_command json payload).1 ≡ true)
      × (length (parse_command json payload).1 < id_size)
unfolding parse_command
parse_command-plain_id json payload =
    let empty : Safe [] = (refl, omega arith) in
    let rest : Option Bool × List ℕ = parsed json (json.parse payload) in
    if-Safe (says_on payload) (some true, []) (if says_off payload then (some false, []) else rest)
      empty
      (if-Safe (says_off payload) (some false, []) rest empty
        (parsed-Safe json (json.parse payload)))
