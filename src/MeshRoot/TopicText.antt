-- ===== src/MeshRoot/TopicText.antt =====
-- What internal_communication/main/mesh_main.c reads in the topics that name a node or a gateway.
use esp32_ble_mesh.Base.{
  Bool, Bool-cases, List, Option, ap, append_assoc, arith, c_string, contains, drop, drop-append,
  eq_bytes, eq_bytes_refl, false, inl, inr, length, length-append, ltb, lt→ltb, none, not, refl,
  some, strip_prefix, strip_prefix-append, sym, take-append, true, ℕ, ◌++◌, ◌+◌, ◌-◌, ◌<◌, ◌∙◌, ◌≡◌,
}
use esp32_ble_mesh.MeshRoot.Topics.{
  between, cut, is_group_topic, new_cmd_suffix, new_gateway_prefix, new_light_prefix,
  new_ota_suffix, node_prefix, node_suffix, target_of,
}

end_of :
    (prefix id suffix : List ℕ)
    → drop (length (prefix ++ (id ++ suffix)) - length suffix) (prefix ++ (id ++ suffix)) ≡ suffix
end_of prefix id suffix =
    let total : length (prefix ++ (id ++ suffix)) ≡ length prefix + (length id + length suffix) =
      length-append prefix (id ++ suffix) ∙ ap (λ n. length prefix + n) (length-append id suffix) in
    let front : length (prefix ++ (id ++ suffix)) - length suffix ≡ length (prefix ++ id) =
      omega (arith, total, length-append prefix id) in
    ap (λ n. drop n (prefix ++ (id ++ suffix))) front
    ∙ (ap (drop (length (prefix ++ id))) (sym (append_assoc prefix id suffix))
        ∙ drop-append (prefix ++ id) suffix)

between-append :
    (prefix id suffix : List ℕ)
    → 0 < length id
    → between prefix suffix (prefix ++ (id ++ suffix)) ≡ some id
unfolding between
between-append prefix id suffix some_id =
    let total : length (prefix ++ (id ++ suffix)) ≡ length prefix + (length id + length suffix) =
      length-append prefix (id ++ suffix) ∙ ap (λ n. length prefix + n) (length-append id suffix) in
    let middle : length (prefix ++ (id ++ suffix)) - length prefix - length suffix ≡ length id =
      omega (arith, total) in
    let longer : ltb (length prefix + length suffix) (length (prefix ++ (id ++ suffix))) ≡ true =
      lt→ltb _ _ (omega (arith, total)) in
    rw
      (
        longer,
        strip_prefix-append prefix (id ++ suffix),
        end_of prefix id suffix,
        eq_bytes_refl suffix,
        middle,
        take-append id suffix,
      )
      refl

-- The three topics that a command to an id, or to a gateway, is published on.
abbrev pub light_topic : List ℕ → List ℕ
light_topic id = new_light_prefix ++ (id ++ new_cmd_suffix)

abbrev pub node_topic : List ℕ → List ℕ
node_topic id = node_prefix ++ (id ++ node_suffix)

abbrev pub gateway_topic : List ℕ → List ℕ
gateway_topic id = new_gateway_prefix ++ (id ++ new_cmd_suffix)

pub light-is_group_topic : (id : List ℕ) → is_group_topic (light_topic id) ≡ false
unfolding is_group_topic between
light-is_group_topic id = ground arith

pub node-is_group_topic : (id : List ℕ) → is_group_topic (node_topic id) ≡ false
unfolding is_group_topic between
node-is_group_topic id = ground arith

pub gateway-is_group_topic :
    (id : List ℕ) → 0 < length id → is_group_topic (gateway_topic id) ≡ true
unfolding is_group_topic
gateway-is_group_topic id some_id =
    rw (between-append new_gateway_prefix id new_cmd_suffix some_id) (ground arith)

foreign : (id : List ℕ) → between node_prefix node_suffix (light_topic id) ≡ none
unfolding between
foreign id = ground arith

pub light-target_of :
    (id : List ℕ)
    → 0 < length id
    → length id < 24
    → c_string id ≡ id
    → target_of (light_topic id) ≡ some id
unfolding target_of
light-target_of id some_id fits plain =
    rw
      (
        foreign id,
        between-append new_light_prefix id new_cmd_suffix some_id,
        lt→ltb _ _ fits,
        plain,
      )
      refl

pub node-target_of :
    (id : List ℕ)
    → 0 < length id
    → length id < 24
    → c_string id ≡ id
    → target_of (node_topic id) ≡ some id
unfolding target_of
node-target_of id some_id fits plain =
    rw (between-append node_prefix id node_suffix some_id, lt→ltb _ _ fits, plain) refl

-- The topic belongs to no update, whatever stands behind it.
abbrev pub no_update : (topic behind : List ℕ) → Bool
no_update topic behind = not (contains new_ota_suffix (c_string (topic ++ behind)))

cut_other :
    (prefix other suffix topic : List ℕ) (o : Option (List ℕ))
    → drop (length topic - length other) topic ≡ suffix
    → eq_bytes suffix other ≡ false
    → cut prefix other topic o ≡ none
cut_other prefix other suffix topic none ends differ = refl
cut_other prefix other suffix topic (some rest) ends differ = rw (ends, differ) refl

-- A command topic is no topic of updates.
pub no_ota :
    (any prefix id : List ℕ) → between any new_ota_suffix (prefix ++ (id ++ new_cmd_suffix)) ≡ none
unfolding between
no_ota any prefix id =
    let topic = prefix ++ (id ++ new_cmd_suffix) in
    let nothing : cut any new_ota_suffix topic (strip_prefix any topic) ≡ none =
      cut_other any new_ota_suffix new_cmd_suffix topic (strip_prefix any topic)
        (end_of prefix id new_cmd_suffix) refl in
    elim (Bool-cases (ltb (length any + length new_ota_suffix) (length topic))) [
      | inl e ↦ rw e nothing
      | inr e ↦ rw e refl
    ]
