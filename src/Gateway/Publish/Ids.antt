-- ===== src/Gateway/Publish/Ids.antt =====
-- The numbering of the messages that esp_ble_mesh/provisioner/main/gateway_bridge.c publishes.
use esp32_ble_mesh.Base.{
  Bool, List, [], ap, append_assoc, arith, inl, inr, length, refl, suc, sym, true, zero, ℕ, ◌%◌,
  ◌++◌, ◌+◌, ◌<◌, ◌^◌, ◌∙◌, ◌∷◌, ◌≡◌, ◌≤◌, ◌⊎◌,
}
use esp32_ble_mesh.Gateway.Publish.{
  next_message_id, publish_ack, publish_gateway_status, publish_node_status,
}
use esp32_ble_mesh.Gateway.State.{Bridge, M, Outs, ack, gateway, published, status}

-- The three publishers.
pub data Report : Type 0 where
  of_node : (now : ℕ) → (device_id : List ℕ) → (on online : Bool) → Report
  of_ack : (now : ℕ) → (device_id message_id : List ℕ) → Report
  of_gateway : (now : ℕ) → (node_count : ℕ) → Report

abbrev publish : Report → M (Unit {0})
publish (of_node now device_id on online) = publish_node_status now device_id on online
publish (of_ack now device_id message_id) = publish_ack now device_id message_id
publish (of_gateway now node_count) = publish_gateway_status now node_count

unfoldable pub publish_all : List Report → Bridge → Bridge
publish_all [] s = s
publish_all (r ∷ rs) s = publish_all rs (publish r s).1

-- The sequence numbers of the ids that were published, newest first. The legacy form has no id.
abbrev pub numbers : Outs → List ℕ
numbers [] = []
numbers (published topic (status id ts online on) qos retain ∷ outs) = id.sequence ∷ numbers outs
numbers (published topic (ack id ts ack_id) qos retain ∷ outs) = id.sequence ∷ numbers outs
numbers (published topic (gateway id ts nodes) qos retain ∷ outs) = id.sequence ∷ numbers outs
numbers (_ ∷ outs) = numbers outs

-- The `n` numbers after `x`, newest first.
abbrev pub after_number : ℕ → ℕ → List ℕ
after_number zero x = []
after_number (suc n) x = (x + suc n) % 2 ^ 32 ∷ after_number n x

-- From `s` to `t` the next `n` numbers were published.
abbrev pub Numbered : ℕ → Bridge → Bridge → Type 0
Numbered n s t =
    (t.sequence ≡ (s.sequence + n) % 2 ^ 32)
    × (t.mqtt_connected ≡ s.mqtt_connected)
    × (numbers t.outs ≡ after_number n s.sequence ++ numbers s.outs)

publish-Numbered :
    (r : Report) (s : Bridge)
    → s.sequence < 2 ^ 32
    → Numbered 0 s (publish r s).1 ⊎ ((s.mqtt_connected ≡ true) × Numbered 1 s (publish r s).1)
unfolding publish_node_status publish_ack publish_gateway_status next_message_id
publish-Numbered (of_node now device_id on online) s small = ground arith
publish-Numbered (of_ack now device_id message_id) s small = ground arith
publish-Numbered (of_gateway now node_count) s small = ground arith

mod_shift : (x n m : ℕ) → ((x + n) % 2 ^ 32 + suc m) % 2 ^ 32 ≡ (x + suc (m + n)) % 2 ^ 32
mod_shift x n m = omega arith

after_number-after_number :
    (m n x : ℕ) → after_number m ((x + n) % 2 ^ 32) ++ after_number n x ≡ after_number (m + n) x
after_number-after_number zero n x =
    let same : n ≡ 0 + n = omega arith in ap (λ k. after_number k x) same
after_number-after_number (suc m) n x =
    let same : suc (m + n) ≡ suc m + n = omega arith in
    (λ i. mod_shift x n m i ∷ after_number-after_number m n x i) ∙ ap (λ k. after_number k x) same

Numbered-trans : (m n : ℕ) (s t u : Bridge) → Numbered n s t → Numbered m t u → Numbered (m + n) s u
Numbered-trans m n s t u a b = (
  b.0 ∙ (ap (λ x. (x + m) % 2 ^ 32) a.0 ∙ omega arith),
  b.1 ∙ a.1,
  b.2
      ∙ (ap (λ x. after_number m x ++ numbers t.outs) a.0
          ∙ (ap (λ l. after_number m ((s.sequence + n) % 2 ^ 32) ++ l) a.2
              ∙ (sym (
                    append_assoc (after_number m ((s.sequence + n) % 2 ^ 32))
                      (after_number n s.sequence) (numbers s.outs))
                  ∙ ap (λ l. l ++ numbers s.outs) (after_number-after_number m n s.sequence)))),
)

-- Over any sequence of reports the message ids that are published count on from the present 32-bit
-- sequence number, modulo 2 ^ 32 and without a gap; at most one is used per report, and none while the
-- broker is not connected.
pub publish_all-Numbered :
    (rs : List Report) (s : Bridge)
    → s.sequence < 2 ^ 32
    → (n : ℕ) × (n ≤ length rs)
      × ((s.mqtt_connected ≡ true) ⊎ (n ≡ 0))
      × Numbered n s (publish_all rs s)
unfolding publish_all
publish_all-Numbered [] s small = (0, omega arith, inr refl, (omega arith, refl, refl))
publish_all-Numbered (r ∷ rs) s small = elim (publish-Numbered r s small) [
  | inl none_used ↦
      let (n, few, offline, numbered) =
        publish_all-Numbered rs (publish r s).1 (omega (arith, none_used.0)) in
      (
        n + 0,
        omega (arith, few),
        elim offline [ inl c ↦ inl (sym none_used.1 ∙ c) | inr z ↦ inr (omega (arith, z)) ],
        Numbered-trans n 0 s (publish r s).1 (publish_all rs (publish r s).1) none_used numbered,
      )
  | inr (connected, one) ↦
      let (n, few, offline, numbered) =
        publish_all-Numbered rs (publish r s).1 (omega (arith, one.0)) in
      (
        n + 1,
        omega (arith, few),
        inl connected,
        Numbered-trans n 1 s (publish r s).1 (publish_all rs (publish r s).1) one numbered,
      )
]
