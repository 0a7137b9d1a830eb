-- ===== src/Provisioner/Commands/Broadcast.antt =====
-- `farmely_send_group_onoff` of esp_ble_mesh/provisioner/main/main.c as a whole.
use mathlib.Core.Path.{subst}
use native.Mathlib.Decide.{ℕ_discrete}
use esp32_ble_mesh.Base.{
  Bool, Bool-cases, List, Option, Option-cases, arith, false, if◌then◌else◌, inl, inr, refl, suc,
  sym, true, update, zero, ℕ, ◌%◌, ◌+◌, ◌<◌, ◌==◌, ◌∙◌, ◌≡◌, ◌≤◌, ◌⊎◌,
}
use esp32_ble_mesh.Provisioner.Commands.{
  clear_all_pending, clear_pending, finish_group, group_count, group_mark, is_registered,
  send_group_onoff, send_group_request, send_group_set,
}
use esp32_ble_mesh.Provisioner.Commands.Directed.{taken}
use esp32_ble_mesh.Provisioner.Commands.Group.{group_count_free, mark_all}
use esp32_ble_mesh.Provisioner.Rules.{branch_result, for_from_keeps}
use esp32_ble_mesh.Provisioner.State.{
  Env, EspErr, Provisioner, created, for_from, group_sync, invalid_state, is_ok, no_command, no_mem,
  perform, pure, ◌>>◌,
}

module _ (env : Env) where
  -- A round of `farmely_clear_all_pending`.
  clear_pending_other :
      (i j : ℕ) (s : Provisioner)
      → s.pending j ≡ no_command
      → (clear_pending env i s).1.pending j ≡ no_command
  unfolding clear_pending update
  clear_pending_other i j s h = ground arith

  clear_pending_own :
      (j : ℕ) (s : Provisioner)
      → j < env.max_nodes
      → (clear_pending env j s).1.pending j ≡ no_command
  unfolding clear_pending update
  clear_pending_own j s h = ground arith

  clear_from :
      (k i j : ℕ) (s : Provisioner)
      → i ≤ j
      → j < i + k
      → j < env.max_nodes
      → (for_from k i (clear_pending env) s).1.pending j ≡ no_command
  unfolding for_from
  clear_from zero i j s low high h = absurd (omega arith)
  clear_from (suc k) i j s low high h = elim (ℕ_discrete i j) [
    | yes here ↦
        for_from_keeps (λ t. t.pending j ≡ no_command) k (suc i) (clear_pending env) _
          (λ m t e. clear_pending_other m j t e)
          (subst (λ m. (clear_pending env m s).1.pending j ≡ no_command) (sym here)
            (clear_pending_own j s h))
    | no later ↦ clear_from k (suc i) j _ (omega arith) (omega arith) h
  ]

  clear_all :
      (j : ℕ) (s : Provisioner)
      → j < env.max_nodes
      → (clear_all_pending env s).1.pending j ≡ no_command
  unfolding clear_all_pending
  clear_all j s h = clear_from env.max_nodes 0 j s (omega arith) (omega arith) h

  -- What the sending leaves: the entries as they were, or none, by its result.
  Sent : ℕ → Provisioner → EspErr × Provisioner → Type 0
  Sent j s r =
      (is_ok r.0 ≡ true → r.1.pending j ≡ s.pending j)
      × (is_ok r.0 ≡ false → r.1.pending j ≡ no_command)

  finish_group-Sent :
      (j : ℕ) (err : EspErr) (s : Provisioner)
      → j < env.max_nodes
      → Sent j s (finish_group env err s)
  unfolding finish_group Sent
  finish_group-Sent j err s h = ground (arith, clear_all j s h)

  send_group_set-Sent :
      (j : ℕ) (on : Bool) (s : Provisioner) → j < env.max_nodes → Sent j s (send_group_set env on s)
  unfolding send_group_set send_group_request Sent
  send_group_set-Sent j on s h =
      let t : Provisioner = record s { tid = (s.tid + 1) % 256 } in
      branch_result (Sent j s) (is_ok (perform env (created group_sync) t).0)
        (send_group_request env on s.tid) (do clear_all_pending env; pure no_mem)
        (perform env (created group_sync) t).1 (λ o. finish_group-Sent j _ _ h)
        (λ o. (λ e. cc, λ e. clear_all j _ h))

module _ (env : Env) (on : Bool) (id : Option (List ℕ)) (s : Provisioner) where
  -- While a registered node has a command in flight the group command is refused, and changes
  -- nothing.
  pub group_refused :
      (j : ℕ)
      → j < env.max_nodes
      → is_registered env s j ≡ true
      → (s.pending j).in_flight ≡ true
      → send_group_onoff env on id s ≡ (invalid_state, s)
  unfolding send_group_onoff
  group_refused j inside registered busy =
      elim (Option-cases (group_count env env.max_nodes 0 0 s)) [
        | inl e ↦ rw (e)
        | inr (n, e) ↦
            let free =
              (group_count_free env s env.max_nodes 0 0 e).1 j (omega arith) (omega arith)
                registered in
            absurd (cc (free, busy))
      ]

  -- The two outcomes, by the code.
  group_outcomes :
      (j : ℕ)
      → j < env.max_nodes
      → let r = send_group_onoff env on id s in
        (is_ok r.0 ≡ true
          → r.1.pending j ≡ (if is_registered env s j then taken env j on id s else s.pending j))
        × (is_ok r.0 ≡ false → (r.1 ≡ s) ⊎ (r.1.pending j ≡ no_command))
  unfolding send_group_onoff Sent
  group_outcomes j inside = elim (Option-cases (group_count env env.max_nodes 0 0 s)) [
    | inl e ↦ rw (e) (λ o. cc, λ o. inl refl)
    | inr (n, e) ↦ elim (Bool-cases (n == 0)) [
      | inl z ↦ rw (e, z) (λ o. cc, λ o. inl refl)
      | inr z ↦
          let u : Provisioner = (for_from env.max_nodes 0 (group_mark env on id) s).1 in
          let marked = mark_all env s on id env.max_nodes 0 s j refl (omega arith) (omega arith) in
          let after = send_group_set-Sent env j on u inside in
          rw (e, z) (λ o. after.0 o ∙ marked, λ o. inr (after.1 o))
    ]
  ]

  -- A group command that is accepted takes the entry of every registered node, with the wanted state
  -- and the message id, and no other; one that fails in any way leaves the state as it was, or leaves
  -- no command pending.
  pub group_all_or_none :
      (j : ℕ)
      → j < env.max_nodes
      → let r = send_group_onoff env on id s in
        ((is_ok r.0 ≡ true)
          × (r.1.pending j ≡ (if is_registered env s j then taken env j on id s else s.pending j)))
        ⊎ ((is_ok r.0 ≡ false) × ((r.1 ≡ s) ⊎ (r.1.pending j ≡ no_command)))
  group_all_or_none j inside = elim (Bool-cases (is_ok (send_group_onoff env on id s).0)) [
    | inl accepted ↦ inl (accepted, (group_outcomes j inside).0 accepted)
    | inr refused ↦ inr (refused, (group_outcomes j inside).1 refused)
  ]
