-- ===== src/Provisioner/Commands/Group.antt =====
-- The two loops of `farmely_send_group_onoff` of esp_ble_mesh/provisioner/main/main.c.
use mathlib.Core.Path.{subst}
use native.Mathlib.Decide.{ℕ_discrete}
use esp32_ble_mesh.Base.{
  Bool, Bool-cases, List, Option, and_left, and_right, ap, arith, false, if◌then◌else◌, inl, inr,
  none, or_empty, refl, some, strlcpy, suc, true, update, zero, ℕ, ◌&&◌, ◌+◌, ◌<◌, ◌==◌, ◌∙◌, ◌≡◌,
  ◌≢◌, ◌≤◌,
}
use esp32_ble_mesh.Provisioner.Commands.{
  count_registered, group_count, group_mark, is_registered, message_id_size, take_pending,
}
use esp32_ble_mesh.Provisioner.Commands.Directed.{taken}
use esp32_ble_mesh.Provisioner.Requests.{to_byte}
use esp32_ble_mesh.Provisioner.State.{Env, Provisioner, for_from}

module _ (env : Env) (s : Provisioner) where
  -- What the first loop finds: a registered node that is busy, or that all of them are free.
  pub busy_of_group_count :
      (k i c : ℕ)
      → group_count env k i c s ≡ none
      → (j : ℕ) × (i ≤ j)
        × (j < i + k)
        × (is_registered env s j ≡ true)
        × ((s.pending j).in_flight ≡ true)
  unfolding group_count
  busy_of_group_count zero i c h = cc
  busy_of_group_count (suc k) i c h =
      elim (Bool-cases (is_registered env s i && (s.pending i).in_flight)) [
        | inl e ↦ (i, omega arith, omega arith, and_left _ _ e, and_right _ _ e)
        | inr e ↦
            let (j, low, high, registered, busy) =
              busy_of_group_count k (suc i) (if is_registered env s i then c + 1 else c)
                (rw e at h) in
            (j, omega arith, omega arith, registered, busy)
      ]

  free_of_not_both :
      (i j : ℕ)
      → (is_registered env s i && (s.pending i).in_flight) ≡ false
      → i ≡ j
      → is_registered env s j ≡ true
      → (s.pending j).in_flight ≡ false
  free_of_not_both i j e same registered =
      ground (arith, ap (λ k. (s.pending k).in_flight) same, ap (λ k. is_registered env s k) same)

  pub group_count_free :
      (k i c : ℕ) {n : ℕ}
      → group_count env k i c s ≡ some n
      → (n ≡ c + count_registered env k i s)
        × ((j : ℕ)
            → i ≤ j
            → j < i + k
            → is_registered env s j ≡ true
            → (s.pending j).in_flight ≡ false)
  unfolding group_count count_registered
  group_count_free zero i c h = (ground arith, λ j low high _. absurd (omega arith))
  group_count_free (suc k) i c h =
      elim (Bool-cases (is_registered env s i && (s.pending i).in_flight)) [
        | inl e ↦ absurd (ground arith)
        | inr e ↦
            let rest =
              group_count_free k (suc i) (if is_registered env s i then c + 1 else c) (rw e at h) in
            (
              ground (arith, rest.0),
              λ j low high registered. elim (ℕ_discrete i j) [
                | yes same ↦ free_of_not_both i j e same registered
                | no later ↦ rest.1 j (omega arith) (omega arith) registered
              ],
            )
      ]

  -- A round of the second loop.
  pending-group_mark :
      (on : Bool) (id : Option (List ℕ)) (i : ℕ) (t : Provisioner) (j : ℕ)
      → (group_mark env on id i t).1.pending j
        ≡ (if is_registered env t i && (i == j) then taken env i on id t else t.pending j)
  unfolding group_mark take_pending update
  pending-group_mark on id i t j = ground arith

  nodes-group_mark :
      (on : Bool) (id : Option (List ℕ)) (i : ℕ) (t : Provisioner)
      → (group_mark env on id i t).1.nodes ≡ t.nodes
  unfolding group_mark take_pending
  nodes-group_mark on id i t = ground arith

  -- The entry `j` of the range is taken, if it is registered; one outside stays.
  mark_one :
      (on : Bool) (id : Option (List ℕ)) (i : ℕ) (t : Provisioner) (j : ℕ)
      → t.nodes ≡ s.nodes
      → i ≢ j
      → (group_mark env on id i t).1.pending j ≡ t.pending j
  mark_one on id i t j same h = ground (arith, pending-group_mark on id i t j)

  mark_outside :
      (on : Bool) (id : Option (List ℕ)) (k i : ℕ) (t : Provisioner) (j : ℕ)
      → t.nodes ≡ s.nodes
      → j < i
      → (for_from k i (group_mark env on id) t).1.pending j ≡ t.pending j
  unfolding for_from
  mark_outside on id zero i t j same h = refl
  mark_outside on id (suc k) i t j same h =
      mark_outside on id k (suc i) _ j (nodes-group_mark on id i t ∙ same) (omega arith)
      ∙ mark_one on id i t j same (omega arith)

  pub mark_all :
      (on : Bool) (id : Option (List ℕ)) (k i : ℕ) (t : Provisioner) (j : ℕ)
      → t.nodes ≡ s.nodes
      → i ≤ j
      → j < i + k
      → (for_from k i (group_mark env on id) t).1.pending j
        ≡ (if is_registered env s j then taken env j on id t else t.pending j)
  unfolding for_from
  mark_all on id zero i t j same low high = absurd (omega arith)
  mark_all on id (suc k) i t j same low high = elim (ℕ_discrete i j) [
    | yes here ↦
        mark_outside on id k (suc i) _ j (nodes-group_mark on id i t ∙ same) (omega arith)
        ∙ (pending-group_mark on id i t j
            ∙ (ap
                  (λ f.
                    if env.is_unicast (f i).unicast && (i == j)
                    then taken env i on id t
                    else t.pending j)
                  same
                ∙ subst
                    (λ h.
                      (if is_registered env s i && (i == h)
                        then taken env i on id t
                        else t.pending h)
                      ≡ (if is_registered env s h then taken env h on id t else t.pending h))
                    here (ground arith)))
    | no later ↦
        let kept = mark_one on id i t j same later in
        mark_all on id k (suc i) _ j (nodes-group_mark on id i t ∙ same) (omega arith) (omega arith)
        ∙ ap
            (λ c.
              if is_registered env s j
              then record c {
                in_flight = true;
                desired_onoff = to_byte on;
                message_id = strlcpy (or_empty id) message_id_size;
              }
              else c)
            kept
  ]
