-- ===== src/Gateway/Button/Hold.antt =====
-- The presses that `prov_button_task` of esp_ble_mesh/provisioner/main/gateway_bridge.c waits
-- for.
use native.Mathlib.Decide.{ℕ_discrete}
use esp32_ble_mesh.Base.{
  Bool, List, [], ap, append_assoc, arith, false, none, refl, replicate, replicate-snoc, some, suc,
  sym, true, zero, ℕ, ◌*◌, ◌++◌, ◌+◌, ◌<◌, ◌↔◌, ◌∙◌, ◌∷◌, ◌≡◌, ◌≤◌,
}
use esp32_ble_mesh.Gateway.Button.{button_restarts, poll, poll_all, poll_ms}

-- The number of polls of a long press.
abbrev pub hold_polls : ℕ
hold_polls = 30

abbrev pub pressed : Bool
pressed = false

-- One poll more of a pressed button, after `k` of them.
poll_last : (k : ℕ) → suc k ≡ hold_polls → poll (poll_ms * k) pressed ≡ none
unfolding poll
poll_last k h = ground arith

poll_more : (k : ℕ) → suc k < hold_polls → poll (poll_ms * k) pressed ≡ some (poll_ms * suc k)
unfolding poll
poll_more k h = ground arith

-- The loop after one poll.
poll_all-none : (h : ℕ) (l : Bool) (ls : List Bool) → poll h l ≡ none → poll_all h (l ∷ ls) ≡ none
unfolding poll_all
poll_all-none h l ls e = rw (e, poll_all)

poll_all-some :
    (h : ℕ) (l : Bool) (ls : List Bool) {h' : ℕ}
    → poll h l ≡ some h'
    → poll_all h (l ∷ ls) ≡ poll_all h' ls
unfolding poll_all
poll_all-some h l ls e = rw (e, poll_all)

poll_all-released : (h : ℕ) (ls : List Bool) → poll_all h (true ∷ ls) ≡ poll_all 0 ls
poll_all-released h ls = poll_all-some h true ls (unfold poll in refl)

-- Polls of a pressed button, after `k` of them.
press_on :
    (n k : ℕ) (rest : List Bool)
    → k < hold_polls
    → hold_polls ≤ k + n
    → poll_all (poll_ms * k) (replicate n pressed ++ rest) ≡ none
press_on zero k rest low high = absurd (omega arith)
press_on (suc n) k rest low high = elim (ℕ_discrete (suc k) hold_polls) [
  | yes last ↦ poll_all-none (poll_ms * k) pressed (replicate n pressed ++ rest) (poll_last k last)
  | no more ↦
      poll_all-some (poll_ms * k) pressed (replicate n pressed ++ rest) (poll_more k (omega arith))
      ∙ press_on n (suc k) rest (omega arith) (omega arith)
]

-- A long press restarts, whatever was read before it.
press_after :
    (before rest : List Bool) (k : ℕ)
    → k < hold_polls
    → poll_all (poll_ms * k) (before ++ (replicate hold_polls pressed ++ rest)) ≡ none
press_after [] rest k low = press_on hold_polls k rest low (omega arith)
press_after (true ∷ before) rest k low =
    poll_all-released (poll_ms * k) (before ++ (replicate hold_polls pressed ++ rest))
    ∙ press_after before rest 0 (omega arith)
press_after (false ∷ before) rest k low =
    let tail = before ++ (replicate hold_polls pressed ++ rest) in
    elim (ℕ_discrete (suc k) hold_polls) [
      | yes last ↦ poll_all-none (poll_ms * k) pressed tail (poll_last k last)
      | no more ↦
          poll_all-some (poll_ms * k) pressed tail (poll_more k (omega arith))
          ∙ press_after before rest (suc k) (omega arith)
    ]

-- A long press among the levels.
abbrev pub LongPress : List Bool → Type 0
LongPress levels =
    (before : List Bool) × (rest : List Bool) × (levels
      ≡ before ++ (replicate hold_polls pressed ++ rest))

some_of_empty : (k : ℕ) → poll_all (poll_ms * k) [] ≡ none → ⊥
unfolding poll_all
some_of_empty k h = cc

-- A restart after `k` polls of a pressed button comes from a long press, these polls included.
press_of_restart :
    (levels : List Bool) (k : ℕ)
    → k < hold_polls
    → poll_all (poll_ms * k) levels ≡ none
    → LongPress (replicate k pressed ++ levels)
press_of_restart [] k low h = absurd (some_of_empty k h)
press_of_restart (true ∷ levels) k low h =
    let (before, rest, e) =
      press_of_restart levels 0 (omega arith) (sym (poll_all-released (poll_ms * k) levels) ∙ h) in
    (
      replicate k pressed ++ (true ∷ before),
      rest,
      ap (λ l. replicate k pressed ++ (true ∷ l)) e
          ∙ sym (
              append_assoc (replicate k pressed) (true ∷ before)
                (replicate hold_polls pressed ++ rest)),
    )
press_of_restart (false ∷ levels) k low h = elim (ℕ_discrete (suc k) hold_polls) [
  | yes last ↦
      ([], levels, replicate-snoc k pressed levels ∙ ap (λ n. replicate n pressed ++ levels) last)
  | no more ↦
      let (before, rest, e) =
        press_of_restart levels (suc k) (omega arith)
          (sym (poll_all-some (poll_ms * k) pressed levels (poll_more k (omega arith))) ∙ h) in
      (before, rest, replicate-snoc k pressed levels ∙ e)
]

restarts_of_none : (levels : List Bool) → poll_all 0 levels ≡ none → button_restarts levels ≡ true
unfolding button_restarts
restarts_of_none levels h = rw (h, button_restarts)

none_of_restarts : (levels : List Bool) → button_restarts levels ≡ true → poll_all 0 levels ≡ none
unfolding button_restarts
none_of_restarts levels h = ground arith

-- The gateway erases its credentials and restarts exactly when the button is read as pressed 30 times
-- in a row: 3 seconds of polls, whatever is read before and after.
pub button_restarts_iff : (levels : List Bool) → (button_restarts levels ≡ true) ↔ LongPress levels
button_restarts_iff levels = (
  λ h. press_of_restart levels 0 (omega arith) (none_of_restarts levels h),
  λ (before, rest, e).
      restarts_of_none levels (ap (poll_all 0) e ∙ press_after before rest 0 (omega arith)),
)
