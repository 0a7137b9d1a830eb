-- ===== src/Base/Array.antt =====
-- A C array of fixed size as a function of the index; the size stands beside it.
use Prim.Native.Nat.{ℕ, zero, suc, ◌+◌, ◌≤◌, ◌<◌}
use mathlib.Core.Path.{◌≡◌, refl, sym, ap, ◌∙◌}
use mathlib.Core.Logic.{◌≢◌, inl, inr}
use mathlib.Core.Bool.{Bool, true, false}
use mathlib.Core.Option.{Option, none, some}
use native.Mathlib.Omega.{arith}
use native.Mathlib.Decide.{ℕ_discrete}
use esp32_ble_mesh.Base.Tests.{Bool-cases, ◌==◌, if◌then◌else◌}

-- `a[i] = v`.
unfoldable pub update {ℓ} : {A : Type ℓ} → (ℕ → A) → ℕ → A → ℕ → A
update a i v j = if i == j then v else a j

pub update_lem {ℓ} :
    {A : Type ℓ} (a : ℕ → A) (i : ℕ) (v : A) (j : ℕ) → update a i v j ≡ (if i == j then v else a j)
unfolding update
update_lem a i v j = refl

pub update_self {ℓ} : {A : Type ℓ} (a : ℕ → A) (i : ℕ) (v : A) → update a i v i ≡ v
unfolding update
update_self a i v = ground arith

pub update_ne {ℓ} : {A : Type ℓ} (a : ℕ → A) (i : ℕ) (v : A) (j : ℕ) → i ≢ j → update a i v j ≡ a j
unfolding update
update_ne a i v j h = ground arith

-- The first index from `i`, of the `k` that are left, at which `p` holds: a loop with an early
-- return.
abbrev pub find_from : ℕ → ℕ → (ℕ → Bool) → Option ℕ
find_from zero i p = none
find_from (suc k) i p = let rest = find_from k (suc i) p in if p i then some i else rest

-- What the search finds: the index is in range and passes the test, and none before it does.
pub find_from_found :
    (k i : ℕ) (p : ℕ → Bool) {j : ℕ}
    → find_from k i p ≡ some j
    → (i ≤ j) × (j < i + k) × (p j ≡ true)
find_from_found zero i p h = cc
find_from_found (suc k) i p {j} h = elim (Bool-cases (p i)) [
  | inl e ↦ let same : i ≡ j = ground arith in (omega arith, omega arith, ap p (sym same) ∙ e)
  | inr e ↦
      let found = find_from_found k (suc i) p {j = j} (ground arith) in
      (omega arith, omega arith, found.2)
]

pub find_from_first :
    (k i : ℕ) (p : ℕ → Bool) {j : ℕ}
    → find_from k i p ≡ some j
    → (m : ℕ) → i ≤ m
    → m < j
    → p m ≡ false
find_from_first zero i p h m low high = cc
find_from_first (suc k) i p {j} h m low high = elim (Bool-cases (p i)) [
  | inl e ↦ absurd (ground arith)
  | inr e ↦ elim (ℕ_discrete i m) [
    | yes same ↦ ap p (sym same) ∙ e
    | no later ↦ find_from_first k (suc i) p {j = j} (ground arith) m (omega arith) high
  ]
]

-- It fails only if no index in range passes.
pub find_from-none :
    (k i : ℕ) (p : ℕ → Bool) → find_from k i p ≡ none → (m : ℕ) → i ≤ m → m < i + k → p m ≡ false
find_from-none zero i p h m low high = absurd (omega arith)
find_from-none (suc k) i p h m low high = elim (Bool-cases (p i)) [
  | inl e ↦ ground arith
  | inr e ↦ elim (ℕ_discrete i m) [
    | yes same ↦ ap p (sym same) ∙ e
    | no later ↦ find_from-none k (suc i) p (ground arith) m (omega arith) (omega arith)
  ]
]

-- It finds an index that passes, if none before does.
pub find_from_at :
    (k i : ℕ) (p : ℕ → Bool) (j : ℕ)
    → i ≤ j
    → j < i + k
    → p j ≡ true
    → ((m : ℕ) → i ≤ m → m < j → p m ≡ false)
    → find_from k i p ≡ some j
find_from_at zero i p j low high here before = absurd (omega arith)
find_from_at (suc k) i p j low high here before = elim (ℕ_discrete i j) [
  | yes same ↦ rw (ap p same ∙ here) (ap some same)
  | no later ↦ rw (before i (omega arith) (omega arith)) (
      find_from_at k (suc i) p j (omega arith) (omega arith) here
        (λ m a b. before m (omega arith) b))
]
