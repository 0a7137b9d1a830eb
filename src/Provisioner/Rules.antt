-- ===== src/Provisioner/Rules.antt =====
-- Rules for what an operation of esp_ble_mesh/provisioner/main/main.c does to the state:
-- branches, loops and array writes.
use esp32_ble_mesh.Base.{
  Bool, Bool-cases, Option, false, if◌then◌else◌, inl, inr, none, refl, some, suc, true, update,
  zero, ℕ, ◌==◌, ◌≡◌,
}
use esp32_ble_mesh.Provisioner.State.{M, Provisioner, for_from, maybe}

-- A branch, with the outcome of its test.
pub branch {ℓ} :
    {A : Type 0} (P : Provisioner → Type ℓ) (b : Bool) (m n : M A) (s : Provisioner)
    → (b ≡ true → P (m s).1)
    → (b ≡ false → P (n s).1)
    → P ((if b then m else n) s).1
branch P true m n s yes_case no_case = yes_case refl
branch P false m n s yes_case no_case = no_case refl

-- The same of the result and the state together.
pub branch_result {ℓ} :
    {A : Type 0} (P : A × Provisioner → Type ℓ) (b : Bool) (m n : M A) (s : Provisioner)
    → (b ≡ true → P (m s))
    → (b ≡ false → P (n s))
    → P ((if b then m else n) s)
branch_result P true m n s yes_case no_case = yes_case refl
branch_result P false m n s yes_case no_case = no_case refl

pub branch_maybe {ℓ} :
    {A B : Type 0} (P : Provisioner → Type ℓ) (o : Option A) (n : M B) (f : A → M B)
    (s : Provisioner)
    → (o ≡ none → P (n s).1)
    → ((a : A) → o ≡ some a → P (f a s).1)
    → P (maybe o n f s).1
branch_maybe P none n f s none_case some_case = none_case refl
branch_maybe P (some a) n f s none_case some_case = some_case a refl

-- A loop keeps what each of its rounds keeps.
pub for_from_keeps {ℓ} :
    (P : Provisioner → Type ℓ) (k i : ℕ) (body : ℕ → M (Unit {0})) (s : Provisioner)
    → ((j : ℕ) (t : Provisioner) → P t → P (body j t).1)
    → P s
    → P (for_from k i body s).1
unfolding for_from
for_from_keeps P zero i body s keep h = h
for_from_keeps P (suc k) i body s keep h =
    for_from_keeps P k (suc i) body (body i s).1 keep (keep i s h)

-- A write to an array keeps what holds of every entry, if it holds of the value.
pub update_keeps {ℓ κ} :
    {A : Type ℓ} (Q : A → Type κ) (a : ℕ → A) (i : ℕ) (v : A)
    → ((j : ℕ) → Q (a j))
    → Q v
    → (j : ℕ) → Q (update a i v j)
unfolding update
update_keeps Q a i v all h j = elim (Bool-cases (i == j)) [ inl e ↦ rw e h | inr e ↦ rw e (all j) ]
