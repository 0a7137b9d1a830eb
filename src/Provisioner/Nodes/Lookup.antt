-- ===== src/Provisioner/Nodes/Lookup.antt =====
-- `example_ble_mesh_store_node_info` and `example_ble_mesh_get_node_info` of
-- esp_ble_mesh/provisioner/main/main.c, together.
use esp32_ble_mesh.Base.{
  Bool-cases, List, Option-cases, ap, arith, eq_bytes, eq_bytes_refl, false, find_from_at,
  find_from_first, find_from_found, find_from-none, inl, inr, none, refl, some, true, update,
  update_ne, update_self, ℕ, ◌<◌, ◌==◌, ◌∙◌, ◌≡◌, ◌≢◌,
}
use esp32_ble_mesh.Provisioner.Nodes.{
  covers, entry_of, free_entry, get_node_info, put_node, store_node_info,
}
use esp32_ble_mesh.Provisioner.State.{
  Env, EspErr, NodeInfo, Provisioner, addr_unassigned, fail, invalid_arg, ok,
}
use esp32_ble_mesh.Provisioner.Storage.{store_nodes}

-- What a look-up returns is an entry of the table whose range holds the address, and the first such.
pub get_node_info-lt :
    (env : Env) (nodes : ℕ → NodeInfo) (unicast : ℕ) {i : ℕ}
    → get_node_info env nodes unicast ≡ some i
    → i < env.max_nodes
unfolding get_node_info
get_node_info-lt env nodes unicast {i} h = elim (Bool-cases (env.is_unicast unicast)) [
  | inl e ↦ omega (
    arith,
    find_from_found env.max_nodes 0 (λ j. covers (nodes j) unicast) {j = i} (ground arith),
  )
  | inr e ↦ absurd (ground arith)
]

-- The outcomes of `example_ble_mesh_store_node_info`, in the order of its tests.
pub data StoreCase (env : Env) (uuid : List ℕ) (unicast : ℕ) (node : NodeInfo) (s t : Provisioner)
    : EspErr → Type 0 where
  bad_address :
      env.is_unicast unicast ≡ false → t ≡ s → StoreCase env uuid unicast node s t invalid_arg
  reprovisioned :
      (i : ℕ)
      → entry_of env s.nodes uuid ≡ some i
      → t.nodes ≡ update s.nodes i node
      → StoreCase env uuid unicast node s t ok
  added :
      (i : ℕ)
      → entry_of env s.nodes uuid ≡ none
      → free_entry env s.nodes ≡ some i
      → t.nodes ≡ update s.nodes i node
      → StoreCase env uuid unicast node s t ok
  full :
      entry_of env s.nodes uuid ≡ none
      → free_entry env s.nodes ≡ none
      → t ≡ s
      → StoreCase env uuid unicast node s t fail

module _ (env : Env) (uuid : List ℕ) (unicast elem_num onoff : ℕ) (s : Provisioner) where
  abbrev node : NodeInfo
  node = record { uuid = uuid; unicast = unicast; elem_num = elem_num; onoff = onoff }

  abbrev result : EspErr × Provisioner
  result = store_node_info env uuid unicast elem_num onoff s

  nodes-put_node : (i : ℕ) → (put_node env i node s).1.nodes ≡ update s.nodes i node
  unfolding put_node store_nodes
  nodes-put_node i = ground arith

  -- The outcome is one of the four.
  pub store_case : StoreCase env uuid unicast node s result.1 result.0
  unfolding store_node_info
  store_case = elim (Bool-cases (env.is_unicast unicast)) [
    | inr e ↦ rw (e) (bad_address e refl)
    | inl e ↦ elim (Option-cases (entry_of env s.nodes uuid)) [
      | inr (i, f) ↦ rw (e, f) (reprovisioned i f (nodes-put_node i))
      | inl f ↦ elim (Option-cases (free_entry env s.nodes)) [
        | inr (i, g) ↦ rw (e, f, g) (added i f g (nodes-put_node i))
        | inl g ↦ rw (e, f, g) (full f g refl)
      ]
    ]
  ]

-- The look-up finds an entry that covers the address, if none before it does.
pub get_node_info-at :
    (env : Env) (nodes : ℕ → NodeInfo) (unicast i : ℕ)
    → env.is_unicast unicast ≡ true
    → i < env.max_nodes
    → covers (nodes i) unicast ≡ true
    → ((j : ℕ) → j < i → covers (nodes j) unicast ≡ false)
    → get_node_info env nodes unicast ≡ some i
unfolding get_node_info
get_node_info-at env nodes unicast i valid inside here before = rw valid (
    find_from_at env.max_nodes 0 (λ j. covers (nodes j) unicast) i (omega arith) (omega arith) here
      (λ j low high. before j high))

-- Entries with another UUID do not compare equal.
ne_of_eq_bytes : (xs ys : List ℕ) → eq_bytes xs ys ≡ false → xs ≢ ys
ne_of_eq_bytes xs ys h e = cc (eq_bytes_refl xs, ap (eq_bytes xs) e)

-- A range of at least one address holds its first.
covers_self : (node : NodeInfo) → 0 < node.elem_num → covers node node.unicast ≡ true
covers_self node h = ground arith

module _ (env : Env) (uuid : List ℕ) (unicast : ℕ) (node : NodeInfo) (s : Provisioner)
    (valid : env.is_unicast unicast ≡ true) (here : covers node unicast ≡ true)
    (others : (j : ℕ)
      → j < env.max_nodes
      → (s.nodes j).uuid ≢ uuid
      → covers (s.nodes j) unicast ≡ false) where
  -- A write at `i`, where no entry before `i` has the UUID, is found.
  found_at :
      (i : ℕ) (t : Provisioner)
      → i < env.max_nodes
      → t.nodes ≡ update s.nodes i node
      → ((j : ℕ) → j < i → eq_bytes (s.nodes j).uuid uuid ≡ false)
      → (k : ℕ) × (get_node_info env t.nodes unicast ≡ some k) × (t.nodes k ≡ node)
  found_at i t inside e before =
      let at : t.nodes i ≡ node = ap (λ f. f i) e ∙ update_self s.nodes i node in
      (
        i,
        get_node_info-at env t.nodes unicast i valid inside (rw at here) (λ j low.
            ap (λ f. covers (f j) unicast) e
            ∙ (ap (λ n. covers n unicast) (update_ne s.nodes i node j (omega arith))
                ∙ others j (omega arith) (ne_of_eq_bytes _ _ (before j low)))),
        at,
      )

  found_case :
      (t : Provisioner) (err : EspErr)
      → StoreCase env uuid unicast node s t err
      → err ≡ ok
      → (k : ℕ) × (get_node_info env t.nodes unicast ≡ some k) × (t.nodes k ≡ node)
  unfolding entry_of free_entry
  found_case t _ (bad_address e same) h = cc
  found_case t _ (full e f same) h = cc
  found_case t _ (reprovisioned i e same) h =
      let range = find_from_found env.max_nodes 0 (λ j. eq_bytes (s.nodes j).uuid uuid) {j = i} e in
      found_at i t (omega (arith, range.1)) same (λ j low.
        find_from_first env.max_nodes 0 (λ k. eq_bytes (s.nodes k).uuid uuid) e j (omega arith) low)
  found_case t _ (added i e f same) h =
      let range =
        find_from_found env.max_nodes 0 (λ j. (s.nodes j).unicast == addr_unassigned) {j = i} f in
      found_at i t (omega (arith, range.1)) same (λ j low.
        find_from-none env.max_nodes 0 (λ k. eq_bytes (s.nodes k).uuid uuid) e j (omega arith)
          (omega (arith, range.1)))

-- A node with at least one element that was stored successfully, at a unicast address that no other node's range holds,
-- is what the address is looked up as, with all that was stored of it.
pub get-store_node_info :
    (env : Env) (uuid : List ℕ) (unicast elem_num onoff : ℕ) (s : Provisioner)
    → (store_node_info env uuid unicast elem_num onoff s).0 ≡ ok
    → env.is_unicast unicast ≡ true
    → 0 < elem_num
    → ((j : ℕ) → j < env.max_nodes → (s.nodes j).uuid ≢ uuid → covers (s.nodes j) unicast ≡ false)
    → let t = (store_node_info env uuid unicast elem_num onoff s).1 in
      (k : ℕ) × (get_node_info env t.nodes unicast ≡ some k)
      × (t.nodes k ≡ record { uuid = uuid; unicast = unicast; elem_num = elem_num; onoff = onoff })
get-store_node_info env uuid unicast elem_num onoff s stored valid some_element others =
    let new : NodeInfo = node env uuid unicast elem_num onoff s in
    found_case env uuid unicast new s valid (covers_self new some_element) others _ _
      (store_case env uuid unicast elem_num onoff s) stored
