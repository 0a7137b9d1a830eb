-- ===== src/MeshRoot/Lookup.antt =====
-- The outcomes of `node_find_or_add_locked` of internal_communication/main/mesh_main.c.
use esp32_ble_mesh.Base.{
  Bool, List, Option, Option-cases, and_left, and_right, ap, arith, eq_bytes, eq_bytes_refl,
  eq_of_eq_bytes, false, find_from-none, find_from_found, inl, inr, none, some, true, update, ℕ,
  ◌&&◌, ◌<◌, ◌≡◌, ◌≢◌,
}
use esp32_ble_mesh.MeshRoot.Registry.{
  claim_entry, entry_of, free_entry, node_find_by_id, node_find_or_add, node_id,
}
use esp32_ble_mesh.MeshRoot.Reports.{root_publish_node_status}
use esp32_ble_mesh.MeshRoot.State.{Config, NodeEntry, Root, no_entry}

abbrev pub claimed : List ℕ → NodeEntry
claimed mac = record no_entry { used = true; mac = mac }

-- An entry in use that fails the test of a search has another text.
pub other_text :
    (used : Bool) (own text : List ℕ) → used && eq_bytes own text ≡ false → used ≡ true → own ≢ text
other_text false own text fails busy = cc
other_text true own text fails busy =
    λ same. cc (fails, ap (λ l. eq_bytes own l) same, eq_bytes_refl own)

-- No entry in use bears the id.
abbrev pub NoNode : Config → List ℕ → Root → Type 0
NoNode config id s =
    (k : ℕ) → k < config.max_nodes → (s.nodes k).used ≡ true → node_id (s.nodes k).mac ≢ id

-- The look-up by an id.
module _ (config : Config) (id : List ℕ) (s : Root) where
  bears : ℕ → Bool
  bears i = (s.nodes i).used && eq_bytes (node_id (s.nodes i).mac) id

  pub node_find_by_id-some :
      {i : ℕ}
      → node_find_by_id config s.nodes id ≡ some i
      → (i < config.max_nodes) × ((s.nodes i).used ≡ true) × (node_id (s.nodes i).mac ≡ id)
  unfolding node_find_by_id bears
  node_find_by_id-some {i} e =
      let found = find_from_found config.max_nodes 0 bears {j = i} e in
      (
        omega (arith, found.1),
        and_left _ _ found.2,
        eq_of_eq_bytes (node_id (s.nodes i).mac) id (and_right _ _ found.2),
      )

  pub node_find_by_id-none : node_find_by_id config s.nodes id ≡ none → NoNode config id s
  unfolding node_find_by_id bears
  node_find_by_id-none e k inside =
      other_text (s.nodes k).used (node_id (s.nodes k).mac) id
        (find_from-none config.max_nodes 0 bears e k (omega arith) (omega arith))

-- The address is known, or an unused entry takes it, or the registry is full.
pub data AddCase (config : Config) (mac : List ℕ) (s : Root) : Option ℕ × Root → Type 0 where
  known : (i : ℕ) → entry_of config s.nodes mac ≡ some i → AddCase config mac s (some i, s)
  added :
      (i : ℕ)
      → entry_of config s.nodes mac ≡ none
      → free_entry config s.nodes ≡ some i
      → AddCase config mac s (some i, record s { nodes = update s.nodes i (claimed mac) })
  full :
      entry_of config s.nodes mac ≡ none
      → free_entry config s.nodes ≡ none
      → AddCase config mac s (none, s)

pub add_case :
    (config : Config) (mac : List ℕ) (s : Root)
    → AddCase config mac s (node_find_or_add config mac s)
unfolding node_find_or_add claim_entry
add_case config mac s = elim (Option-cases (entry_of config s.nodes mac)) [
  | inr (i, e) ↦ rw (e, node_find_or_add) (known i e)
  | inl e ↦ elim (Option-cases (free_entry config s.nodes)) [
    | inl f ↦ rw (e, node_find_or_add, f) (full e f)
    | inr (i, f) ↦ rw (e, node_find_or_add, f) (added i e f)
  ]
]

-- Publishing changes no entry.
pub nodes-root_publish_node_status :
    (config : Config) (now : ℕ) (n : NodeEntry) (s : Root)
    → (root_publish_node_status config now n s).1.nodes ≡ s.nodes
unfolding root_publish_node_status
nodes-root_publish_node_status config now n s = ground arith
