-- ===== src/MeshRoot/Status.antt =====
-- `root_handle_node_status` of internal_communication/main/mesh_main.c.
use esp32_ble_mesh.Base.{
  List, Option, and_left, and_right, ap, arith, eq_of_eq_bytes, false, find_from-none,
  find_from_found, if◌then◌else◌, inl, inr, none, not, refl, some, sym, true, update, update_self,
  ℕ, ◌<◌, ◌==◌, ◌∙◌, ◌≡◌, ◌≢◌, ◌⊎◌,
}
use esp32_ble_mesh.MeshRoot.Lookup.{
  AddCase, add_case, added, claimed, full, known, nodes-root_publish_node_status, other_text,
}
use esp32_ble_mesh.MeshRoot.Registry.{entry_of, free_entry, has_mac}
use esp32_ble_mesh.MeshRoot.Reports.{recorded, rewrite_entry, root_handle_node_status}
use esp32_ble_mesh.MeshRoot.State.{Config, NodeEntry, Root, StatusPacket}

-- The entry `i` of a node that has reported.
abbrev pub Reported : ℕ → List ℕ → StatusPacket → ℕ → Root → Type 0
Reported now_us from st i t =
    ((t.nodes i).used ≡ true)
    × ((t.nodes i).online ≡ true)
    × ((t.nodes i).mac ≡ st.mac)
    × ((t.nodes i).addr ≡ from)
    × ((t.nodes i).on ≡ (if st.on == 0 then 0 else 1))
    × ((t.nodes i).last_seen_us ≡ now_us)

-- No entry in use has the address.
abbrev pub Unknown : Config → List ℕ → (ℕ → NodeEntry) → Type 0
Unknown config mac nodes =
    (k : ℕ) → k < config.max_nodes → (nodes k).used ≡ true → (nodes k).mac ≢ mac

-- Every entry is in use.
abbrev pub Full : Config → (ℕ → NodeEntry) → Type 0
Full config nodes = (k : ℕ) → k < config.max_nodes → (nodes k).used ≡ true

-- The entry `i` is the address's, or it is free and no entry has the address.
abbrev pub Assigned : Config → List ℕ → ℕ → (ℕ → NodeEntry) → Type 0
Assigned config mac i nodes =
    (((nodes i).used ≡ true) × ((nodes i).mac ≡ mac))
    ⊎ (((nodes i).used ≡ false) × Unknown config mac nodes)

entry_of-none :
    (config : Config) (mac : List ℕ) (nodes : ℕ → NodeEntry)
    → entry_of config nodes mac ≡ none
    → Unknown config mac nodes
unfolding entry_of
entry_of-none config mac nodes e k inside =
    other_text (nodes k).used (nodes k).mac mac
      (find_from-none config.max_nodes 0 (has_mac nodes mac) e k (omega arith) (omega arith))

free_entry-none :
    (config : Config) (nodes : ℕ → NodeEntry) → free_entry config nodes ≡ none → Full config nodes
unfolding free_entry
free_entry-none config nodes e k inside =
    let busy =
      find_from-none config.max_nodes 0 (λ i. not (nodes i).used) e k (omega arith) (omega arith) in
    ground arith

update_twice :
    (nodes : ℕ → NodeEntry) (i : ℕ) (v w : NodeEntry) (j : ℕ)
    → update (update nodes i v) i w j ≡ update nodes i w j
unfolding update
update_twice nodes i v w j = ground arith

module _ (config : Config) (now now_us : ℕ) (from : List ℕ) (st : StatusPacket) (size : ℕ) where
  abbrev rewritten : NodeEntry → NodeEntry
  rewritten = recorded config now_us from st size

  nodes-rewrite_entry :
      (i : ℕ) (t : Root)
      → (rewrite_entry config now (λ s. recorded config now_us from st size) (some i) t).1.nodes
        ≡ update t.nodes i (rewritten (t.nodes i))
  unfolding rewrite_entry
  nodes-rewrite_entry i t = nodes-root_publish_node_status config now _ _

  abbrev Handled : Root → Root → Type 0
  Handled s t =
      ((t ≡ s) × Full config s.nodes × Unknown config st.mac s.nodes)
      ⊎ ((i : ℕ) × (i < config.max_nodes)
          × Assigned config st.mac i s.nodes
          × Reported now_us from st i t
          × ((j : ℕ) → t.nodes j ≡ update s.nodes i (t.nodes i) j))

  abbrev after : Option ℕ × Root → Root
  after r = (rewrite_entry config now (λ s. recorded config now_us from st size) r.0 r.1).1

  -- A report recorded in the entry `i` of the registry `t`.
  reported :
      (i : ℕ) (t : Root)
      → (t.nodes i).used ≡ true
      → (t.nodes i).mac ≡ st.mac
      → Reported now_us from st i (after (some i, t))
  unfolding recorded
  reported i t used mac =
      let here : (after (some i, t)).nodes i ≡ rewritten (t.nodes i) =
        ap (λ nodes. nodes i) (nodes-rewrite_entry i t) ∙ update_self t.nodes i _ in
      (
        ap (λ n. n.used) here ∙ used,
        ap (λ n. n.online) here,
        ap (λ n. n.mac) here ∙ mac,
        ap (λ n. n.addr) here,
        ap (λ n. n.on) here,
        ap (λ n. n.last_seen_us) here,
      )

  -- The other entries stay.
  others_stay :
      (i : ℕ) (t : Root) (j : ℕ)
      → (after (some i, t)).nodes j ≡ update t.nodes i ((after (some i, t)).nodes i) j
  others_stay i t j =
      let there = ap (λ nodes. nodes j) (nodes-rewrite_entry i t) in
      let here = ap (λ nodes. nodes i) (nodes-rewrite_entry i t) ∙ update_self t.nodes i _ in
      there ∙ ap (λ n. update t.nodes i n j) (sym here)

  -- An entry that was found is the sender's.
  known-reported :
      (i : ℕ) (s : Root) → entry_of config s.nodes st.mac ≡ some i → Handled s (after (some i, s))
  unfolding entry_of
  known-reported i s e =
      let found = find_from_found config.max_nodes 0 (has_mac s.nodes st.mac) {j = i} e in
      let inside : i < config.max_nodes = omega (arith, found.1) in
      let own : (s.nodes i).mac ≡ st.mac =
        eq_of_eq_bytes (s.nodes i).mac st.mac (and_right _ _ found.2) in
      inr (
        i,
        inside,
        inl (and_left _ _ found.2, own),
        reported i s (and_left _ _ found.2) own,
        others_stay i s,
      )

  -- So is one that was free.
  added-reported :
      (i : ℕ) (s : Root)
      → entry_of config s.nodes st.mac ≡ none
      → free_entry config s.nodes ≡ some i
      → Handled s (after (some i, record s { nodes = update s.nodes i (claimed st.mac) }))
  unfolding free_entry
  added-reported i s e f =
      let t : Root = record s { nodes = update s.nodes i (claimed st.mac) } in
      let found = find_from_found config.max_nodes 0 (λ k. not (s.nodes k).used) {j = i} f in
      let own = update_self s.nodes i (claimed st.mac) in
      inr (
        i,
        omega (arith, found.1),
        inr (ground arith, entry_of-none config st.mac s.nodes e),
        reported i t (ap (λ n. n.used) own) (ap (λ n. n.mac) own),
        λ j.
            others_stay i t j
            ∙ update_twice s.nodes i (claimed st.mac) ((after (some i, t)).nodes i) j,
      )

  handled : (s : Root) (r : Option ℕ × Root) → AddCase config st.mac s r → Handled s (after r)
  handled s _ (full e f) = inl (
    unfold rewrite_entry in refl,
    free_entry-none config s.nodes f,
    entry_of-none config st.mac s.nodes e,
  )
  handled s _ (known i e) = known-reported i s e
  handled s _ (added i e f) = added-reported i s e f

-- A status packet is recorded in one entry, the sender's, or a free one if no entry in use has the
-- sender's address; it is then in use, online and the sender's, with the state and the time of the
-- report, and no other entry changes. Otherwise nothing changes at all, and this happens only where
-- every entry is in use and none has the sender's address.
pub handle_status_outcome :
    (config : Config) (now now_us : ℕ) (from : List ℕ) (st : StatusPacket) (size : ℕ) (s : Root)
    → let t = (root_handle_node_status config now now_us from st size s).1 in
      ((t ≡ s) × Full config s.nodes × Unknown config st.mac s.nodes)
      ⊎ ((i : ℕ) × (i < config.max_nodes)
          × Assigned config st.mac i s.nodes
          × Reported now_us from st i t
          × ((j : ℕ) → t.nodes j ≡ update s.nodes i (t.nodes i) j))
unfolding root_handle_node_status
handle_status_outcome config now now_us from st size s =
    handled config now now_us from st size s _ (add_case config st.mac s)
