-- ===== src/MeshRoot/Kept/Operations.antt =====
-- That the operations of internal_communication/main/mesh_main.c keep the addresses of the registry
-- apart.
use mathlib.Core.Path.{subst}
use native.Mathlib.Decide.{ℕ_discrete}
use esp32_ble_mesh.Base.{
  Bool, List, Option, [], ap, arith, eq_bytes, eq_bytes_refl, false, find_from-none, if◌then◌else◌,
  none, not, refl, some, suc, sym, true, update, update_ne, update_self, zero, ℕ, ◌<◌, ◌∙◌, ◌∷◌,
  ◌≡◌,
}
use esp32_ble_mesh.MeshRoot.Commands.{
  command_entry, mesh_apply_local_ctl, mesh_broadcast_ctl, mesh_unicast_ctl, mqtt_handle_node_cmd,
  send_all,
}
use esp32_ble_mesh.MeshRoot.Lookup.{
  AddCase, add_case, added, claimed, full, known, nodes-root_publish_node_status,
}
use esp32_ble_mesh.MeshRoot.Registry.{entry_of, has_mac, node_find_or_add, node_id}
use esp32_ble_mesh.MeshRoot.Reports.{
  expire, expire_from, is_stale, recorded, refreshed, rewrite_entry, root_handle_node_status,
  root_publish_gateway_status, root_refresh_self, status_message_id,
}
use esp32_ble_mesh.MeshRoot.Rules.{branch}
use esp32_ble_mesh.MeshRoot.State.{Config, NodeEntry, Root, StatusPacket, emit, sent_ctl, skip}

-- Entries of one address are one entry.
abbrev pub Distinct : (ℕ → NodeEntry) → ℕ → Type 0
Distinct nodes n =
    (i j : ℕ)
    → i < n
    → j < n
    → (nodes i).used ≡ true
    → (nodes j).used ≡ true
    → (nodes i).mac ≡ (nodes j).mac
    → i ≡ j

-- A field that a write keeps.
update-field {ℓ} :
    {B : Type ℓ} (f : NodeEntry → B) (nodes : ℕ → NodeEntry) (k : ℕ) (entry : NodeEntry)
    → f entry ≡ f (nodes k)
    → (x : ℕ) → f (update nodes k entry x) ≡ f (nodes x)
update-field f nodes k entry same x = elim (ℕ_discrete k x) [
  | yes e ↦
      ap (λ y. f (update nodes k entry y)) (sym e)
      ∙ (ap f (update_self nodes k entry) ∙ (same ∙ ap (λ y. f (nodes y)) e))
  | no ne ↦ ap f (update_ne nodes k entry x ne)
]

-- Writing an entry that keeps its use and its address.
rewrite-Distinct :
    (nodes : ℕ → NodeEntry) (n k : ℕ) (entry : NodeEntry)
    → Distinct nodes n
    → entry.used ≡ (nodes k).used
    → entry.mac ≡ (nodes k).mac
    → Distinct (update nodes k entry) n
rewrite-Distinct nodes n k entry v same_used same_mac i j hi hj ui uj e =
    let used_at = update-field (λ x. x.used) nodes k entry same_used in
    let mac_at = update-field (λ x. x.mac) nodes k entry same_mac in
    v i j hi hj (sym (used_at i) ∙ ui) (sym (used_at j) ∙ uj) (sym (mac_at i) ∙ (e ∙ mac_at j))

-- No entry has an address that the loop has not found.
Unknown : (ℕ → NodeEntry) → ℕ → List ℕ → Type 0
Unknown nodes n mac = (m : ℕ) → m < n → (nodes m).used ≡ true → (nodes m).mac ≡ mac → ⊥

-- Writing an entry of an address that no entry has.
claim-Distinct :
    (nodes : ℕ → NodeEntry) (n k : ℕ) (entry : NodeEntry)
    → Distinct nodes n
    → Unknown nodes n entry.mac
    → Distinct (update nodes k entry) n
unfolding Unknown
claim-Distinct nodes n k entry v unknown i j hi hj ui uj e =
    let own = update_self nodes k entry in
    let away = update_ne nodes k entry in
    elim (ℕ_discrete k i) [
      | yes ki ↦ elim (ℕ_discrete k j) [
        | yes kj ↦ sym ki ∙ kj
        | no kj ↦ absurd (
            unknown j hj (ap (λ x. x.used) (sym (away j kj)) ∙ uj) (
              ap (λ x. x.mac) (sym (away j kj))
              ∙ (sym e ∙ (ap (λ y. (update nodes k entry y).mac) (sym ki) ∙ ap (λ x. x.mac) own))))
      ]
      | no ki ↦ elim (ℕ_discrete k j) [
        | yes kj ↦ absurd (
            unknown i hi (ap (λ x. x.used) (sym (away i ki)) ∙ ui) (
              ap (λ x. x.mac) (sym (away i ki))
              ∙ (e ∙ (ap (λ y. (update nodes k entry y).mac) (sym kj) ∙ ap (λ x. x.mac) own))))
        | no kj ↦
            v i j hi hj (ap (λ x. x.used) (sym (away i ki)) ∙ ui)
              (ap (λ x. x.used) (sym (away j kj)) ∙ uj)
              (ap (λ x. x.mac) (sym (away i ki)) ∙ (e ∙ ap (λ x. x.mac) (away j kj)))
      ]
    ]

entry_of-Unknown :
    (config : Config) (nodes : ℕ → NodeEntry) (mac : List ℕ)
    → entry_of config nodes mac ≡ none
    → Unknown nodes config.max_nodes mac
unfolding entry_of Unknown
entry_of-Unknown config nodes mac h m inside used same =
    let other =
      find_from-none config.max_nodes 0 (has_mac nodes mac) h m (omega arith) (omega arith) in
    let equal : eq_bytes (nodes m).mac mac ≡ true =
      ap (λ x. eq_bytes x mac) same ∙ eq_bytes_refl mac in
    cc (rw (used, equal) at other)

module _ (config : Config) where
  abbrev pub Keeps : Root → Type 0
  Keeps s = Distinct s.nodes config.max_nodes

  added-Distinct :
      (mac : List ℕ) (s : Root) (r : Option ℕ × Root) → AddCase config mac s r → Keeps s → Keeps r.1
  added-Distinct mac s _ (known i e) v = v
  added-Distinct mac s _ (full e f) v = v
  added-Distinct mac s _ (added i e f) v =
      claim-Distinct s.nodes config.max_nodes i (claimed mac) v
        (entry_of-Unknown config s.nodes mac e)

  find_or_add-Distinct :
      (mac : List ℕ) (s : Root) → Keeps s → Keeps (node_find_or_add config mac s).1
  find_or_add-Distinct mac s v = added-Distinct mac s _ (add_case config mac s) v

  rewrite_entry-Distinct :
      (now : ℕ) (f : Root → NodeEntry → NodeEntry) (entry : Option ℕ) (s : Root)
      → ((n : NodeEntry) → (f s n).used ≡ n.used)
      → ((n : NodeEntry) → (f s n).mac ≡ n.mac)
      → Keeps s
      → Keeps (rewrite_entry config now f entry s).1
  unfolding rewrite_entry
  rewrite_entry-Distinct now f none s hu hm v = v
  rewrite_entry-Distinct now f (some i) s hu hm v =
      subst (λ nodes. Distinct nodes config.max_nodes)
        (sym (nodes-root_publish_node_status config now _ _))
        (rewrite-Distinct s.nodes config.max_nodes i (f s (s.nodes i)) v (hu (s.nodes i))
          (hm (s.nodes i)))

  expire-Distinct : (now now_us i : ℕ) (s : Root) → Keeps s → Keeps (expire config now now_us i s).1
  unfolding expire
  expire-Distinct now now_us i s v =
      branch Keeps (not (is_stale now_us (s.nodes i))) skip _ s (λ e. v)
        (λ e.
          subst (λ nodes. Distinct nodes config.max_nodes)
            (sym (nodes-root_publish_node_status config now _ _))
            (rewrite-Distinct s.nodes config.max_nodes i (record (s.nodes i) { online = false }) v
              refl refl))

  pub expire_from-Distinct :
      (now now_us k i : ℕ) (s : Root) → Keeps s → Keeps (expire_from config now now_us k i s).1
  unfolding expire_from
  expire_from-Distinct now now_us zero i s v = v
  expire_from-Distinct now now_us (suc k) i s v =
      expire_from-Distinct now now_us k (suc i) _ (expire-Distinct now now_us i s v)

  pub handle-Distinct :
      (now now_us : ℕ) (from : List ℕ) (st : StatusPacket) (size : ℕ) (s : Root)
      → Keeps s
      → Keeps (root_handle_node_status config now now_us from st size s).1
  unfolding root_handle_node_status recorded
  handle-Distinct now now_us from st size s v =
      rewrite_entry-Distinct now (λ t. recorded config now_us from st size) _ _ (λ n. refl)
        (λ n. refl) (find_or_add-Distinct st.mac s v)

  pub refresh-Distinct :
      (now now_us : ℕ) (s : Root) → Keeps s → Keeps (root_refresh_self config now now_us s).1
  unfolding root_refresh_self refreshed
  refresh-Distinct now now_us s v =
      rewrite_entry-Distinct now (refreshed config now_us) _ _ (λ n. refl) (λ n. refl)
        (find_or_add-Distinct s.self_mac s v)

  pub gateway-Distinct :
      (now : ℕ) (s : Root) → Keeps s → Keeps (root_publish_gateway_status config now s).1
  unfolding root_publish_gateway_status status_message_id
  gateway-Distinct now s v = branch Keeps (not s.has_client) skip _ s (λ e. v) (λ e. v)

  command_entry-Distinct :
      (on : Bool) (entry : Option ℕ) (s : Root) → Keeps s → Keeps (command_entry on entry s).1
  unfolding command_entry mesh_unicast_ctl
  command_entry-Distinct on none s v = v
  command_entry-Distinct on (some i) s v =
      let kept =
        rewrite-Distinct s.nodes config.max_nodes i
          (record (s.nodes i) { on = if on then 1 else 0 }) v refl refl in
      branch Keeps (not s.is_root) skip _ _ (λ e. kept) (λ e. kept)

  pub node_cmd-Distinct :
      (now now_us : ℕ) (id : List ℕ) (on : Bool) (s : Root)
      → Keeps s
      → Keeps (mqtt_handle_node_cmd config now now_us id on s).1
  unfolding mqtt_handle_node_cmd mesh_apply_local_ctl
  node_cmd-Distinct now now_us id on s v =
      branch Keeps (eq_bytes id (node_id s.self_mac)) _ _ s (λ e. refresh-Distinct now now_us _ v)
        (λ e. command_entry-Distinct on _ s v)

  send_all-Distinct :
      (table : List (List ℕ)) (on : Bool) (s : Root) → Keeps s → Keeps (send_all table on s).1
  unfolding send_all
  send_all-Distinct [] on s v = v
  send_all-Distinct (addr ∷ table) on s v =
      send_all-Distinct table on _
        (branch Keeps (eq_bytes addr s.self_mac) skip (emit (sent_ctl addr on)) s (λ e. v) (λ e. v))

  pub group-Distinct :
      (table : List (List ℕ)) (on : Bool) (s : Root)
      → Keeps s
      → Keeps (mesh_broadcast_ctl table on s).1
  unfolding mesh_broadcast_ctl mesh_apply_local_ctl
  group-Distinct table on s v =
      branch Keeps (not s.is_root) skip _ s (λ e. v) (λ e. send_all-Distinct table on s v)
