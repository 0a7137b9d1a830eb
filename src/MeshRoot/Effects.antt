-- ===== src/MeshRoot/Effects.antt =====
-- What the commands of internal_communication/main/mesh_main.c do to the lights.
use mathlib.Core.List.{reverse}
use esp32_ble_mesh.Base.{
  Bool, List, Option, [], ap, arith, codes, eq_bytes, false, if◌then◌else◌, length, length-append,
  map, none, not, refl, some, take, take-all, true, update, ℕ, ◌%◌, ◌++◌, ◌+◌, ◌<◌, ◌^◌, ◌∷◌, ◌≡◌,
  ◌≢◌, ◌⊎◌,
}
use esp32_ble_mesh.MeshRoot.Lookup.{AddCase, NoNode, add_case, added, claimed, full, known}
use esp32_ble_mesh.MeshRoot.Registry.{node_id}
use esp32_ble_mesh.MeshRoot.Reports.{
  refreshed, rewrite_entry, root_publish_node_status, root_refresh_self, status_message_id,
  unix_ts_s,
}
use esp32_ble_mesh.MeshRoot.Routing.{is_nonempty, publish_ack}
use esp32_ble_mesh.MeshRoot.Rules.{branch}
use esp32_ble_mesh.MeshRoot.State.{
  Config, M, MessageId, NodeEntry, Out, Payload, Root, ack, applied_light, published, sent_ctl,
  skip,
}

abbrev pub bit : Bool → ℕ
bit on = if on then 1 else 0

-- Nothing but messages of the MQTT client has left the root since.
pub data Published (before : List Out) : List Out → Type 0 where
  no_more : Published before before
  one_more :
      {topic : List ℕ} {text : Payload} {after : List Out}
      → Published before after
      → Published before (published topic text ∷ after)

pub Published-trans : {a b c : List Out} → Published a b → Published b c → Published a c
Published-trans p no_more = p
Published-trans p (one_more q) = one_more (Published-trans p q)

-- The acknowledgement of a message of a node: one where the message has an id and the client is there.
abbrev pub Acked :
    ℕ → (id msg_id : List ℕ) → (has_client : Bool) → (before after : List Out) → Type 0
Acked now id [] has_client before after = after ≡ before
Acked now id (c ∷ m) false before after = after ≡ before
Acked now id (c ∷ m) true before after =
    (message_id : MessageId) × (message_id.device_id ≡ id)
    × (after
        ≡ published (codes "farmely/light/" ++ (id ++ codes "/up/event"))
            (ack message_id (unix_ts_s now) (c ∷ m))
          ∷ before)

-- The id is the root's own, and its light is switched.
abbrev pub OwnLight : ℕ → (id msg_id : List ℕ) → Bool → Root → Root → Type 0
OwnLight now id msg_id on s t =
    (id ≡ node_id s.self_mac)
    × (t.light_state ≡ bit on)
    × (reports : List Out) × Published (applied_light on ∷ s.outs) reports
    × Acked now id msg_id s.has_client reports t.outs

-- A node of the registry has the id: its state is noted, and it is sent the command.
abbrev pub NodeLight : Config → ℕ → (id msg_id : List ℕ) → Bool → Root → Root → Type 0
NodeLight config now id msg_id on s t =
    (i : ℕ) × (i < config.max_nodes)
    × ((s.nodes i).used ≡ true)
    × (node_id (s.nodes i).mac ≡ id)
    × (t.nodes ≡ update s.nodes i (record (s.nodes i) { on = bit on }))
    × Acked now id msg_id s.has_client (sent_ctl (s.nodes i).addr on ∷ s.outs) t.outs

-- Nobody has the id.
abbrev pub NoLight : Config → ℕ → (id msg_id : List ℕ) → Root → Root → Type 0
NoLight config now id msg_id s t =
    (id ≢ node_id s.self_mac)
    × NoNode config id s
    × (t.nodes ≡ s.nodes)
    × Acked now id msg_id s.has_client s.outs t.outs

abbrev pub Commanded : Config → ℕ → (id msg_id : List ℕ) → Bool → Root → Root → Type 0
Commanded config now id msg_id on s t =
    OwnLight now id msg_id on s t
    ⊎ (NodeLight config now id msg_id on s t ⊎ NoLight config now id msg_id s t)

-- The addresses of a routing table that are not the root's own.
abbrev pub others : List ℕ → List (List ℕ) → List (List ℕ)
others own [] = []
others own (addr ∷ table) =
    let rest = others own table in if eq_bytes addr own then rest else addr ∷ rest

-- A group command: the root's light, and a message to each node of the routing table but the root.
abbrev pub Switched : List (List ℕ) → Option Bool → Root → Root → Type 0
Switched table none s t = t ≡ s
Switched table (some on) s t =
    (t.light_state ≡ bit on)
    × Published
        (applied_light on
          ∷ (reverse (map (λ addr. sent_ctl addr on) (others s.self_mac table)) ++ s.outs))
        t.outs

module _ (config : Config) (now : ℕ) where
  -- Only reports since `before`, and the light and the client as they were.
  abbrev pub Steady : Root → Root → Type 0
  Steady s t =
      (t.light_state ≡ s.light_state) × (t.has_client ≡ s.has_client) × Published s.outs t.outs

  publish-Steady : (n : NodeEntry) (s : Root) → Steady s (root_publish_node_status config now n s).1
  unfolding root_publish_node_status status_message_id
  publish-Steady n s =
      branch (Steady s) (not s.has_client) skip _ s (λ e. (refl, refl, no_more))
        (λ e. (refl, refl, one_more (one_more no_more)))

  rewrite-Steady :
      (f : Root → NodeEntry → NodeEntry) (o : Option ℕ) (s : Root)
      → Steady s (rewrite_entry config now f o s).1
  unfolding rewrite_entry
  rewrite-Steady f none s = (refl, refl, no_more)
  rewrite-Steady f (some i) s =
      let t : Root = record s { nodes = update s.nodes i (f s (s.nodes i)) } in
      publish-Steady (t.nodes i) t

  refreshed-Steady :
      (f : Root → NodeEntry → NodeEntry) (mac : List ℕ) (s : Root) (r : Option ℕ × Root)
      → AddCase config mac s r
      → Steady s (rewrite_entry config now f r.0 r.1).1
  refreshed-Steady f mac s _ (known i e) = rewrite-Steady f (some i) s
  refreshed-Steady f mac s _ (added i e g) =
      rewrite-Steady f (some i) (record s { nodes = update s.nodes i (claimed mac) })
  refreshed-Steady f mac s _ (full e g) = rewrite-Steady f none s

  pub refresh-Steady : (now_us : ℕ) (s : Root) → Steady s (root_refresh_self config now now_us s).1
  unfolding root_refresh_self
  refresh-Steady now_us s =
      refreshed-Steady (refreshed config now_us) s.self_mac s _ (add_case config s.self_mac s)

-- The acknowledgement at the end of a command.
module _ (now : ℕ) (id : List ℕ) where
  abbrev pub finish : List ℕ → M (Unit {0})
  finish msg_id = if is_nonempty msg_id then publish_ack now id msg_id else skip

  pub finish-Acked :
      (msg_id : List ℕ) (b : Bool) (s : Root)
      → length id < 24
      → s.has_client ≡ b
      → Acked now id msg_id b s.outs (finish msg_id s).1.outs
  unfolding publish_ack status_message_id
  finish-Acked [] b s fits client = refl
  finish-Acked (c ∷ m) false s fits client = rw client refl
  finish-Acked (c ∷ m) true s fits client =
      let topic = codes "farmely/light/" ++ (id ++ codes "/up/event") in
      let short : take 79 topic ≡ topic =
        take-all 79 topic (omega (arith, length-append id (codes "/up/event"))) in
      let message_id : MessageId = record {
        device_id = id;
        boot_nonce = s.boot_nonce;
        sequence = (s.sequence + 1) % 2 ^ 32;
      } in
      branch (λ t. Acked now id (c ∷ m) true s.outs t.outs) (not s.has_client) skip _ s
        (λ e. absurd (ground arith))
        (λ e. (
          message_id,
          refl,
          ap (λ l. published l (ack message_id (unix_ts_s now) (c ∷ m)) ∷ s.outs) short,
        ))

  pub finish-frame :
      (msg_id : List ℕ) (s : Root)
      → ((finish msg_id s).1.nodes ≡ s.nodes) × ((finish msg_id s).1.light_state ≡ s.light_state)
  unfolding publish_ack status_message_id
  finish-frame [] s = (refl, refl)
  finish-frame (c ∷ m) s =
      branch (λ t. (t.nodes ≡ s.nodes) × (t.light_state ≡ s.light_state)) (not s.has_client) skip _
        s (λ e. (refl, refl)) (λ e. (refl, refl))
