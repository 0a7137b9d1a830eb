-- ===== src/MeshRoot/Updates.antt =====
-- Whom `handle_mqtt_ota_command` of internal_communication/main/mesh_main.c has updated.
use esp32_ble_mesh.Base.{
  Bool, Bool-cases, List, Option, and_left, and_right, arith, c_string, eq_bytes, eq_of_eq_bytes,
  false, find_from_found, if◌then◌else◌, inl, inr, length, ltb, none, not, refl, some, true, ℕ,
  ◌&&◌, ◌<◌, ◌||◌, ◌∷◌, ◌≡◌, ◌⊎◌,
}
use esp32_ble_mesh.MeshRoot.Registry.{node_find_by_id, node_id}
use esp32_ble_mesh.MeshRoot.Routing.{
  forward_to, handle_mqtt_ota_command, is_empty, mesh_forward_ota_request, ota_command, ota_for,
  run_ota_command,
}
use esp32_ble_mesh.MeshRoot.State.{
  Config, M, OtaCommand, Out, Root, emit, sent_ota, skip, started_ota,
}
use esp32_ble_mesh.MeshRoot.Topics.{
  between, id_that_fits, is_some, new_gateway_prefix, new_light_prefix, new_ota_suffix,
}

-- The command is for this gateway, or for the registered node that the topic names.
abbrev pub UpdateFor : Config → List ℕ → OtaCommand → Root → Out → Type 0
UpdateFor config topic command s out =
    ((id : List ℕ) × (between new_gateway_prefix new_ota_suffix topic ≡ some id)
      × (out ≡ started_ota command.url command.sha256 command.fw_version command.ota_msg_id))
    ⊎ ((id : List ℕ) × (i : ℕ) × (between new_light_prefix new_ota_suffix topic ≡ some id)
        × (i < config.max_nodes)
        × ((s.nodes i).used ≡ true)
        × (node_id (s.nodes i).mac ≡ c_string id)
        × (out ≡ sent_ota (s.nodes i).addr command))

-- Nothing happens, or one update is asked for, by the root, with a URL and a digest.
abbrev pub Updated : Config → List ℕ → OtaCommand → Root → Root → Type 0
Updated config topic command s t =
    (t ≡ s)
    ⊎ ((out : Out) × (t ≡ record s { outs = out ∷ s.outs })
        × (s.is_root ≡ true)
        × (is_empty command.url ≡ false)
        × (is_empty command.sha256 ≡ false)
        × UpdateFor config topic command s out)

or_left : (a b : Bool) → (a || b) ≡ false → a ≡ false
or_left a b h = ground arith

or_right : (a b : Bool) → (a || b) ≡ false → b ≡ false
or_right a b h = ground arith

true_of_not : (b : Bool) → not b ≡ false → b ≡ true
true_of_not b h = ground arith

module _ (config : Config) (topic payload : List ℕ) (s : Root) where
  abbrev pub named : OtaCommand
  named = ota_command config s.self_mac (c_string payload)

  branch-Updated :
      (b : Bool) (m n : M (Unit {0}))
      → (b ≡ true → Updated config topic named s (m s).1)
      → (b ≡ false → Updated config topic named s (n s).1)
      → Updated config topic named s ((if b then m else n) s).1
  branch-Updated true m n yes_case no_case = yes_case refl
  branch-Updated false m n yes_case no_case = no_case refl

  module _ (root : s.is_root ≡ true) (has_url : is_empty named.url ≡ false)
      (has_sha : is_empty named.sha256 ≡ false) where
    forward-Updated :
        (id : List ℕ) (o : Option ℕ)
        → between new_light_prefix new_ota_suffix topic ≡ some id
        → node_find_by_id config s.nodes (c_string id) ≡ o
        → Updated config topic named s (forward_to config named o s).1
    unfolding node_find_by_id
    forward-Updated id none here search = inl refl
    forward-Updated id (some i) here search =
        let bears : ℕ → Bool =
          λ j. (s.nodes j).used && eq_bytes (node_id (s.nodes j).mac) (c_string id) in
        let found = find_from_found config.max_nodes 0 bears {j = i} search in
        let inside : i < config.max_nodes = omega (arith, found.1) in
        inr (
          _,
          refl,
          root,
          has_url,
          has_sha,
          inr (
            id,
            i,
            here,
            inside,
            and_left _ _ found.2,
            eq_of_eq_bytes _ (c_string id) (and_right _ _ found.2),
            refl,
          ),
        )

    send-Updated :
        (is_gateway : Bool) (id : List ℕ)
        → between (if is_gateway then new_gateway_prefix else new_light_prefix) new_ota_suffix topic
          ≡ some id
        → Updated config topic named s
            ((if is_gateway
                then emit (started_ota named.url named.sha256 named.fw_version named.ota_msg_id)
                else mesh_forward_ota_request config (c_string id) named)
              s).1
    unfolding mesh_forward_ota_request
    send-Updated true id here = inr (_, refl, root, has_url, has_sha, inl (id, here, refl))
    send-Updated false id here =
        branch-Updated (not s.is_root) skip
          (forward_to config named (node_find_by_id config s.nodes (c_string id))) (λ e. inl refl)
          (λ e. forward-Updated id (node_find_by_id config s.nodes (c_string id)) here refl)

  run-Updated :
      (is_gateway : Bool) (id : List ℕ)
      → s.is_root ≡ true
      → between (if is_gateway then new_gateway_prefix else new_light_prefix) new_ota_suffix topic
        ≡ some id
      → Updated config topic named s (run_ota_command config is_gateway (c_string id) payload s).1
  unfolding run_ota_command
  run-Updated is_gateway id root here =
      branch-Updated (is_empty named.url || is_empty named.sha256) skip
        (if is_gateway
          then emit (started_ota named.url named.sha256 named.fw_version named.ota_msg_id)
          else mesh_forward_ota_request config (c_string id) named)
        (λ e. inl refl) (λ e. send-Updated root (or_left _ _ e) (or_right _ _ e) is_gateway id here)

  fits-Updated :
      (is_gateway : Bool) (o : Option (List ℕ))
      → s.is_root ≡ true
      → between (if is_gateway then new_gateway_prefix else new_light_prefix) new_ota_suffix topic
        ≡ o
      → Updated config topic named s (ota_for config is_gateway payload (id_that_fits o) s).1
  fits-Updated is_gateway none root here = inl refl
  fits-Updated is_gateway (some id) root here = elim (Bool-cases (ltb (length id) 24)) [
    | inl e ↦ rw e (run-Updated is_gateway id root here)
    | inr e ↦ rw e (inl refl)
  ]

  -- A message on any topic asks for no update, or for one: by the root, with the URL and the digest that
  -- the payload names, of the gateway on a topic for gateways, or of a registered node with the id that
  -- the topic names.
  pub mqtt_ota_command_outcome :
      Updated config topic named s (handle_mqtt_ota_command config topic payload s).1
  unfolding handle_mqtt_ota_command
  mqtt_ota_command_outcome =
      let gateway = between new_gateway_prefix new_ota_suffix topic in
      let light = between new_light_prefix new_ota_suffix topic in
      branch-Updated (not s.is_root) skip
        (if is_some gateway
          then ota_for config true payload (id_that_fits gateway)
          else ota_for config false payload (id_that_fits light))
        (λ e. inl refl)
        (λ e.
          branch-Updated (is_some gateway) (ota_for config true payload (id_that_fits gateway))
            (ota_for config false payload (id_that_fits light))
            (λ g. fits-Updated true gateway (true_of_not _ e) refl)
            (λ g. fits-Updated false light (true_of_not _ e) refl))
