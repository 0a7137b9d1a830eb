-- ===== src/OnoffNode/Shown/Lit.antt =====
-- What the LED calls of esp_ble_mesh/onoff_models/onoff_server/main do to the LED.
use esp32_ble_mesh.Base.{
  Bool, Bool-cases, Option, arith, false, if◌then◌else◌, inl, inr, ltb, none, not, refl, some, suc,
  true, zero, ℕ, ◌&&◌, ◌+◌, ◌-◌, ◌==◌, ◌≡◌,
}
use esp32_ble_mesh.OnoffNode.Board.{board_led_operation, board_led_write}
use esp32_ble_mesh.OnoffNode.Messages.{change_led_state, led_at, led_loop}
use esp32_ble_mesh.OnoffNode.State.{Context, Flash, M, Node, Place, Sdk}
use esp32_ble_mesh.OnoffNode.Storage.{load_node_state, store_node_state, write_back}

-- What stands outside the saved values: the server's state and the LED.
pub record Front : Type 0 where
  pub server : ℕ
  pub previous : ℕ
  pub level : ℕ

abbrev pub front : {F : Type 0} → Node F → Front
front s = record { server = s.server_onoff; previous = s.previous; level = s.level }

-- The server and the LED have this value, and `led_state` knows it.
abbrev pub all_at : ℕ → Front
all_at onoff = record { server = onoff; previous = onoff; level = onoff }

-- The message is for the one element of the node: it names its address, a group that its model
-- subscribes to, or all nodes.
abbrev pub reaches : Sdk → Place → Context → Bool
reaches sdk place ctx =
    place.elem_count == 1
    && (place.element == place.primary
        && (if sdk.is_unicast ctx.recv_dst
            then ctx.recv_dst == place.primary
            else (if sdk.is_group ctx.recv_dst then ctx.subscribed else ctx.recv_dst == 0xFFFF)))

module _ {F : Type 0} where
  pub write_back-front :
      (o : Option F) (change : F → F) (s : Node F) → front (write_back o change s).1 ≡ front s
  write_back-front none change s = refl
  write_back-front (some f) change s = refl

  pub front-store :
      (nvs : Flash F) (sdk : Sdk) (stage addr onoff : ℕ) (s : Node F)
      → front (store_node_state nvs sdk stage addr onoff s).1 ≡ front s
  unfolding store_node_state
  front-store nvs sdk stage addr onoff s = write_back-front (nvs.open_write s.flash) _ (record s {
    stage = if ltb stage s.stage then s.stage else stage;
    addr = if not (sdk.is_unicast addr) && sdk.is_unicast s.addr then s.addr else addr;
    restored_onoff = onoff;
  })

  pub front-load : (nvs : Flash F) (s : Node F) → front (load_node_state nvs s).1 ≡ front s
  unfolding load_node_state
  front-load nvs s = elim (Bool-cases (nvs.open_read s.flash)) [
    | inl e ↦ rw e refl
    | inr e ↦ rw e refl
  ]

  -- An LED whose `previous` is right shows what it is told.
  pub board_led_operation-front :
      (onoff : ℕ) (s : Node F)
      → s.previous ≡ s.level
      → front (board_led_operation onoff s).1
        ≡ record { server = s.server_onoff; previous = onoff; level = onoff }
  unfolding board_led_operation board_led_write
  board_led_operation-front onoff s h = ground arith

  led_at-front :
      (i onoff : ℕ) (s : Node F)
      → i ≡ 0
      → s.previous ≡ s.level
      → front (led_at i onoff s).1
        ≡ record { server = s.server_onoff; previous = onoff; level = onoff }
  unfolding led_at
  led_at-front i onoff s first h =
      let here : (i == 0) ≡ true = ground arith in rw here (board_led_operation-front onoff s h)

  led_loop-front :
      (n dst primary onoff : ℕ) (s : Node F)
      → n ≡ 1
      → dst ≡ primary
      → s.previous ≡ s.level
      → front (led_loop n 0 dst primary onoff s).1
        ≡ record { server = s.server_onoff; previous = onoff; level = onoff }
  unfolding led_loop
  led_loop-front zero dst primary onoff s one same h = absurd (omega arith)
  led_loop-front (suc (suc n)) dst primary onoff s one same h = absurd (omega arith)
  led_loop-front (suc zero) dst primary onoff s one same h =
      let here : (dst == primary + 0) ≡ true = ground arith in
      rw here (led_at-front 0 onoff s refl h)

  pub change_led_state-front :
      (sdk : Sdk) (place : Place) (ctx : Context) (onoff : ℕ) (s : Node F)
      → reaches sdk place ctx ≡ true
      → s.previous ≡ s.level
      → front (change_led_state sdk place ctx onoff s).1
        ≡ record { server = s.server_onoff; previous = onoff; level = onoff }
  unfolding change_led_state
  change_led_state-front sdk place ctx onoff s h known =
      let one : place.elem_count ≡ 1 = ground arith in
      let own : place.element - place.primary ≡ 0 = ground arith in
      let lit = led_at-front (place.element - place.primary) onoff s own known in
      elim (Bool-cases (sdk.is_unicast ctx.recv_dst)) [
        | inl direct ↦
            let same : ctx.recv_dst ≡ place.primary = ground arith in
            rw direct
              (led_loop-front place.elem_count ctx.recv_dst place.primary onoff s one same known)
        | inr other ↦ elim (Bool-cases (sdk.is_group ctx.recv_dst)) [
          | inl group ↦
              let member : ctx.subscribed ≡ true = ground arith in rw (other, group, member) lit
          | inr rest ↦
              let every : (ctx.recv_dst == 0xFFFF) ≡ true = ground arith in
              rw (other, rest, every) lit
        ]
      ]

  pub branch-front :
      (b : Bool) (m n : M F (Unit {0})) (s : Node F) (v : Front)
      → front (m s).1 ≡ v
      → front (n s).1 ≡ v
      → front ((if b then m else n) s).1 ≡ v
  branch-front true m n s v yes_case no_case = yes_case
  branch-front false m n s v yes_case no_case = no_case

  pub write_back-restored :
      (o : Option F) (change : F → F) (s : Node F)
      → (write_back o change s).1.restored_onoff ≡ s.restored_onoff
  write_back-restored none change s = refl
  write_back-restored (some f) change s = refl

  pub store-restored :
      (nvs : Flash F) (sdk : Sdk) (stage addr onoff : ℕ) (s : Node F)
      → (store_node_state nvs sdk stage addr onoff s).1.restored_onoff ≡ onoff
  unfolding store_node_state
  store-restored nvs sdk stage addr onoff s =
      write_back-restored (nvs.open_write s.flash) _ (record s {
        stage = if ltb stage s.stage then s.stage else stage;
        addr = if not (sdk.is_unicast addr) && sdk.is_unicast s.addr then s.addr else addr;
        restored_onoff = onoff;
      })
