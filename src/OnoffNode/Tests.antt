-- ===== src/OnoffNode/Tests.antt =====
-- Concrete runs of the node of esp_ble_mesh/onoff_models/onoff_server/main/main.c.
use esp32_ble_mesh.Base.{
  Bool, List, Option, [], arith, false, if◌then◌else◌, leb, ltb, none, refl, some, true, ℕ, ◌&&◌,
  ◌∷◌, ◌≡◌,
}
use esp32_ble_mesh.OnoffNode.Board.{board_init, board_led_operation, board_led_write}
use esp32_ble_mesh.OnoffNode.Machine.{
  Answers, Event, app_main, ble_mesh_init, config, config_server_cb, model_app_bind, power_cycle,
  prov, prov_complete, prov_complete_evt, provisioning_cb, restore_light, run, server, start_radio,
  step,
}
use esp32_ble_mesh.OnoffNode.Messages.{
  change_led_state, generic_server_cb, led_at, led_loop, state_change,
}
use esp32_ble_mesh.OnoffNode.Persist.Laws.{FlashLaws, same_key}
use esp32_ble_mesh.OnoffNode.Shown.Lamp.{Happening, event, lamp_after, live, power_loss}
use esp32_ble_mesh.OnoffNode.Shown.Remembers.{node_is_lamp}
use esp32_ble_mesh.OnoffNode.Shown.Restored.{restart_restores}
use esp32_ble_mesh.OnoffNode.State.{Context, Flash, Key, Node, Place, Sdk, gen_onoff_set}
use esp32_ble_mesh.OnoffNode.Storage.{load_node_state, store_node_state}

-- A flash in memory: whether the namespace exists, and its entries.
record Image : Type 0 where
  created : Bool
  entries : Key → Option ℕ

abbrev memory : Flash Image
memory = record {
  open_read = λ f. f.created;
  open_write = λ f. some (record f { created = true });
  get_key = λ f k. f.entries k;
  set_key = λ f k v. record f { entries = λ j. if same_key k j then some v else f.entries j };
  commit = λ f. f;
  erase_all = λ f. record f { entries = λ j. none };
  format = λ f. record { created = false; entries = λ j. none };
}

memory-laws : FlashLaws memory
memory-laws = record {
  opens = λ f. (record f { created = true }, refl);
  reads = λ f g h. ground arith;
  reads_set = λ f k v. refl;
  reads_commit = λ f. refl;
  reads_erase = λ f. refl;
  get_set = λ f k v j. refl;
  get_commit = λ f j. refl;
  get_erase = λ f j. refl;
}

-- The address ranges of Bluetooth Mesh.
abbrev ranges : Sdk
ranges = record {
  is_unicast = λ a. ltb 0 a && ltb a 0x8000;
  is_group = λ a. leb 0xC000 a && ltb a 0xFF00;
  no_free_pages = 0x110D;
}

abbrev all_well : Answers
all_well = record {
  flash_init = 0;
  flash_erase = 0;
  flash_init_again = 0;
  bluetooth = 0;
  mesh_init = 0;
  prov_enable = 0;
  provisioned = false;
  primary = 0;
}

abbrev empty_node : Node Image
empty_node = record {
  stage = 0;
  addr = 0;
  restored_onoff = 0;
  server_onoff = 0;
  previous = 0;
  level = 0;
  flash = record { created = false; entries = λ j. none };
  outs = [];
}

abbrev own_place : Place
own_place = record { primary = 5; elem_count = 1; element = 5 }

abbrev set_from : ℕ → Context
set_from dst = record { recv_op = gen_onoff_set; recv_dst = dst; subscribed = true }

-- The node is provisioned as 5, bound, and switched on by a group message.
abbrev history : List Event
history =
    prov (prov_complete_evt 5)
    ∷ (config (model_app_bind 5) ∷ (server own_place (state_change (set_from 0xC000) 1) ∷ []))

restart_restores_example :
    let t = run memory ranges history (app_main memory ranges all_well empty_node).1 in
    let read = (load_node_state memory (power_cycle t)).1 in
    let u = (app_main memory ranges all_well (power_cycle t)).1 in
    (read.stage ≡ t.stage)
    × (read.addr ≡ t.addr)
    × (u.server_onoff ≡ t.server_onoff)
    × (u.level ≡ t.server_onoff)
restart_restores_example =
    restart_restores memory memory-laws ranges (omega arith) all_well all_well refl refl empty_node
      history refl

-- The node is provisioned and switched on, loses its power, is switched off and on again, and loses
-- its power again.
abbrev hard_life : List Happening
hard_life =
    event (prov (prov_complete_evt 5))
    ∷ (event (server own_place (state_change (set_from 0xC000) 1))
        ∷ (power_loss all_well
            ∷ (event (server own_place (state_change (set_from 5) 0))
                ∷ (event (server own_place (state_change (set_from 0xFFFF) 1))
                    ∷ (power_loss all_well ∷ [])))))

node_is_lamp_example :
    let start = (app_main memory ranges all_well empty_node).1 in
    let t = live memory ranges hard_life start in
    (t.server_onoff ≡ lamp_after hard_life start.server_onoff)
    × (t.level ≡ lamp_after hard_life start.server_onoff)
node_is_lamp_example =
    node_is_lamp memory memory-laws ranges (omega arith) all_well empty_node hard_life refl refl

-- The run ends in the last stage with the light on.
history_ends : (run memory ranges history (app_main memory ranges all_well empty_node).1).level ≡ 1
unfolding run step app_main restore_light start_radio load_node_state store_node_state board_init
    board_led_operation board_led_write provisioning_cb config_server_cb generic_server_cb
    prov_complete change_led_state led_at led_loop ble_mesh_init
history_ends = refl
