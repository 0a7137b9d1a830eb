-- ===== src/Provisioner/Tests.antt =====
-- Concrete runs of the provisioner of esp_ble_mesh/provisioner/main/main.c.
use esp32_ble_mesh.Base.{
  List, [], ap, arith, codes, eq_bytes, false, get_or, if◌then◌else◌, ltb, none, refl, replicate,
  some, suc, true, update, zero, ℕ, ◌&&◌, ◌++◌, ◌+◌, ◌-◌, ◌<◌, ◌∷◌, ◌≡◌, ◌≢◌, ◌≤◌, ◌⊎◌,
}
use esp32_ble_mesh.Provisioner.Boot.{zeroed}
use esp32_ble_mesh.Provisioner.Commands.{
  bridge_command, is_registered, send_group_onoff, send_onoff,
}
use esp32_ble_mesh.Provisioner.Commands.Broadcast.{group_all_or_none, group_refused}
use esp32_ble_mesh.Provisioner.Commands.Directed.{
  bridge_command_directed, entry_after, send_onoff_outcome, taken,
}
use esp32_ble_mesh.Provisioner.GenericClient.{GenericEvent, GenericReply}
use esp32_ble_mesh.Provisioner.Invariant.Defs.{Inv, IsCommand, no_command-IsCommand, write_pending}
use esp32_ble_mesh.Provisioner.Machine.{Step, boot, command, generic, provisioning, run}
use esp32_ble_mesh.Provisioner.Machine.Acks.{Outcome, step-acks}
use esp32_ble_mesh.Provisioner.Machine.GetRetries.{GetCounted, get_timeout, get_timeouts_repeat}
use esp32_ble_mesh.Provisioner.Machine.Progress.{run-stage_le}
use esp32_ble_mesh.Provisioner.Machine.Retries.{Counted, config_timeout, config_timeouts_repeat}
use esp32_ble_mesh.Provisioner.Machine.Safety.{run-boot-Inv}
use esp32_ble_mesh.Provisioner.Machine.Setup.{Asked, setup, setup-Asked}
use esp32_ble_mesh.Provisioner.Machine.Timeouts.{IsSetTimeout, requests, set_timeouts_give_up}
use esp32_ble_mesh.Provisioner.Nodes.{
  covers, device_id, entry_of, free_entry, get_node_info, put_node, store_node_info,
}
use esp32_ble_mesh.Provisioner.Nodes.Identity.{device_id-injective, shown}
use esp32_ble_mesh.Provisioner.Nodes.Lookup.{get-store_node_info}
use esp32_ble_mesh.Provisioner.Provisioning.{prov_complete}
use esp32_ble_mesh.Provisioner.State.{
  Env, NodeInfo, Opcode, PendingCommand, Provisioner, app_key_add, farmely_max_retries,
  gen_onoff_get, gen_onoff_set, invalid_state, is_ok, model_app_bind, model_sub_add, no_command,
  no_node, ok,
}
use esp32_ble_mesh.Provisioner.Storage.{Saved, store_nodes}

-- A table of three nodes, and a stack that answers ESP_OK.
abbrev env : Env
env = record {
  max_nodes = 3;
  answer = λ l e. ok;
  is_unicast = λ a. ltb 0 a && ltb a 32768;
  onoff_srv_id = 0x1000;
  cid_nval = 0xffff;
  key_primary = 0;
}

abbrev saved : Saved
saved = record { stage = none; blob = none }

abbrev uuid_of : ℕ → List ℕ
uuid_of n = replicate 15 0xdd ++ (n ∷ [])

abbrev lamp : NodeInfo
lamp = record { uuid = uuid_of 1; unicast = 5; elem_num = 1; onoff = 0 }

abbrev second_lamp : NodeInfo
second_lamp = record {
  uuid = 0xdd ∷ 0xdd ∷ 0 ∷ 1 ∷ 2 ∷ 3 ∷ 4 ∷ 0xab ∷ replicate 8 7;
  unicast = 6;
  elem_num = 1;
  onoff = 0;
}

abbrev command_on : PendingCommand
command_on = record { in_flight = true; desired_onoff = 1; retries = 1; message_id = codes "m-1" }

-- Two lamps; a command to switch the first on is in flight.
abbrev flying : Provisioner
flying = record (record zeroed { nodes = update (update (λ i. no_node) 0 lamp) 1 second_lamp }) {
  pending = update (λ i. no_command) 0 command_on;
}

-- And no command.
abbrev idle : Provisioner
idle = record zeroed { nodes = update (update (λ i. no_node) 0 lamp) 1 second_lamp }

abbrev reply_of : Opcode → GenericReply
reply_of opcode = record { error_code = 0; opcode = opcode; addr = 5; present_onoff = 1 }

-- The first lamp is provisioned, commanded, and confirms.
abbrev history : List Step
history =
    provisioning (prov_complete 0 (uuid_of 1) 5 1)
    ∷ command (codes "*") true (some (codes "m-1"))
    ∷ generic GenericEvent.set_state_event (reply_of gen_onoff_set)
    ∷ []

run-boot-Inv_example : Inv (run env history (boot env saved ok (uuid_of 0)))
run-boot-Inv_example = run-boot-Inv env saved ok (uuid_of 0) history

run-stage_le_example : idle.progress_stage ≤ (run env history idle).progress_stage
run-stage_le_example = run-stage_le env history idle

step-acks_example :
    Outcome env (generic GenericEvent.set_state_event (reply_of gen_onoff_set)) flying
step-acks_example =
    step-acks env (generic GenericEvent.set_state_event (reply_of gen_onoff_set)) flying

command_on-IsCommand : IsCommand command_on
command_on-IsCommand = record {
  cleared = λ e. cc;
  retries_capped = omega arith;
  desired_bit = omega arith;
  id_fits = omega arith;
}

idle-Inv : Inv idle
unfolding zeroed
idle-Inv = record {
  commands = λ i. no_command-IsCommand;
  gets_capped = λ i. omega arith;
  configs_capped = λ i. omega arith;
  tid_byte = omega arith;
}

flying-Inv : Inv flying
unfolding zeroed
flying-Inv = write_pending idle 0 command_on idle-Inv command_on-IsCommand

is_timeout : IsSetTimeout env (reply_of gen_onoff_set) 0 flying
unfolding get_node_info update
is_timeout = record { is_set = refl; no_error = refl; from_node = refl }

in_flight : (flying.pending 0).in_flight ≡ true
unfolding update
in_flight = refl

set_timeouts_give_up_example :
    let timeout = generic GenericEvent.timeout_event (reply_of gen_onoff_set) in
    let left : ℕ = farmely_max_retries - (flying.pending 0).retries in
    let t = run env (replicate (suc left) timeout) flying in
    (t.pending 0 ≡ no_command) × (requests t.log ≤ requests flying.log + left)
set_timeouts_give_up_example =
    set_timeouts_give_up env (reply_of gen_onoff_set) 0 flying flying-Inv is_timeout in_flight

registered : is_registered env flying 0 ≡ true
unfolding update
registered = refl

group_refused_example :
    send_group_onoff env true (some (codes "m-2")) flying ≡ (invalid_state, flying)
group_refused_example =
    group_refused env true (some (codes "m-2")) flying 0 (omega arith) registered in_flight

group_all_or_none_example :
    let r = send_group_onoff env true (some (codes "m-2")) idle in
    ((is_ok r.0 ≡ true)
      × (r.1.pending 1 ≡ (
          if is_registered env idle 1
          then taken env 1 true (some (codes "m-2")) idle
          else idle.pending 1)))
    ⊎ ((is_ok r.0 ≡ false) × ((r.1 ≡ idle) ⊎ (r.1.pending 1 ≡ no_command)))
group_all_or_none_example = group_all_or_none env true (some (codes "m-2")) idle 1 (omega arith)

send_onoff_outcome_example :
    let r = send_onoff env 0 true (some (codes "m-2")) flying in
    (((flying.pending 0).in_flight ≡ false) ⊎ (r ≡ (invalid_state, flying)))
    × (r.1.pending 0 ≡ entry_after env 0 true (some (codes "m-2")) flying r.0 0)
send_onoff_outcome_example =
    send_onoff_outcome env 0 true (some (codes "m-2")) flying 0 (omega arith)

-- The id of the second lamp is not that of the first.
other_id : device_id lamp ≢ device_id (flying.nodes 1)
unfolding update
other_id h = absurd (omega (arith, ap (λ l. get_or l 5 0) h))

directed : eq_bytes (device_id lamp) (codes "*") ≡ false
directed = refl

bridge_command_directed_example :
    (bridge_command env (device_id lamp) true (some (codes "m-2")) flying).1.pending 1
    ≡ flying.pending 1
bridge_command_directed_example =
    bridge_command_directed env (device_id lamp) true (some (codes "m-2")) flying 1 directed
      other_id

stored : (store_node_info env (uuid_of 3) 7 1 0 idle).0 ≡ ok
unfolding store_node_info entry_of free_entry put_node store_nodes update
stored = refl

uncovered :
    (j : ℕ) → j < env.max_nodes → (idle.nodes j).uuid ≢ uuid_of 3 → covers (idle.nodes j) 7 ≡ false
unfolding update
uncovered zero h ne = refl
uncovered (suc zero) h ne = refl
uncovered (suc (suc zero)) h ne = refl
uncovered (suc (suc (suc j))) h ne = absurd (omega arith)

get-store_node_info_example :
    let t = (store_node_info env (uuid_of 3) 7 1 0 idle).1 in
    (k : ℕ) × (get_node_info env t.nodes 7 ≡ some k)
    × (t.nodes k ≡ record { uuid = uuid_of 3; unicast = 7; elem_num = 1; onoff = 0 })
get-store_node_info_example =
    get-store_node_info env (uuid_of 3) 7 1 0 idle stored refl (omega arith) uncovered

-- Another lamp of the same device id.
abbrev third_lamp : NodeInfo
third_lamp = record lamp { uuid = uuid_of 3 }

device_id-injective_example : shown lamp ≡ shown third_lamp
device_id-injective_example =
    device_id-injective lamp third_lamp (omega arith, omega arith, omega arith)
      (omega arith, omega arith, omega arith) refl

known_lamp : get_node_info env idle.nodes 5 ≡ some 0
unfolding get_node_info update
known_lamp = refl

setup-Asked_example :
    Asked
      ((gen_onoff_get, 5) ∷ (model_sub_add, 5) ∷ (model_app_bind, 5) ∷ (app_key_add, 5) ∷ [])
      idle
      (run env (setup 5) idle)
unfolding update
setup-Asked_example = setup-Asked env 0 5 idle known_lamp

config_timeouts_repeat_example :
    let left : ℕ = farmely_max_retries - idle.config_retries 0 in
    Counted 0 0
      (replicate left (app_key_add, (idle.nodes 0).unicast))
      idle
      (run env (replicate (suc left) (config_timeout app_key_add 5)) idle)
config_timeouts_repeat_example =
    config_timeouts_repeat env 0 5 app_key_add idle refl known_lamp idle-Inv

at_rest : (idle.pending 0).in_flight ≡ false
unfolding zeroed
at_rest = refl

get_timeouts_repeat_example :
    let left : ℕ = farmely_max_retries - idle.get_retries 0 in
    GetCounted 0 0
      (replicate left (gen_onoff_get, (idle.nodes 0).unicast))
      idle
      (run env (replicate (suc left) (get_timeout 5)) idle)
get_timeouts_repeat_example = get_timeouts_repeat env 0 5 idle known_lamp at_rest idle-Inv
