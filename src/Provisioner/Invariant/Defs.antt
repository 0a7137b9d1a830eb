-- ===== src/Provisioner/Invariant/Defs.antt =====
-- The representation invariant of the static variables of esp_ble_mesh/provisioner/main/main.c.
use esp32_ble_mesh.Base.{Bool, arith, false, length, refl, true, update, ℕ, ◌%◌, ◌+◌, ◌<◌, ◌≡◌, ◌≤◌}
use esp32_ble_mesh.Provisioner.Commands.{message_id_size}
use esp32_ble_mesh.Provisioner.Requests.{to_byte}
use esp32_ble_mesh.Provisioner.Rules.{update_keeps}
use esp32_ble_mesh.Provisioner.State.{PendingCommand, Provisioner, farmely_max_retries, no_command}

-- An entry of `s_pending`: cleared unless in flight, with counters and the buffer in range.
pub record IsCommand (c : PendingCommand) : Type 0 where
  pub cleared : c.in_flight ≡ false → c ≡ no_command
  pub retries_capped : c.retries ≤ farmely_max_retries
  pub desired_bit : c.desired_onoff ≤ 1
  pub id_fits : length c.message_id < message_id_size

pub record IsValid (pending : ℕ → PendingCommand) (get_retries config_retries : ℕ → ℕ) (tid : ℕ)
    : Type 0 where
  pub commands : (i : ℕ) → IsCommand (pending i)
  pub gets_capped : (i : ℕ) → get_retries i ≤ farmely_max_retries
  pub configs_capped : (i : ℕ) → config_retries i ≤ farmely_max_retries
  pub tid_byte : tid < 256

abbrev pub Inv : Provisioner → Type 0
Inv s = IsValid s.pending s.get_retries s.config_retries s.tid

pub no_command-IsCommand : IsCommand no_command
no_command-IsCommand = record {
  cleared = λ e. refl;
  retries_capped = omega arith;
  desired_bit = omega arith;
  id_fits = omega arith;
}

-- The other parts of the invariant are passed on.
pub write_pending :
    (s : Provisioner) (i : ℕ) (c : PendingCommand)
    → Inv s
    → IsCommand c
    → Inv (record s { pending = update s.pending i c })
write_pending s i c v h = record {
  commands = update_keeps IsCommand s.pending i c v.commands h;
  gets_capped = v.gets_capped;
  configs_capped = v.configs_capped;
  tid_byte = v.tid_byte;
}

pub write_get_retries :
    (s : Provisioner) (i n : ℕ)
    → Inv s
    → n ≤ farmely_max_retries
    → Inv (record s { get_retries = update s.get_retries i n })
write_get_retries s i n v h = record {
  commands = v.commands;
  gets_capped = update_keeps (λ k. k ≤ farmely_max_retries) s.get_retries i n v.gets_capped h;
  configs_capped = v.configs_capped;
  tid_byte = v.tid_byte;
}

pub write_config_retries :
    (s : Provisioner) (i n : ℕ)
    → Inv s
    → n ≤ farmely_max_retries
    → Inv (record s { config_retries = update s.config_retries i n })
write_config_retries s i n v h = record {
  commands = v.commands;
  gets_capped = v.gets_capped;
  configs_capped =
      update_keeps (λ k. k ≤ farmely_max_retries) s.config_retries i n v.configs_capped h;
  tid_byte = v.tid_byte;
}

pub write_tid : (s : Provisioner) → Inv s → Inv (record s { tid = (s.tid + 1) % 256 })
write_tid s v = record {
  commands = v.commands;
  gets_capped = v.gets_capped;
  configs_capped = v.configs_capped;
  tid_byte = omega arith;
}

pub to_byte-le : (on : Bool) → to_byte on ≤ 1
to_byte-le true = omega arith
to_byte-le false = omega arith
