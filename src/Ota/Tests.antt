-- ===== src/Ota/Tests.antt =====
-- Concrete updates of internal_communication/main/mesh_ota.c.
use esp32_ble_mesh.Base.{
  Bool, List, Option, [], ap, arith, codes, false, if◌then◌else◌, length, none, refl, replicate,
  some, sym, true, ℕ, ◌%◌, ◌+◌, ◌∙◌, ◌∷◌, ◌≡◌, ◌⊎◌,
}
use esp32_ble_mesh.Ota.Digits.{bytes_of, hex_text, sha256_hex_to_bytes-hex_text}
use esp32_ble_mesh.Ota.Ends.{EndsIn, ota_task_ends}
use esp32_ble_mesh.Ota.Hex.{hex_nibble, hex_pairs, is_hex_sha256, sha256_hex_to_bytes}
use esp32_ble_mesh.Ota.Pending.{confirm_running, publish_status, save_pending_success}
use esp32_ble_mesh.Ota.Report.{
  NvsLaws, after_boot, fits, request_with, same_key, success_reported_once,
}
use esp32_ble_mesh.Ota.Retry.{Started, ota_can_start_again, ota_start_outcome}
use esp32_ble_mesh.Ota.Start.{ota_start, request_of}
use esp32_ble_mesh.Ota.State.{Codes, Key, Nvs, Ota, Psa, Request, marked_valid, status}
use esp32_ble_mesh.Ota.Task.{
  Download, check_image, compared, conclude, download, fetch, give_up, handle_events, hash_piece,
  http_event_handler, on_data, ota_task, other_event, perform_loop, reboot, rebooted, received,
}
use esp32_ble_mesh.Ota.Verified.Checked.{IsNonzero, Verified, reboot_needs_digest}

-- A checksum in the place of SHA-256: 32 times the number of bytes.
abbrev checksum : Psa ℕ
checksum = record {
  crypto_init = 0;
  hash_setup = (0, 0);
  hash_update = λ op bytes. (0, op + length bytes);
  hash_finish = λ op. (0, replicate 32 (op % 256));
}

abbrev error_codes : Codes
error_codes = record {
  in_progress = 0x9001;
  invalid_size = 0x104;
  esp_fail = 0x1FF;
  invalid_crc = 0x109;
  invalid_arg = 0x102;
  invalid_state = 0x103;
  no_mem = 0x101;
}

error_codes-IsNonzero : IsNonzero error_codes
error_codes-IsNonzero = record {
  invalid_size_ne = omega arith;
  esp_fail_ne = omega arith;
  invalid_crc_ne = omega arith;
}

-- A flash in memory: whether the namespace exists, and its texts.
record Image : Type 0 where
  created : Bool
  texts : Key → Option (List ℕ)

abbrev read_text : Option (List ℕ) → ℕ → Option (List ℕ)
read_text none size = none
read_text (some text) size = fits text size

abbrev memory : Nvs Image
memory = record {
  open_read = λ f. f.created;
  open_write = λ f. some (record f { created = true });
  get_str = λ f k size. read_text (f.texts k) size;
  set_str =
      λ f k text. some (record f { texts = λ j. if same_key k j then some text else f.texts j });
  erase_key = λ f k. record f { texts = λ j. if same_key k j then none else f.texts j };
  commit = λ f. f;
}

read_text-if :
    (b : Bool) (o p : Option (List ℕ)) (size : ℕ)
    → read_text (if b then o else p) size ≡ (if b then read_text o size else read_text p size)
read_text-if true o p size = refl
read_text-if false o p size = refl

get_set_memory :
    (f : Image) (k : Key) (text : List ℕ) (g : Image) (j : Key) (size : ℕ)
    → memory.set_str f k text ≡ some g
    → memory.get_str g j size ≡ (if same_key k j then fits text size else memory.get_str f j size)
get_set_memory f k text g j size h =
    let same : record f { texts = λ (i : Key). if same_key k i then some text else f.texts i } ≡ g =
      cc in
    sym (ap (λ (i : Image). read_text (i.texts j) size) same)
    ∙ read_text-if (same_key k j) (some text) (f.texts j) size

memory-laws : NvsLaws memory
memory-laws = record {
  opens = λ f. (record f { created = true }, refl);
  reads = λ f g h. ground arith;
  sets = λ f k text. (_, refl);
  reads_set = λ f k text g h. ground arith;
  get_set = get_set_memory;
  reads_commit = λ f. refl;
  get_commit = λ f j size. refl;
  get_erase = λ f k j size. read_text-if (same_key k j) none (f.texts j) size;
}

abbrev three_bytes : List (ℕ × Bool × Bool)
three_bytes = replicate 32 (3, false, true)

abbrev sample_request : Request
sample_request =
    request_with (codes "https://host/fw.bin") (hex_text three_bytes) (codes "1.2.0") (codes "m-1")

-- Three bytes arrive while the update is in progress.
abbrev sample_download : Download
sample_download = record {
  begin = record { events = other_event ∷ []; err = 0 };
  has_handle = true;
  performs =
      record { events = on_data (some (1 ∷ (2 ∷ []))) ∷ []; err = 0x9001 }
      ∷ (record { events = on_data none ∷ (on_data (some (3 ∷ [])) ∷ []); err = 0 } ∷ []);
  complete = true;
  finish = 0;
}

abbrev idle : Ota Image
idle = record {
  running = true;
  has_callback = true;
  flash = record { created = false; texts = λ j. none };
  outs = [];
}

abbrev no_name : ℕ → List ℕ
no_name err = codes "error"

sample_reboots :
    (ota_task checksum error_codes memory no_name sample_request sample_download idle).0
    ≡ some rebooted
unfolding ota_task fetch give_up publish_status sha256_hex_to_bytes is_hex_sha256 hex_pairs
    hex_nibble download perform_loop handle_events http_event_handler hash_piece check_image
    received compared conclude reboot save_pending_success
sample_reboots = refl

reboot_needs_digest_example :
    Verified checksum error_codes.in_progress sample_request sample_download
reboot_needs_digest_example =
    reboot_needs_digest checksum error_codes error_codes-IsNonzero memory no_name sample_request
      sample_download idle sample_reboots

ota_task_ends_example :
    EndsIn checksum error_codes memory no_name sample_request sample_download
      (ota_task checksum error_codes memory no_name sample_request sample_download idle)
ota_task_ends_example =
    ota_task_ends checksum error_codes memory no_name sample_request sample_download idle refl

ota_can_start_again_example :
    let t = ota_task checksum error_codes memory no_name sample_request sample_download idle in
    (t.0 ≡ some rebooted)
    ⊎ ((ota_start error_codes true true (some (codes "u")) none none none t.1).0
        ≡ (0, some (request_of (some (codes "u")) none none none)))
ota_can_start_again_example =
    ota_can_start_again checksum error_codes memory no_name sample_request sample_download b'u' []
      none none none idle refl

ota_start_outcome_example :
    Started
      (request_of (some (codes "u")) none none none)
      idle
      (ota_start error_codes true true (some (codes "u")) none none none idle)
ota_start_outcome_example =
    ota_start_outcome error_codes true true (some (codes "u")) none none none idle (omega arith)
      (omega arith) (omega arith) (omega arith)

sha256_hex_to_bytes-hex_text_example :
    sha256_hex_to_bytes (hex_text three_bytes) ≡ some (bytes_of three_bytes)
sha256_hex_to_bytes-hex_text_example = sha256_hex_to_bytes-hex_text three_bytes refl refl

success_reported_once_example :
    let saved = (save_pending_success memory (request_with [] [] (b'2' ∷ []) (b'm' ∷ [])) idle).1 in
    let t = (confirm_running memory false (codes "1") 259 (after_boot saved.flash)).1 in
    (t.outs
      ≡ marked_valid
        ∷ (status (codes "success") (some (b'2' ∷ [])) (some (b'm' ∷ [])) (codes "running") ∷ []))
    × ((confirm_running memory false (codes "1") 259 (after_boot saved.flash)).0 ≡ 259)
    × ((confirm_running memory false (codes "1") 0 t).1 ≡ t)
success_reported_once_example =
    success_reported_once memory memory-laws [] [] b'2' b'm' [] [] idle false (codes "1")
      (codes "1") 259 0 (omega arith) (omega arith)
