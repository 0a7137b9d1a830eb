-- ===== src/Ota/State.antt =====
-- The static variables of internal_communication/main/mesh_ota.c, and the libraries that it calls.
use esp32_ble_mesh.Base.{Bool, List, Option, ℕ, ◌∷◌}

-- `ota_request_t`; its fields are C strings.
pub record Request : Type 0 where
  pub url : List ℕ
  pub sha256 : List ℕ
  pub fw_version : List ℕ
  pub ota_msg_id : List ℕ

-- The error codes of ESP-IDF that the code names; ESP_OK is 0.
pub record Codes : Type 0 where
  pub in_progress : ℕ
  pub invalid_size : ℕ
  pub esp_fail : ℕ
  pub invalid_crc : ℕ
  pub invalid_arg : ℕ
  pub invalid_state : ℕ
  pub no_mem : ℕ

-- The hash functions of the PSA library: the status of `psa_crypto_init`, the status and the
-- operation of `psa_hash_setup`, and what `psa_hash_update` and `psa_hash_finish` return.
pub record Psa (H : Type 0) : Type 0 where
  pub crypto_init : ℕ
  pub hash_setup : ℕ × H
  pub hash_update : H → List ℕ → ℕ × H
  pub hash_finish : H → ℕ × List ℕ

-- NVS_KEY_FW and NVS_KEY_MSG of the namespace "ota".
pub data Key : Type 0 where
  fw_key : Key
  msg_key : Key

-- `nvs_open` for reading and for writing, `nvs_get_str` into a buffer of a size, `nvs_set_str`,
-- `nvs_erase_key` and `nvs_commit` on an image of the flash.
pub record Nvs (F : Type 0) : Type 0 where
  pub open_read : F → Bool
  pub open_write : F → Option F
  pub get_str : F → Key → ℕ → Option (List ℕ)
  pub set_str : F → Key → List ℕ → Option F
  pub erase_key : F → Key → F
  pub commit : F → F

-- What the client of the updates and the system are asked for: the status callback, the libraries of
-- the update, and the restart.
pub data Out : Type 0 where
  status :
      (text : List ℕ) → (fw : Option (List ℕ)) → (id : Option (List ℕ)) → (detail : List ℕ) → Out
  hash_aborted : Out
  update_finished : Out
  update_aborted : Out
  restarted : Out
  marked_valid : Out

-- `s_running`, whether `s_status_cb` is set, the flash, and what left the program, newest first.
pub record Ota (F : Type 0) : Type 0 where
  pub running : Bool
  pub has_callback : Bool
  pub flash : F
  pub outs : List Out

abbrev pub M : Type 0 → Type 0 → Type 0
M F A = Ota F → A × Ota F

abbrev pub pure : {F A : Type 0} → A → M F A
pure a s = (a, s)

infixl 5 ◌>>=◌ ◌>>◌
abbrev pub ◌>>=◌ : {F A B : Type 0} → M F A → (A → M F B) → M F B
◌>>=◌ m f s = f (m s).0 (m s).1

abbrev pub ◌>>◌ : {F A B : Type 0} → M F A → M F B → M F B
◌>>◌ m k s = k (m s).1

abbrev pub skip : {F : Type 0} → M F (Unit {0})
skip s = (tt, s)

abbrev pub get : {F : Type 0} → M F (Ota F)
get s = (s, s)

abbrev pub modify : {F : Type 0} → (Ota F → Ota F) → M F (Unit {0})
modify f s = (tt, f s)

abbrev pub emit : {F : Type 0} → Out → M F (Unit {0})
emit e s = (tt, record s { outs = e ∷ s.outs })
