-- ===== src/Ota/Pending.antt =====
-- The report of a successful update that internal_communication/main/mesh_ota.c keeps over the restart.
use esp32_ble_mesh.Base.{
  Bool, List, Option, [], codes, false, if◌then◌else◌, none, not, or_empty, some, strlcpy, true, ℕ,
  ◌&&◌, ◌||◌, ◌∷◌,
}
use esp32_ble_mesh.Ota.State.{
  Key, M, Nvs, Request, emit, fw_key, get, marked_valid, modify, msg_key, pure, skip, status, ◌>>=◌,
  ◌>>◌,
}

abbrev pub is_empty : List ℕ → Bool
is_empty [] = true
is_empty (c ∷ s) = false

-- A text that is reported, or NULL where it is empty.
abbrev pub or_null : List ℕ → Option (List ℕ)
or_null [] = none
or_null (c ∷ s) = some (c ∷ s)

-- `publish_status`.
unfoldable pub publish_status : {F : Type 0} → Request → List ℕ → List ℕ → M F (Unit {0})
publish_status request text detail = do
  s ← get
  if s.has_callback
      then emit (status text (or_null request.fw_version) (or_null request.ota_msg_id) detail)
      else skip

-- The writes behind `nvs_open`, unless it fails.
abbrev pub change_flash : {F : Type 0} → Option F → (F → F) → M F (Unit {0})
change_flash none change = skip
change_flash (some opened) change = modify (λ s. record s { flash = change opened })

-- What follows a write to `f`, unless it fails.
abbrev pub written : {F : Type 0} → F → Option F → (F → F) → F
written f none next = f
written f (some g) next = next g

-- A text that is written unless it is empty, and what follows.
abbrev pub put_str : {F : Type 0} → Nvs F → Key → List ℕ → (F → F) → F → F
put_str nvs key [] next f = next f
put_str nvs key (c ∷ s) next f = written f (nvs.set_str f key (c ∷ s)) next

-- `save_pending_success`, whose result its caller does not read.
unfoldable pub save_pending_success : {F : Type 0} → Nvs F → Request → M F (Unit {0})
save_pending_success nvs request = do
  s ← get
  change_flash (nvs.open_write s.flash)
      (put_str nvs fw_key request.fw_version (put_str nvs msg_key request.ota_msg_id nvs.commit))

abbrev pub is_some : Option (List ℕ) → Bool
is_some none = false
is_some (some t) = true

-- `load_pending_success`: whether either text is there, and the two texts.
unfoldable pub load_pending_success : {F : Type 0} → Nvs F → F → Bool × List ℕ × List ℕ
load_pending_success nvs f =
    if nvs.open_read f
    then (let fw = nvs.get_str f fw_key 64 in
        let msg = nvs.get_str f msg_key 128 in
        (is_some fw || is_some msg, or_empty fw, or_empty msg))
    else (false, [], [])

-- `clear_pending_success`.
unfoldable pub clear_pending_success : {F : Type 0} → Nvs F → M F (Unit {0})
clear_pending_success nvs = do
  s ← get
  change_flash (nvs.open_write s.flash)
      (λ f. nvs.commit (nvs.erase_key (nvs.erase_key f fw_key) msg_key))

-- `mesh_ota_confirm_running`, given whether the running image is to be verified, the version of the
-- build, and what esp_ota_mark_app_valid_cancel_rollback returns.
unfoldable pub confirm_running : {F : Type 0} → Nvs F → Bool → List ℕ → ℕ → M F ℕ
confirm_running nvs pending_verify build_version mark_answer = do
  s ← get
  let loaded = load_pending_success nvs s.flash
  if not pending_verify && not loaded.0 then pure 0 else do
    publish_status
        (record {
          url = [];
          sha256 = [];
          fw_version =
              strlcpy (if is_empty loaded.1 then strlcpy build_version 64 else loaded.1) 64;
          ota_msg_id = strlcpy loaded.2 128;
        })
        (codes "success") (codes "running")
    emit marked_valid
    clear_pending_success nvs
    pure mark_answer
