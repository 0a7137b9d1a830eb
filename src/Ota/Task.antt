-- ===== src/Ota/Task.antt =====
-- The update task of internal_communication/main/mesh_ota.c.
use esp32_ble_mesh.Base.{
  Bool, List, Option, [], codes, eq_bytes, false, if◌then◌else◌, length, none, not, some, true, ℕ,
  ◌&&◌, ◌==◌, ◌||◌, ◌∷◌,
}
use esp32_ble_mesh.Ota.Hex.{sha256_hex_to_bytes}
use esp32_ble_mesh.Ota.Pending.{publish_status, save_pending_success}
use esp32_ble_mesh.Ota.State.{
  Codes, M, Nvs, Psa, Request, emit, hash_aborted, modify, pure, restarted, skip, update_aborted,
  update_finished, ◌>>=◌, ◌>>◌,
}

-- `ota_hash_t`.
pub record Hash (H : Type 0) : Type 0 where
  pub sha_op : H
  pub sha_started : Bool
  pub sha_failed : Bool

-- The events of the HTTP client: received data, where the pointer may be NULL, or anything else.
pub data HttpEvent : Type 0 where
  on_data : Option (List ℕ) → HttpEvent
  other_event : HttpEvent

-- One call of the update library: the events that it raises, and what it returns.
pub record Call : Type 0 where
  pub events : List HttpEvent
  pub err : ℕ

-- What the update library does: esp_https_ota_begin and whether it leaves a handle, each
-- esp_https_ota_perform, esp_https_ota_is_complete_data_received, and esp_https_ota_finish.
pub record Download : Type 0 where
  pub begin : Call
  pub has_handle : Bool
  pub performs : List Call
  pub complete : Bool
  pub finish : ℕ

-- The task has restarted the device, or has deleted itself.
pub data Ending : Type 0 where
  rebooted : Ending
  deleted : Ending

module _ {H : Type 0} (psa : Psa H) where
  -- `psa_hash_update` of one piece of data.
  unfoldable pub hash_piece : List ℕ → Hash H → Hash H
  hash_piece [] h = h
  hash_piece (b ∷ bs) h =
      let updated = psa.hash_update h.sha_op (b ∷ bs) in
      record h { sha_op = updated.1; sha_failed = if updated.0 == 0 then h.sha_failed else true }

  -- `http_event_handler`; what it returns is left to the HTTP client.
  unfoldable pub http_event_handler : HttpEvent → Hash H → Hash H
  http_event_handler (on_data (some bytes)) h = if h.sha_started then hash_piece bytes h else h
  http_event_handler (on_data none) h = h
  http_event_handler other_event h = h

  unfoldable pub handle_events : List HttpEvent → Hash H → Hash H
  handle_events [] h = h
  handle_events (e ∷ es) h = handle_events es (http_event_handler e h)

  module _ (codes_of : Codes) where
    -- The loop of esp_https_ota_perform; `none` where it has not ended with the calls that are listed.
    unfoldable pub perform_loop : List Call → Hash H → Option (ℕ × Hash H)
    perform_loop [] h = none
    perform_loop (c ∷ cs) h =
        let after = handle_events c.events h in
        let rest = perform_loop cs after in
        if c.err == codes_of.in_progress then rest else some (c.err, after)

    -- From esp_https_ota_begin to the end of the loop.
    unfoldable pub download : Download → Hash H → Option (ℕ × Hash H)
    download d h =
        let begun = handle_events d.begin.events h in
        if d.begin.err == 0 || d.begin.err == codes_of.in_progress
        then perform_loop d.performs begun
        else some (d.begin.err, begun)

    -- The two checks after the loop.
    unfoldable pub received : Download → ℕ → Hash H → ℕ
    received d err h =
        let sized = if err == 0 && not d.complete then codes_of.invalid_size else err in
        if sized == 0 && h.sha_failed then codes_of.esp_fail else sized

    -- The comparison of the digests.
    unfoldable pub compared : List ℕ → Hash H → ℕ
    compared expected h =
        let finished = psa.hash_finish h.sha_op in
        if not (finished.0 == 0) || not (length finished.1 == 32)
        then codes_of.esp_fail
        else (if eq_bytes finished.1 expected then 0 else codes_of.invalid_crc)

module _ {F : Type 0} where
  -- The end of the task without a restart.
  unfoldable pub give_up : Request → List ℕ → M F Ending
  give_up request detail = do
    publish_status request (codes "failed") detail
    modify (λ s. record s { running = false })
    pure deleted

  -- The end of the task with a restart.
  unfoldable pub reboot : Nvs F → Request → M F Ending
  reboot nvs request = do
    save_pending_success nvs request
    publish_status request (codes "downloading") (codes "rebooting")
    emit restarted
    pure rebooted

  -- The task from the end of the comparison on; `err` is not ESP_OK or the digests agree.
  unfoldable pub conclude : Nvs F → (ℕ → List ℕ) → Request → Download → ℕ → M F Ending
  conclude nvs err_name request d err =
      if err == 0
      then (do
        emit update_finished
        if d.finish == 0 then reboot nvs request else give_up request (err_name d.finish))
      else (do if d.has_handle then emit update_aborted else skip; give_up request (err_name err))

  -- The task once the data is there: `err` is the loop's.
  unfoldable pub check_image :
      {H : Type 0}
      → Psa H
      → Codes
      → Nvs F
      → (ℕ → List ℕ)
      → Request
      → List ℕ
      → Download
      → ℕ × Hash H
      → M F Ending
  check_image psa codes_of nvs err_name request expected d (err, h) =
      let checked = received psa codes_of d err h in
      if checked == 0
      then conclude nvs err_name request d (compared psa codes_of expected h)
      else (do
        if h.sha_started then emit hash_aborted else skip
        conclude nvs err_name request d checked)

module _ {H F : Type 0} (psa : Psa H) (codes_of : Codes) (nvs : Nvs F) (err_name : ℕ → List ℕ)
    (request : Request) (d : Download) where
  -- What follows the loop, if it has ended.
  abbrev pub after_download : List ℕ → Option (ℕ × Hash H) → M F (Option Ending)
  after_download expected none = pure none
  after_download expected (some result) = do
    ending ← check_image psa codes_of nvs err_name request expected d result
    pure (some ending)

  -- The hash that the task sets up.
  abbrev pub new_hash : Hash H
  new_hash = record { sha_op = psa.hash_setup.1; sha_started = true; sha_failed = false }

  -- The task with the digest that it expects, or none.
  unfoldable pub fetch : Option (List ℕ) → M F (Option Ending)
  fetch none = do ending ← give_up request (codes "invalid_sha256"); pure (some ending)
  fetch (some expected) =
      if psa.crypto_init == 0 && psa.hash_setup.0 == 0
      then after_download expected (download psa codes_of d new_hash)
      else (do ending ← give_up request (codes "sha256_start_failed"); pure (some ending))

  -- `ota_task`; `none` where the loop has not ended with the calls that are listed.
  unfoldable pub ota_task : M F (Option Ending)
  ota_task = do
    publish_status request (codes "downloading") (codes "started")
    fetch (sha256_hex_to_bytes request.sha256)
