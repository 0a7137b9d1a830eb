-- ===== src/Ota/Verified/Checked.antt =====
-- The checks of internal_communication/main/mesh_ota.c before it restarts.
use esp32_ble_mesh.Base.{
  Bool-cases, List, Option, ap₂, arith, eq_bytes, eq_of_eq_bytes, false, if◌then◌else◌, inl, inr,
  none, refl, some, true, ℕ, ◌&&◌, ◌==◌, ◌≡◌, ◌≢◌,
}
use esp32_ble_mesh.Ota.Hex.{sha256_hex_to_bytes}
use esp32_ble_mesh.Ota.State.{Codes, Nvs, Ota, Psa, Request, emit, hash_aborted, skip}
use esp32_ble_mesh.Ota.Task.{
  Download, Hash, after_download, check_image, compared, conclude, download, fetch, give_up,
  new_hash, ota_task, rebooted, received,
}
use esp32_ble_mesh.Ota.Verified.Hashed.{all_events, download-Fed, hash_all, pieces}

-- The values of the error codes that matter: none is ESP_OK.
pub record IsNonzero (codes_of : Codes) : Type 0 where
  pub invalid_size_ne : codes_of.invalid_size ≢ 0
  pub esp_fail_ne : codes_of.esp_fail ≢ 0
  pub invalid_crc_ne : codes_of.invalid_crc ≢ 0

-- The image is complete and written, and its hash is the digest that the request names.
abbrev pub Verified : {H : Type 0} → Psa H → ℕ → Request → Download → Type 0
Verified {H} psa in_progress request d =
    (expected : List ℕ) × (op : H) × (sha256_hex_to_bytes request.sha256 ≡ some expected)
    × (hash_all psa psa.hash_setup.1 (pieces (all_events psa in_progress d)) ≡ some op)
    × (psa.hash_finish op ≡ (0, expected))
    × (d.complete ≡ true)
    × (d.finish ≡ 0)

module _ {H : Type 0} (psa : Psa H) (codes_of : Codes) (nonzero : IsNonzero codes_of) where
  open nonzero use {invalid_size_ne, esp_fail_ne, invalid_crc_ne}

  received-clean :
      (d : Download) (err : ℕ) (h : Hash H)
      → received psa codes_of d err h ≡ 0
      → (err ≡ 0) × (d.complete ≡ true) × (h.sha_failed ≡ false)
  unfolding received
  received-clean d err h ok = (ground arith, ground arith, ground arith)

  compared-same :
      (expected : List ℕ) (h : Hash H)
      → compared psa codes_of expected h ≡ 0
      → psa.hash_finish h.sha_op ≡ (0, expected)
  unfolding compared
  compared-same expected h ok =
      let finished = psa.hash_finish h.sha_op in
      let status : finished.0 ≡ 0 = ground arith in
      let equal : eq_bytes finished.1 expected ≡ true = ground arith in
      ap₂ (λ (a : ℕ) (b : List ℕ). (a, b)) status (eq_of_eq_bytes finished.1 expected equal)

conclude-rebooted :
    {F : Type 0} (nvs : Nvs F) (err_name : ℕ → List ℕ) (request : Request) (d : Download) (err : ℕ)
    (s : Ota F)
    → (conclude nvs err_name request d err s).0 ≡ rebooted
    → (err ≡ 0) × (d.finish ≡ 0)
unfolding conclude give_up
conclude-rebooted nvs err_name request d err s ends = (ground arith, ground arith)

module _ {H F : Type 0} (psa : Psa H) (codes_of : Codes) (nonzero : IsNonzero codes_of)
    (nvs : Nvs F) (err_name : ℕ → List ℕ) (request : Request) (d : Download) where
  check_image-rebooted :
      (expected : List ℕ) (err : ℕ) (h : Hash H) (s : Ota F)
      → (check_image psa codes_of nvs err_name request expected d (err, h) s).0 ≡ rebooted
      → (err ≡ 0)
        × (d.complete ≡ true)
        × (h.sha_failed ≡ false)
        × (psa.hash_finish h.sha_op ≡ (0, expected))
        × (d.finish ≡ 0)
  unfolding check_image
  check_image-rebooted expected err h s ends =
      elim (Bool-cases (received psa codes_of d err h == 0)) [
        | inl e ↦
            let done =
              conclude-rebooted nvs err_name request d (compared psa codes_of expected h) s
                (ground arith) in
            let clean = received-clean psa codes_of nonzero d err h (ground arith) in
            (
              clean.0,
              clean.1,
              clean.2,
              compared-same psa codes_of nonzero expected h done.0,
              done.1,
            )
        | inr e ↦
            let done =
              conclude-rebooted nvs err_name request d (received psa codes_of d err h)
                ((if h.sha_started then emit hash_aborted else skip) s).1 (ground arith) in
            absurd (ground arith)
      ]

  after_download-Verified :
      (expected : List ℕ) (result : Option (ℕ × Hash H)) (s : Ota F)
      → sha256_hex_to_bytes request.sha256 ≡ some expected
      → download psa codes_of d (new_hash psa codes_of nvs err_name request d) ≡ result
      → (after_download psa codes_of nvs err_name request d expected result s).0 ≡ some rebooted
      → Verified psa codes_of.in_progress request d
  after_download-Verified expected none s named loaded ends = cc
  after_download-Verified expected (some (err, h)) s named loaded ends =
      let (fine, complete, clean, equal, finished) =
        check_image-rebooted expected err h s (ground arith) in
      let fed =
        download-Fed psa codes_of d (new_hash psa codes_of nvs err_name request d) {t = h} refl
          (rw⁻¹ fine loaded) clean in
      (expected, h.sha_op, named, fed.0, equal, complete, finished)

  fetch-Verified :
      (expected : Option (List ℕ)) (s : Ota F)
      → sha256_hex_to_bytes request.sha256 ≡ expected
      → (fetch psa codes_of nvs err_name request d expected s).0 ≡ some rebooted
      → Verified psa codes_of.in_progress request d
  unfolding fetch give_up
  fetch-Verified none s named ends = cc
  fetch-Verified (some expected) s named ends =
      elim (Bool-cases (psa.crypto_init == 0 && psa.hash_setup.0 == 0)) [
        | inl e ↦ after_download-Verified expected _ s named refl (ground arith)
        | inr e ↦ absurd (ground arith)
      ]

  -- The device restarts into a new image only if all data that the server sent was received, the
  -- image was written, and the SHA-256 of that data, in the order in which it came, is the digest that
  -- the request names.
  pub reboot_needs_digest :
      (s : Ota F)
      → (ota_task psa codes_of nvs err_name request d s).0 ≡ some rebooted
      → Verified psa codes_of.in_progress request d
  unfolding ota_task
  reboot_needs_digest s ends = fetch-Verified (sha256_hex_to_bytes request.sha256) _ refl ends
