-- ===== src/Ota/Start.antt =====
-- The start of an update in internal_communication/main/mesh_ota.c.
use esp32_ble_mesh.Base.{
  Bool, List, Option, [], false, if◌then◌else◌, none, not, or_empty, some, strlcpy, true, ℕ, ◌∷◌,
}
use esp32_ble_mesh.Ota.State.{Codes, M, Request, get, modify, pure, ◌>>=◌, ◌>>◌}

-- A null pointer is `none`.
abbrev url_given : Option (List ℕ) → Bool
url_given none = false
url_given (some []) = false
url_given (some (c ∷ s)) = true

-- The request that is handed to the task; a field that is not given stays zeroed.
abbrev pub request_of :
    Option (List ℕ) → Option (List ℕ) → Option (List ℕ) → Option (List ℕ) → Request
request_of url sha256 fw_version ota_msg_id = record {
  url = strlcpy (or_empty url) 256;
  sha256 = strlcpy (or_empty sha256) 65;
  fw_version = strlcpy (or_empty fw_version) 64;
  ota_msg_id = strlcpy (or_empty ota_msg_id) 128;
}

-- The end of `mesh_ota_start`, once no update runs.
abbrev pub create_task :
    {F : Type 0} → Codes → (allocated created : Bool) → Request → M F (ℕ × Option Request)
create_task codes_of allocated created request =
    if not allocated then pure (codes_of.no_mem, none) else (do
      modify (λ s. record s { running = true })
      if created
          then pure (0, some request)
          else (do modify (λ s. record s { running = false }); pure (codes_of.esp_fail, none)))

-- `mesh_ota_start`, given whether `calloc` and `xTaskCreate` succeed: the error, and the request of
-- the task that it has created.
unfoldable pub ota_start :
    {F : Type 0}
    → Codes
    → (allocated created : Bool) → (url sha256 fw_version ota_msg_id : Option (List ℕ))
    → M F (ℕ × Option Request)
ota_start codes_of allocated created url sha256 fw_version ota_msg_id =
    if not (url_given url) then pure (codes_of.invalid_arg, none) else do
      s ← get
      if s.running
          then pure (codes_of.invalid_state, none)
          else create_task codes_of allocated created (request_of url sha256 fw_version ota_msg_id)
