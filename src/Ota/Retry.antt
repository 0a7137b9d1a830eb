-- ===== src/Ota/Retry.antt =====
-- When internal_communication/main/mesh_ota.c starts an update.
use esp32_ble_mesh.Base.{
  Bool, List, Option, [], ap, arith, false, if◌then◌else◌, inl, inr, none, refl, some, sym, true, ℕ,
  ◌∙◌, ◌∷◌, ◌≡◌, ◌≢◌, ◌⊎◌,
}
use esp32_ble_mesh.Ota.Ends.{loop_ends, ota_task_ends}
use esp32_ble_mesh.Ota.Start.{create_task, ota_start, request_of}
use esp32_ble_mesh.Ota.State.{Codes, M, Nvs, Ota, Psa, Request, pure}
use esp32_ble_mesh.Ota.Task.{Download, ota_task, rebooted}

-- A task has been created for the request, and nothing ran before; or there is none, and the state is
-- as it was.
abbrev pub Started : {F : Type 0} → Request → Ota F → (ℕ × Option Request) × Ota F → Type 0
Started request s r =
    ((r.0.0 ≡ 0)
      × (r.0.1 ≡ some request)
      × (s.running ≡ false)
      × (r.1 ≡ record s { running = true }))
    ⊎ ((r.0.0 ≢ 0) × (r.0.1 ≡ none) × (r.1 ≡ s))

module _ {F : Type 0} (codes_of : Codes) where
  create_task-Started :
      (allocated created : Bool) (request : Request) (s : Ota F)
      → codes_of.no_mem ≢ 0
      → codes_of.esp_fail ≢ 0
      → s.running ≡ false
      → Started request s (create_task codes_of allocated created request s)
  create_task-Started false created request s mem fail free = inr (mem, refl, refl)
  create_task-Started true true request s mem fail free = inl (refl, refl, free, refl)
  create_task-Started true false request s mem fail free =
      inr (fail, refl, ap (λ (b : Bool). record s { running = b }) (sym free))

  guard-Started :
      (b : Bool) (m n : M F (ℕ × Option Request)) (request : Request) (s : Ota F)
      → Started request s (m s)
      → (b ≡ false → Started request s (n s))
      → Started request s ((if b then m else n) s)
  guard-Started true m n request s yes_case no_case = yes_case
  guard-Started false m n request s yes_case no_case = no_case refl

  -- `mesh_ota_start` succeeds only while no update runs, with one task for the request, whose texts
  -- are cut to their buffers, and `s_running` set; or it returns an error, creates no task and changes
  -- nothing.
  pub ota_start_outcome :
      (allocated created : Bool) (url sha256 fw_version ota_msg_id : Option (List ℕ)) (s : Ota F)
      → codes_of.invalid_arg ≢ 0
      → codes_of.invalid_state ≢ 0
      → codes_of.no_mem ≢ 0
      → codes_of.esp_fail ≢ 0
      → Started
          (request_of url sha256 fw_version ota_msg_id)
          s
          (ota_start codes_of allocated created url sha256 fw_version ota_msg_id s)
  unfolding ota_start
  ota_start_outcome allocated created none sha256 fw_version ota_msg_id s arg state mem fail =
      inr (arg, refl, refl)
  ota_start_outcome allocated created (some []) sha256 fw_version ota_msg_id s arg state mem fail =
      inr (arg, refl, refl)
  ota_start_outcome allocated created (some (c ∷ u)) sha256 fw_version ota_msg_id s arg state mem
        fail =
      let request = request_of (some (c ∷ u)) sha256 fw_version ota_msg_id in
      guard-Started s.running (pure (codes_of.invalid_state, none))
        (create_task codes_of allocated created request) request s (inr (state, refl, refl))
        (create_task-Started allocated created request s mem fail)

module _ {H F : Type 0} (psa : Psa H) (codes_of : Codes) (nvs : Nvs F) (err_name : ℕ → List ℕ)
    (request : Request) (d : Download) where
  start_free :
      (c : ℕ) (u : List ℕ) (sha256 fw_version ota_msg_id : Option (List ℕ)) (t : Ota F)
      → t.running ≡ false
      → (ota_start codes_of true true (some (c ∷ u)) sha256 fw_version ota_msg_id t).0
        ≡ (0, some (request_of (some (c ∷ u)) sha256 fw_version ota_msg_id))
  unfolding ota_start
  start_free c u sha256 fw_version ota_msg_id t free = ground arith

  -- Unless the server keeps an update "in progress" for ever, its task restarts the device, or another
  -- update can be started after it, as long as memory and a task are to be had.
  pub ota_can_start_again :
      (c : ℕ) (u : List ℕ) (sha256 fw_version ota_msg_id : Option (List ℕ)) (s : Ota F)
      → loop_ends codes_of.in_progress d.performs ≡ true
      → let t = ota_task psa codes_of nvs err_name request d s in
        (t.0 ≡ some rebooted)
        ⊎ ((ota_start codes_of true true (some (c ∷ u)) sha256 fw_version ota_msg_id t.1).0
            ≡ (0, some (request_of (some (c ∷ u)) sha256 fw_version ota_msg_id)))
  ota_can_start_again c u sha256 fw_version ota_msg_id s ends =
      let t = ota_task psa codes_of nvs err_name request d s in
      let (ending, same, left) = ota_task_ends psa codes_of nvs err_name request d s ends in
      elim left [
        | inl done ↦ inl (same ∙ ap some done.0)
        | inr failed ↦ inr (start_free c u sha256 fw_version ota_msg_id t.1 failed.1)
      ]
