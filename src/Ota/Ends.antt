-- ===== src/Ota/Ends.antt =====
-- How the update task of internal_communication/main/mesh_ota.c ends, and how it starts.
use esp32_ble_mesh.Base.{
  Bool, Bool-cases, List, Option, [], arith, codes, false, if◌then◌else◌, inl, inr, none, not, refl,
  some, true, ℕ, ◌&&◌, ◌==◌, ◌||◌, ◌∷◌, ◌≡◌, ◌⊎◌,
}
use esp32_ble_mesh.Ota.Hex.{sha256_hex_to_bytes}
use esp32_ble_mesh.Ota.Pending.{or_null, publish_status}
use esp32_ble_mesh.Ota.State.{
  Codes, M, Nvs, Ota, Out, Psa, Request, restarted, status, update_finished,
}
use esp32_ble_mesh.Ota.Task.{
  Call, Download, Ending, Hash, check_image, compared, conclude, deleted, download, fetch, give_up,
  handle_events, new_hash, ota_task, perform_loop, reboot, rebooted, received,
}

-- What the task leaves behind: it has restarted the device last, or it has cleared `s_running` and
-- reported the failure last, if a callback is set.
abbrev pub Ended : {F : Type 0} → Request → Ending × Ota F → Type 0
Ended request r =
    ((r.0 ≡ rebooted) × (before : List Out) × (r.1.outs ≡ restarted ∷ before))
    ⊎ ((r.0 ≡ deleted)
        × (r.1.running ≡ false)
        × ((r.1.has_callback ≡ false)
            ⊎ ((detail : List ℕ) × (before : List Out) × (r.1.outs
                  ≡ status (codes "failed") (or_null request.fw_version)
                      (or_null request.ota_msg_id) detail
                    ∷ before))))

-- One of the calls in the loop does not answer "in progress".
abbrev pub loop_ends : ℕ → List Call → Bool
loop_ends in_progress [] = false
loop_ends in_progress (c ∷ cs) =
    let rest = loop_ends in_progress cs in not (c.err == in_progress) || rest

module _ {F : Type 0} (request : Request) where
  branch-Ended :
      (b : Bool) (m n : M F Ending) (s : Ota F)
      → Ended request (m s)
      → Ended request (n s)
      → Ended request ((if b then m else n) s)
  branch-Ended true m n s yes_case no_case = yes_case
  branch-Ended false m n s yes_case no_case = no_case

  give_up-Ended : (detail : List ℕ) (s : Ota F) → Ended request (give_up request detail s)
  unfolding give_up publish_status
  give_up-Ended detail s = elim (Bool-cases s.has_callback) [
    | inl e ↦ inr (refl, refl, inr (detail, s.outs, ground arith))
    | inr e ↦ inr (refl, refl, inl (ground arith))
  ]

  reboot-Ended : (nvs : Nvs F) (s : Ota F) → Ended request (reboot nvs request s)
  unfolding reboot
  reboot-Ended nvs s = inl (refl, _, refl)

  conclude-Ended :
      (nvs : Nvs F) (err_name : ℕ → List ℕ) (d : Download) (err : ℕ) (s : Ota F)
      → Ended request (conclude nvs err_name request d err s)
  unfolding conclude
  conclude-Ended nvs err_name d err s = elim (Bool-cases (err == 0)) [
    | inl e ↦
        let told : Ota F = record s { outs = update_finished ∷ s.outs } in
        rw e (
          branch-Ended (d.finish == 0) (reboot nvs request) (give_up request (err_name d.finish))
            told (reboot-Ended nvs told) (give_up-Ended (err_name d.finish) told))
    | inr e ↦ rw e (give_up-Ended (err_name err) _)
  ]

module _ {H F : Type 0} (psa : Psa H) (codes_of : Codes) (nvs : Nvs F) (err_name : ℕ → List ℕ)
    (request : Request) (d : Download) where
  check_image-Ended :
      (expected : List ℕ) (result : ℕ × Hash H) (s : Ota F)
      → Ended request (check_image psa codes_of nvs err_name request expected d result s)
  unfolding check_image
  check_image-Ended expected (err, h) s = elim (Bool-cases (received psa codes_of d err h == 0)) [
    | inl e ↦ rw e (conclude-Ended request nvs err_name d (compared psa codes_of expected h) s)
    | inr e ↦ rw e (conclude-Ended request nvs err_name d (received psa codes_of d err h) _)
  ]

  perform_loop_ends :
      (cs : List Call) (h : Hash H)
      → loop_ends codes_of.in_progress cs ≡ true
      → (result : ℕ × Hash H) × (perform_loop psa codes_of cs h ≡ some result)
  unfolding perform_loop
  perform_loop_ends [] h ends = cc
  perform_loop_ends (c ∷ cs) h ends =
      let after = handle_events psa c.events h in
      elim (Bool-cases (c.err == codes_of.in_progress)) [
        | inl e ↦
            let (result, same) = perform_loop_ends cs after (ground arith) in (result, rw e same)
        | inr e ↦ ((c.err, after), rw e refl)
      ]

  download_ends :
      (h : Hash H)
      → loop_ends codes_of.in_progress d.performs ≡ true
      → (result : ℕ × Hash H) × (download psa codes_of d h ≡ some result)
  unfolding download
  download_ends h ends =
      let begun = handle_events psa d.begin.events h in
      elim (Bool-cases (d.begin.err == 0 || d.begin.err == codes_of.in_progress)) [
        | inl e ↦
            let (result, same) = perform_loop_ends d.performs begun ends in (result, rw e same)
        | inr e ↦ ((d.begin.err, begun), rw e refl)
      ]

  -- The task ends with this result.
  abbrev pub EndsIn : Option Ending × Ota F → Type 0
  EndsIn r = (e : Ending) × (r.0 ≡ some e) × Ended request (e, r.1)

  fetch-EndsIn :
      (expected : Option (List ℕ)) (s : Ota F)
      → loop_ends codes_of.in_progress d.performs ≡ true
      → EndsIn (fetch psa codes_of nvs err_name request d expected s)
  unfolding fetch
  fetch-EndsIn none s ends = (_, refl, give_up-Ended request (codes "invalid_sha256") s)
  fetch-EndsIn (some expected) s ends =
      elim (Bool-cases (psa.crypto_init == 0 && psa.hash_setup.0 == 0)) [
        | inl e ↦
            let (result, same) =
              download_ends (new_hash psa codes_of nvs err_name request d) ends in
            rw (e, same) (_, refl, check_image-Ended expected result s)
        | inr e ↦ rw e (_, refl, give_up-Ended request (codes "sha256_start_failed") s)
      ]

  -- If the server does not keep the update "in progress" for ever, the task ends: it restarts the
  -- device, or it clears `s_running` and reports the failure to the callback, if there is one.
  pub ota_task_ends :
      (s : Ota F)
      → loop_ends codes_of.in_progress d.performs ≡ true
      → EndsIn (ota_task psa codes_of nvs err_name request d s)
  unfolding ota_task
  ota_task_ends s ends = fetch-EndsIn (sha256_hex_to_bytes request.sha256) _ ends
