-- ===== src/Ota/Report.antt =====
-- The report of internal_communication/main/mesh_ota.c after the restart.
use esp32_ble_mesh.Base.{
  Bool, Bool-cases, List, Option, [], ap, arith, codes, false, if◌then◌else◌, inl, inr, length, ltb,
  none, refl, some, take-all, true, ℕ, ◌<◌, ◌∙◌, ◌∷◌, ◌≡◌,
}
use esp32_ble_mesh.Ota.Pending.{
  change_flash, clear_pending_success, confirm_running, load_pending_success, publish_status,
  save_pending_success,
}
use esp32_ble_mesh.Ota.State.{Key, Nvs, Ota, Request, fw_key, marked_valid, msg_key, status}

abbrev pub same_key : Key → Key → Bool
same_key fw_key fw_key = true
same_key fw_key msg_key = false
same_key msg_key fw_key = false
same_key msg_key msg_key = true

abbrev pub fits : List ℕ → ℕ → Option (List ℕ)
fits text size = if ltb (length text) size then some text else none

-- A flash that has room and does not fail: it opens, a text that was written last is read where it
-- fits the buffer with its terminating zero, and an erased key is not there.
pub record NvsLaws {F : Type 0} (nvs : Nvs F) : Type 0 where
  pub opens : (f : F) → (g : F) × (nvs.open_write f ≡ some g)
  pub reads : (f g : F) → nvs.open_write f ≡ some g → nvs.open_read g ≡ true
  pub sets : (f : F) (k : Key) (text : List ℕ) → (g : F) × (nvs.set_str f k text ≡ some g)
  pub reads_set :
      (f : F) (k : Key) (text : List ℕ) (g : F)
      → nvs.set_str f k text ≡ some g
      → nvs.open_read g ≡ nvs.open_read f
  pub get_set :
      (f : F) (k : Key) (text : List ℕ) (g : F) (j : Key) (size : ℕ)
      → nvs.set_str f k text ≡ some g
      → nvs.get_str g j size ≡ (if same_key k j then fits text size else nvs.get_str f j size)
  pub reads_commit : (f : F) → nvs.open_read (nvs.commit f) ≡ nvs.open_read f
  pub get_commit :
      (f : F) (j : Key) (size : ℕ) → nvs.get_str (nvs.commit f) j size ≡ nvs.get_str f j size
  pub get_erase :
      (f : F) (k j : Key) (size : ℕ)
      → nvs.get_str (nvs.erase_key f k) j size
        ≡ (if same_key k j then none else nvs.get_str f j size)

-- The program that starts on a flash, once its callback is set.
abbrev pub after_boot : {F : Type 0} → F → Ota F
after_boot f = record { running = false; has_callback = true; flash = f; outs = [] }

abbrev pub request_with : (url sha256 fw_version ota_msg_id : List ℕ) → Request
request_with url sha256 fw_version ota_msg_id = record {
  url = url;
  sha256 = sha256;
  fw_version = fw_version;
  ota_msg_id = ota_msg_id;
}

module _ {F : Type 0} (nvs : Nvs F) (laws : NvsLaws nvs) where
  open laws use {opens, reads, sets, reads_set, get_set, reads_commit, get_commit, get_erase}

  -- What the code reads of a flash that holds a version and an id.
  load_saved :
      (fw id : List ℕ) (f g h : F)
      → length fw < 64
      → length id < 128
      → nvs.open_read f ≡ true
      → nvs.set_str f fw_key fw ≡ some g
      → nvs.set_str g msg_key id ≡ some h
      → load_pending_success nvs (nvs.commit h) ≡ (true, fw, id)
  unfolding load_pending_success
  load_saved fw id f g h short short_id open_ set_fw set_id =
      let readable : nvs.open_read (nvs.commit h) ≡ true =
        reads_commit h
        ∙ (reads_set g msg_key id h set_id ∙ (reads_set f fw_key fw g set_fw ∙ open_)) in
      let fits_fw : fits fw 64 ≡ some fw = ground arith in
      let fits_id : fits id 128 ≡ some id = ground arith in
      let got_fw : nvs.get_str (nvs.commit h) fw_key 64 ≡ some fw =
        get_commit h fw_key 64
        ∙ (get_set g msg_key id h fw_key 64 set_id
            ∙ (get_set f fw_key fw g fw_key 64 set_fw ∙ fits_fw)) in
      let got_id : nvs.get_str (nvs.commit h) msg_key 128 ≡ some id =
        get_commit h msg_key 128 ∙ (get_set g msg_key id h msg_key 128 set_id ∙ fits_id) in
      rw (readable, got_fw, got_id) refl

  saved_flash :
      (url sha : List ℕ) (c k : ℕ) (fw id : List ℕ) (s : Ota F)
      → length (c ∷ fw) < 64
      → length (k ∷ id) < 128
      → load_pending_success nvs
          (save_pending_success nvs (request_with url sha (c ∷ fw) (k ∷ id)) s).1.flash
        ≡ (true, c ∷ fw, k ∷ id)
  unfolding save_pending_success
  saved_flash url sha c k fw id s short short_id =
      let (f, opened) = opens s.flash in
      let (g, set_fw) = sets f fw_key (c ∷ fw) in
      let (h, set_id) = sets g msg_key (k ∷ id) in
      rw (opened, set_fw, set_id)
        (load_saved (c ∷ fw) (k ∷ id) f g h short short_id (reads s.flash f opened) set_fw set_id)

  -- After the report neither key is there.
  cleared_flash :
      (s : Ota F) → (load_pending_success nvs (clear_pending_success nvs s).1.flash).0 ≡ false
  unfolding load_pending_success clear_pending_success
  cleared_flash s =
      let (f, opened) = opens s.flash in
      let clear = nvs.commit (nvs.erase_key (nvs.erase_key f fw_key) msg_key) in
      let no_fw : nvs.get_str clear fw_key 64 ≡ none = simp (get_commit, get_erase) refl in
      let no_msg : nvs.get_str clear msg_key 128 ≡ none = simp (get_commit, get_erase) refl in
      rw opened (elim (Bool-cases (nvs.open_read clear)) [
        | inl e ↦ rw (e, no_fw, no_msg) refl
        | inr e ↦ rw e refl
      ])

  -- The confirmation of a flash with a report: what it publishes, and what it leaves.
  confirm_saved :
      (c k : ℕ) (fw id : List ℕ) (f : F) (pending_verify : Bool) (build : List ℕ) (mark : ℕ)
      → length (c ∷ fw) < 64
      → length (k ∷ id) < 128
      → load_pending_success nvs f ≡ (true, c ∷ fw, k ∷ id)
      → (confirm_running nvs pending_verify build mark (after_boot f)).1
        ≡ (clear_pending_success nvs (record {
          running = false;
          has_callback = true;
          flash = f;
          outs =
              marked_valid
              ∷ (status (codes "success") (some (c ∷ fw)) (some (k ∷ id)) (codes "running") ∷ []);
        })).1
  unfolding confirm_running publish_status
  confirm_saved c k fw id f true build mark short short_id loaded =
      rw (loaded, take-all 62 fw (omega arith), take-all 126 id (omega arith)) refl
  confirm_saved c k fw id f false build mark short short_id loaded =
      rw (loaded, take-all 62 fw (omega arith), take-all 126 id (omega arith)) refl

  -- It returns what the marking answers.
  answer_saved :
      (c k : ℕ) (fw id : List ℕ) (f : F) (pending_verify : Bool) (build : List ℕ) (mark : ℕ)
      → load_pending_success nvs f ≡ (true, c ∷ fw, k ∷ id)
      → (confirm_running nvs pending_verify build mark (after_boot f)).0 ≡ mark
  unfolding confirm_running
  answer_saved c k fw id f true build mark loaded = refl
  answer_saved c k fw id f false build mark loaded = rw loaded refl

  outs-change_flash :
      (o : Option F) (change : F → F) (s : Ota F) → (change_flash o change s).1.outs ≡ s.outs
  outs-change_flash none change s = refl
  outs-change_flash (some f) change s = refl

  outs-clear : (s : Ota F) → (clear_pending_success nvs s).1.outs ≡ s.outs
  unfolding clear_pending_success
  outs-clear s = outs-change_flash (nvs.open_write s.flash) _ s

  -- Without a saved report, a confirmed image reports nothing.
  confirm_quiet :
      (build : List ℕ) (mark : ℕ) (s : Ota F)
      → (load_pending_success nvs s.flash).0 ≡ false
      → (confirm_running nvs false build mark s).1 ≡ s
  unfolding confirm_running
  confirm_quiet build mark s h = rw h refl

  -- What the device saved before its restart is reported as a success by the next program that
  -- confirms, with the version and the id of the request, whatever its own version is and whether or
  -- not its image is still to be verified. The success is published first and the image marked valid
  -- after it, so that the report stands whatever the marking answers, which is only returned. A later
  -- confirmation of a verified image reports nothing more. The version and the id are not empty and
  -- fit their buffers, and the flash does not fail.
  pub success_reported_once :
      (url sha : List ℕ) (c k : ℕ) (fw id : List ℕ) (s : Ota F) (pending_verify : Bool)
      (build later : List ℕ) (mark again : ℕ)
      → length (c ∷ fw) < 64
      → length (k ∷ id) < 128
      → let saved = (save_pending_success nvs (request_with url sha (c ∷ fw) (k ∷ id)) s).1 in
        let t = (confirm_running nvs pending_verify build mark (after_boot saved.flash)).1 in
        (t.outs
          ≡ marked_valid
            ∷ (status (codes "success") (some (c ∷ fw)) (some (k ∷ id)) (codes "running") ∷ []))
        × ((confirm_running nvs pending_verify build mark (after_boot saved.flash)).0 ≡ mark)
        × ((confirm_running nvs false later again t).1 ≡ t)
  success_reported_once url sha c k fw id s pending_verify build later mark again short short_id =
      let f = (save_pending_success nvs (request_with url sha (c ∷ fw) (k ∷ id)) s).1.flash in
      let reported : Ota F = record {
        running = false;
        has_callback = true;
        flash = f;
        outs =
            marked_valid
            ∷ (status (codes "success") (some (c ∷ fw)) (some (k ∷ id)) (codes "running") ∷ []);
      } in
      let loaded = saved_flash url sha c k fw id s short short_id in
      let cleared = confirm_saved c k fw id f pending_verify build mark short short_id loaded in
      let t = (confirm_running nvs pending_verify build mark (after_boot f)).1 in
      (
        ap (λ (r : Ota F). r.outs) cleared ∙ outs-clear reported,
        answer_saved c k fw id f pending_verify build mark loaded,
        confirm_quiet later again t (rw cleared (cleared_flash reported)),
      )
