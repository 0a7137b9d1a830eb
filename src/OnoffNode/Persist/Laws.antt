-- ===== src/OnoffNode/Persist/Laws.antt =====
-- The behaviour of the NVS library that esp_ble_mesh/onoff_models/onoff_server/main/main.c relies on,
-- and what its writes leave in the flash.
use esp32_ble_mesh.Base.{Bool, ap, false, if◌then◌else◌, none, refl, some, true, ℕ, ◌≡◌}
use esp32_ble_mesh.OnoffNode.State.{Flash, Key, M, Node, Sdk, addr_key, onoff_key, stage_key}
use esp32_ble_mesh.OnoffNode.Storage.{or_else, save, store_node_state, write_back}

abbrev pub same_key : Key → Key → Bool
same_key stage_key stage_key = true
same_key addr_key addr_key = true
same_key onoff_key onoff_key = true
same_key stage_key addr_key = false
same_key stage_key onoff_key = false
same_key addr_key stage_key = false
same_key addr_key onoff_key = false
same_key onoff_key stage_key = false
same_key onoff_key addr_key = false

-- A flash that has room and does not fail: it opens, a namespace that was opened for writing opens
-- for reading, a key reads as what was written to it last, `nvs_commit` changes no entry and
-- `nvs_erase_all` leaves none.
pub record FlashLaws {F : Type 0} (nvs : Flash F) : Type 0 where
  pub opens : (f : F) → (g : F) × (nvs.open_write f ≡ some g)
  pub reads : (f g : F) → nvs.open_write f ≡ some g → nvs.open_read g ≡ true
  pub reads_set : (f : F) (k : Key) (v : ℕ) → nvs.open_read (nvs.set_key f k v) ≡ nvs.open_read f
  pub reads_commit : (f : F) → nvs.open_read (nvs.commit f) ≡ nvs.open_read f
  pub reads_erase : (f : F) → nvs.open_read (nvs.erase_all f) ≡ nvs.open_read f
  pub get_set :
      (f : F) (k : Key) (v : ℕ) (j : Key)
      → nvs.get_key (nvs.set_key f k v) j ≡ (if same_key k j then some v else nvs.get_key f j)
  pub get_commit : (f : F) (j : Key) → nvs.get_key (nvs.commit f) j ≡ nvs.get_key f j
  pub get_erase : (f : F) (j : Key) → nvs.get_key (nvs.erase_all f) j ≡ none

-- What the program keeps: the flash, the stage, the address and the on/off state.
pub record View (F : Type 0) : Type 0 where
  pub image : F
  pub stage : ℕ
  pub addr : ℕ
  pub onoff : ℕ

abbrev pub view : {F : Type 0} → Node F → View F
view s = record { image = s.flash; stage = s.stage; addr = s.addr; onoff = s.restored_onoff }

-- The flash can be read, and a program that reads it into cleared variables gets these values.
abbrev pub Kept : {F : Type 0} → Flash F → View F → Type 0
Kept nvs v =
    (nvs.open_read v.image ≡ true)
    × (or_else (nvs.get_key v.image stage_key) 0 ≡ v.stage)
    × (or_else (nvs.get_key v.image addr_key) 0 ≡ v.addr)
    × (or_else (nvs.get_key v.image onoff_key) 0 ≡ v.onoff)

module _ {F : Type 0} (nvs : Flash F) (laws : FlashLaws nvs) where
  open laws use {opens, reads, reads_set, reads_commit, reads_erase, get_set, get_commit, get_erase}

  save-Kept :
      (stage addr onoff : ℕ) (g : F)
      → nvs.open_read g ≡ true
      → Kept nvs (record {
        image = save nvs stage addr onoff g;
        stage = stage;
        addr = addr;
        onoff = onoff;
      })
  save-Kept stage addr onoff g h = (
    simp (reads_commit, reads_set) h,
    simp (get_commit, get_set) refl,
    simp (get_commit, get_set) refl,
    simp (get_commit, get_set) refl,
  )

  pub store-Kept :
      (sdk : Sdk) (stage addr onoff : ℕ) (s : Node F)
      → Kept nvs (view (store_node_state nvs sdk stage addr onoff s).1)
  unfolding store_node_state
  store-Kept sdk stage addr onoff s =
      let (g, e) = opens s.flash in rw e (save-Kept _ _ _ g (reads s.flash g e))

  erase-Kept :
      (g : F)
      → nvs.open_read g ≡ true
      → Kept nvs (record { image = nvs.commit (nvs.erase_all g); stage = 0; addr = 0; onoff = 0 })
  erase-Kept g h = (
    simp (reads_commit, reads_erase) h,
    simp (get_commit, get_erase) refl,
    simp (get_commit, get_erase) refl,
    simp (get_commit, get_erase) refl,
  )

  -- The end of `farmely_reset_node_state`, on a state whose variables are cleared.
  pub erase_flash-Kept :
      (s : Node F) {f : F}
      → view s ≡ record { image = f; stage = 0; addr = 0; onoff = 0 }
      → Kept nvs
          (view (write_back (nvs.open_write s.flash) (λ f. nvs.commit (nvs.erase_all f)) s).1)
  erase_flash-Kept s {f} h =
      let (g, e) = opens s.flash in
      rw
        (
          e,
          ap (λ (v : View F). v.stage) h,
          ap (λ (v : View F). v.addr) h,
          ap (λ (v : View F). v.onoff) h,
        )
        (erase-Kept g (reads s.flash g e))

  pub branch-Kept :
      {A : Type 0} (b : Bool) (m n : M F A) (s : Node F)
      → Kept nvs (view (m s).1)
      → Kept nvs (view (n s).1)
      → Kept nvs (view ((if b then m else n) s).1)
  branch-Kept true m n s yes_case no_case = yes_case
  branch-Kept false m n s yes_case no_case = no_case
