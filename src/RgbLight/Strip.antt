-- ===== src/RgbLight/Strip.antt =====
-- The LEDs of rgb_light/main/app_light.c beside the state of the light.
use native.Mathlib.Decide.{ℕ_discrete}
use esp32_ble_mesh.Base.{
  Bool, List, Option, ap, arith, codes, eq_bytes, false, if◌then◌else◌, none, not, refl, some,
  strip_prefix, suc, sym, true, update, update_ne, update_self, zero, ℕ, ◌+◌, ◌<◌, ◌==◌, ◌∙◌, ◌≡◌,
  ◌≤◌,
}
use esp32_ble_mesh.RgbLight.Commands.{
  Scan, color_command, handle_command, json_color, json_on, json_string, message_id, obey,
  obey_json, obey_other, paint, paint_on, parse_hex_color, publish_ota_status, publish_status,
  start_ota, starts_with_brace, switch,
}
use esp32_ble_mesh.RgbLight.Light.{refresh, set_color, set_on, set_pixels, shade}
use esp32_ble_mesh.RgbLight.State.{Config, Light, M, Rgb, modify, pure, skip}

set_pixels-below :
    (n i : ℕ) (c : Rgb) (leds : ℕ → Rgb) (j : ℕ) → j < i → set_pixels n i c leds j ≡ leds j
unfolding set_pixels
set_pixels-below zero i c leds j low = refl
set_pixels-below (suc n) i c leds j low =
    set_pixels-below n (suc i) c (update leds i c) j (omega arith)
    ∙ update_ne leds i c j (omega arith)

set_pixels-inside :
    (n i : ℕ) (c : Rgb) (leds : ℕ → Rgb) (j : ℕ) → i ≤ j → j < i + n → set_pixels n i c leds j ≡ c
unfolding set_pixels
set_pixels-inside zero i c leds j low high = absurd (omega arith)
set_pixels-inside (suc n) i c leds j low high = elim (ℕ_discrete i j) [
  | yes same ↦
      set_pixels-below n (suc i) c (update leds i c) j (omega arith)
      ∙ (ap (update leds i c) (sym same) ∙ update_self leds i c)
  | no later ↦ set_pixels-inside n (suc i) c (update leds i c) j (omega arith) (omega arith)
]

-- The strip is set up, and each LED shows the colour while the light is on, and nothing else.
abbrev pub Shows : Config → Light → Type 0
Shows config s =
    (s.has_strip ≡ true) × ((i : ℕ) → i < config.led_count → s.leds i ≡ shade s.on s.color)

module _ (config : Config) where
  pub branch-Shows :
      {A : Type 0} (b : Bool) (m n : M A) (s : Light)
      → (b ≡ true → Shows config (m s).1)
      → (b ≡ false → Shows config (n s).1)
      → Shows config ((if b then m else n) s).1
  branch-Shows true m n s yes_case no_case = yes_case refl
  branch-Shows false m n s yes_case no_case = no_case refl

  pub refresh-Shows : (s : Light) → s.has_strip ≡ true → Shows config (refresh config s).1
  unfolding refresh
  refresh-Shows s strip =
      branch-Shows (not s.has_strip) skip
        (modify
          (λ t. record t { leds = set_pixels config.led_count 0 (shade t.on t.color) t.leds }))
        s (λ e. absurd (ground arith))
        (λ e. (
          strip,
          λ i inside.
              set_pixels-inside config.led_count 0 (shade s.on s.color) s.leds i (omega arith)
                (omega arith),
        ))

  pub set_on-Shows :
      (on : Bool) (s : Light) → s.has_strip ≡ true → Shows config (set_on config on s).1
  unfolding set_on
  set_on-Shows on s strip = refresh-Shows (record s { on = on }) strip

  set_color-Shows : (c : Rgb) (s : Light) → Shows config s → Shows config (set_color config c s).1
  unfolding set_color
  set_color-Shows c s (strip, lit) =
      let painted : Light = record s { color = c } in
      branch-Shows s.on (refresh config) skip painted (λ e. refresh-Shows painted strip)
        (λ e. (
          strip,
          λ i inside. lit i inside ∙ (ap (λ b. shade b s.color) e ∙ sym (ap (λ b. shade b c) e)),
        ))

  switch-Shows : (o : Option Bool) (s : Light) → Shows config s → Shows config (switch config o s).1
  switch-Shows none s h = h
  switch-Shows (some on) s h = set_on-Shows on s h.0

  paint-Shows :
      (o : Option Rgb) (changed : Bool) (s : Light)
      → Shows config s
      → Shows config (paint config o changed s).1
  paint-Shows none changed s h = h
  paint-Shows (some c) changed s h = set_color-Shows c s h

  paint_on-Shows :
      (o : Option Rgb) (s : Light) → Shows config s → Shows config (paint_on config o s).1
  paint_on-Shows none s h = h
  paint_on-Shows (some c) s h = set_on-Shows true _ (set_color-Shows c s h).0

  color_command-Shows :
      (scan : Scan) (o : Option (List ℕ)) (s : Light)
      → Shows config s
      → Shows config (color_command config scan o s).1
  color_command-Shows scan none s h = h
  color_command-Shows scan (some text) s h = paint_on-Shows (parse_hex_color scan text) s h

  obey_json-Shows :
      (scan : Scan) (payload : List ℕ) (s : Light)
      → Shows config s
      → Shows config (obey_json config scan payload s).1
  obey_json-Shows scan payload s h =
      let switched = switch config (json_on payload) s in
      let kept = switch-Shows (json_on payload) s h in
      let color = json_color scan (json_string payload (codes "color") 16) in
      branch-Shows config.enable_color (paint config color switched.0) (pure switched.0) switched.1
        (λ e. paint-Shows color switched.0 switched.1 kept) (λ e. kept)

  obey-Shows :
      (scan : Scan) (payload : List ℕ) (s : Light)
      → Shows config s
      → Shows config (obey config scan payload s).1
  unfolding obey
  obey-Shows scan payload s h =
      let color = strip_prefix (codes "color:") payload in
      branch-Shows (eq_bytes payload (codes "on")) (switch config (some true))
        (if eq_bytes payload (codes "off")
          then switch config (some false)
          else obey_other config scan payload)
        s (λ e. set_on-Shows true s h.0)
        (λ e.
          branch-Shows (eq_bytes payload (codes "off")) (switch config (some false))
            (obey_other config scan payload) s (λ f. set_on-Shows false s h.0)
            (λ f.
              branch-Shows (starts_with_brace payload) (obey_json config scan payload)
                (if config.enable_color then color_command config scan color else pure false) s
                (λ g. obey_json-Shows scan payload s h)
                (λ g.
                  branch-Shows config.enable_color (color_command config scan color) (pure false) s
                    (λ k. color_command-Shows scan color s h) (λ k. h))))

  -- Neither a status nor a report changes the light.
  pub status-Shows :
      (now : ℕ) (s : Light) → Shows config s → Shows config (publish_status config now s).1
  unfolding publish_status message_id
  status-Shows now s h = h

  pub ota_status-Shows :
      (now : ℕ) (text : List ℕ) (fw id detail : Option (List ℕ)) (s : Light)
      → Shows config s
      → Shows config (publish_ota_status config now text fw id detail s).1
  unfolding publish_ota_status message_id
  ota_status-Shows now text fw id detail s h =
      branch-Shows (not s.has_client) skip _ s (λ e. h) (λ e. h)

  pub command-Shows :
      (now : ℕ) (scan : Scan) (payload : List ℕ) (s : Light)
      → Shows config s
      → Shows config (handle_command config now scan payload s).1
  unfolding handle_command
  command-Shows now scan payload s h =
      let obeyed = obey config scan payload s in
      let kept = obey-Shows scan payload s h in
      branch-Shows obeyed.0 (publish_status config now) skip obeyed.1
        (λ e. status-Shows now obeyed.1 kept) (λ e. kept)

  pub start_ota-Shows :
      (now answer : ℕ) (err_name : ℕ → List ℕ) (payload : List ℕ) (url : Option (List ℕ))
      (s : Light)
      → Shows config s
      → Shows config (start_ota config now answer err_name payload url s).1
  start_ota-Shows now answer err_name payload none s h = h
  start_ota-Shows now answer err_name payload (some url) s h =
      branch-Shows (answer == 0) skip _ _ (λ e. h) (λ e. ota_status-Shows now _ _ _ _ _ h)
