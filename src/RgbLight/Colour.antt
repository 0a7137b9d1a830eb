-- ===== src/RgbLight/Colour.antt =====
-- A colour that rgb_light/main/app_light.c has printed, sent back to app_mqtt.c.
use esp32_ble_mesh.Base.{
  Bool, List, Option, ap, arith, codes, false, hex_byte, if◌then◌else◌, refl, some, true, ℕ, ◌%◌,
  ◌++◌, ◌<◌, ◌∙◌, ◌≡◌,
}
use esp32_ble_mesh.RgbLight.Commands.{
  Scan, bytes_of, handle_command, message_id, obey, paint_on, parse_hex_color, publish_status,
}
use esp32_ble_mesh.RgbLight.Known.{Known, known, known-set_color, known-set_on}
use esp32_ble_mesh.RgbLight.Light.{color_text, get_color, set_color, set_on}
use esp32_ble_mesh.RgbLight.State.{Config, Light, M, Rgb, pure}

-- What "%2x%2x%2x" reads of three bytes as "%02X%02X%02X" prints them.
abbrev pub ReadsHex : Scan → Type 0
ReadsHex scan =
    (c : Rgb)
    → c.r < 256
    → c.g < 256
    → c.b < 256
    → scan (hex_byte c.r ++ (hex_byte c.g ++ hex_byte c.b)) ≡ some (c.r, c.g, c.b)

parse_hex_color-text :
    (scan : Scan) (c : Rgb)
    → ReadsHex scan
    → c.r < 256
    → c.g < 256
    → c.b < 256
    → parse_hex_color scan (color_text c) ≡ some c
unfolding parse_hex_color
parse_hex_color-text scan c law r g b =
    let red : c.r % 256 ≡ c.r = omega arith in
    let green : c.g % 256 ≡ c.g = omega arith in
    let blue : c.b % 256 ≡ c.b = omega arith in
    let whole : ◌≡◌ {A = Option Rgb} (bytes_of (some (c.r, c.g, c.b))) (some c) =
      λ i. some (record { r = red i; g = green i; b = blue i }) in
    ap bytes_of (law c r g b) ∙ whole

chosen : {A : Type 0} (b : Bool) (m n : M A) (s : Light) → b ≡ true → (if b then m else n) s ≡ m s
chosen true m n s h = refl
chosen false m n s h = absurd (ground arith)

module _ (config : Config) where
  painted :
      (c : Rgb) (s : Light)
      → known (set_on config true (set_color config c s).1).1
        ≡ record { on = true; color = c; outs = s.outs }
  painted c s =
      known-set_on config true (set_color config c s).1
      ∙ ap (λ (k : Known). record k { on = true }) (known-set_color config c s)

  obey-color :
      (scan : Scan) (text : List ℕ) (s : Light) {c : Rgb}
      → config.enable_color ≡ true
      → parse_hex_color scan text ≡ some c
      → obey config scan (codes "color:" ++ text) s
        ≡ (true, (set_on config true (set_color config c s).1).1)
  unfolding obey
  obey-color scan text s colored parsed =
      chosen config.enable_color (paint_on config (parse_hex_color scan text)) (pure false) s
        colored
      ∙ ap (λ o. paint_on config o s) parsed

  answered :
      (now : ℕ) (scan : Scan) (payload : List ℕ) (s t : Light)
      → obey config scan payload s ≡ (true, t)
      → (handle_command config now scan payload s).1 ≡ (publish_status config now t).1
  unfolding handle_command
  answered now scan payload s t done = rw done refl

  -- In a build with colours, a lamp that is sent the colour that any lamp has printed takes this colour
  -- and is switched on, if `sscanf` reads hexadecimal digits.
  pub colour_comes_back :
      (now : ℕ) (scan : Scan) (s d : Light)
      → config.enable_color ≡ true
      → ReadsHex scan
      → d.color.r < 256
      → d.color.g < 256
      → d.color.b < 256
      → let t = (handle_command config now scan (codes "color:" ++ get_color d) s).1 in
        (t.color ≡ d.color) × (t.on ≡ true)
  unfolding get_color publish_status message_id
  colour_comes_back now scan s d colored law red green blue =
      let c = d.color in
      let lit = (set_on config true (set_color config c s).1).1 in
      let whole = painted c s in
      let done = answered now scan (codes "color:" ++ color_text c) s lit (
        obey-color scan (color_text c) s colored
          (parse_hex_color-text scan c law red green blue)) in
      (
        ap (λ (t : Light). t.color) done ∙ ap (λ (k : Known). k.color) whole,
        ap (λ (t : Light). t.on) done ∙ ap (λ (k : Known). k.on) whole,
      )
