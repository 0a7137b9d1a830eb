-- ===== src/RgbLight/Light.antt =====
-- The light of rgb_light/main/app_light.c.
use esp32_ble_mesh.Base.{
  Bool, List, false, hex_byte, if◌then◌else◌, not, suc, true, update, zero, ℕ, ◌++◌, ◌==◌, ◌||◌,
  ◌∷◌,
}
use esp32_ble_mesh.RgbLight.State.{Config, Light, M, Rgb, get, modify, pure, skip, ◌>>=◌, ◌>>◌}

abbrev pub black : Rgb
black = record { r = 0; g = 0; b = 0 }

-- What each LED is set to.
abbrev pub shade : Bool → Rgb → Rgb
shade on color = if on then color else black

-- The loop of `refresh` over the `n` LEDs from `i` on.
unfoldable pub set_pixels : ℕ → ℕ → Rgb → (ℕ → Rgb) → ℕ → Rgb
set_pixels zero i c leds = leds
set_pixels (suc n) i c leds = set_pixels n (suc i) c (update leds i c)

-- "#%02X%02X%02X".
abbrev pub color_text : Rgb → List ℕ
color_text c = b'#' ∷ (hex_byte c.r ++ (hex_byte c.g ++ hex_byte c.b))

module _ (config : Config) where
  -- `refresh`, after which the LEDs show what they are set to.
  unfoldable pub refresh : M (Unit {0})
  unfolding set_pixels
  refresh = do
    s ← get
    if not s.has_strip
        then skip
        else modify
            (λ s. record s { leds = set_pixels config.led_count 0 (shade s.on s.color) s.leds })

  -- `app_light_init`, given the answer of led_strip_new_rmt_device.
  unfoldable pub light_init : ℕ → M ℕ
  light_init answer =
      if answer == 0
      then (do modify (λ s. record s { has_strip = true }); refresh; pure 0)
      else pure answer

  -- `app_light_set_on`.
  unfoldable pub set_on : Bool → M (Unit {0})
  set_on on = do modify (λ s. record s { on = on }); refresh

  -- The loop of `app_light_boot_blink`, without the delays.
  unfoldable pub blink_loop : ℕ → M (Unit {0})
  blink_loop zero = skip
  blink_loop (suc n) = do set_on true; set_on false; blink_loop n

  -- `app_light_boot_blink`.
  unfoldable pub boot_blink : ℕ → M (Unit {0})
  boot_blink times = do s ← get; if times == 0 || not s.has_strip then skip else blink_loop times

  -- `app_light_set_color`.
  unfoldable pub set_color : Rgb → M (Unit {0})
  set_color c = do modify (λ s. record s { color = c }); s ← get; if s.on then refresh else skip

-- `app_light_get_color`.
unfoldable pub get_color : Light → List ℕ
get_color s = color_text s.color
