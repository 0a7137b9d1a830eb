-- ===== src/RgbLight/Known.antt =====
-- What the calls of rgb_light/main/app_light.c do to the state beside the LEDs.
use esp32_ble_mesh.Base.{Bool, List, false, if◌then◌else◌, not, refl, true, ◌≡◌}
use esp32_ble_mesh.RgbLight.Light.{refresh, set_color, set_on, set_pixels, shade}
use esp32_ble_mesh.RgbLight.State.{Config, Light, M, Out, Rgb, modify, skip}

-- The state of the light, and what left the program.
pub record Known : Type 0 where
  pub on : Bool
  pub color : Rgb
  pub outs : List Out

abbrev pub known : Light → Known
known s = record { on = s.on; color = s.color; outs = s.outs }

branch-known :
    (b : Bool) (m n : M (Unit {0})) (s : Light) (k : Known)
    → known (m s).1 ≡ k
    → known (n s).1 ≡ k
    → known ((if b then m else n) s).1 ≡ k
branch-known true m n s k yes_case no_case = yes_case
branch-known false m n s k yes_case no_case = no_case

module _ (config : Config) where
  known-refresh : (s : Light) → known (refresh config s).1 ≡ known s
  unfolding refresh
  known-refresh s =
      branch-known (not s.has_strip) skip
        (modify
          (λ t. record t { leds = set_pixels config.led_count 0 (shade t.on t.color) t.leds }))
        s (known s) refl refl

  pub known-set_on :
      (on : Bool) (s : Light)
      → known (set_on config on s).1 ≡ record { on = on; color = s.color; outs = s.outs }
  unfolding set_on
  known-set_on on s = known-refresh (record s { on = on })

  pub known-set_color :
      (c : Rgb) (s : Light)
      → known (set_color config c s).1 ≡ record { on = s.on; color = c; outs = s.outs }
  unfolding set_color
  known-set_color c s =
      let painted : Light = record s { color = c } in
      branch-known s.on (refresh config) skip painted (known painted) (known-refresh painted) refl
