-- ===== src/RgbLight/Tests.antt =====
-- Concrete runs of the lamp of rgb_light/main.
use esp32_ble_mesh.Base.{
  List, [], arith, codes, false, hex_digit, if◌then◌else◌, ltb, none, refl, some, true, ℕ, ◌%◌, ◌*◌,
  ◌++◌, ◌+◌, ◌-◌, ◌/◌, ◌<◌, ◌∷◌, ◌≡◌,
}
use esp32_ble_mesh.RgbLight.Colour.{ReadsHex, colour_comes_back}
use esp32_ble_mesh.RgbLight.Commands.{Scan, handle_command}
use esp32_ble_mesh.RgbLight.Light.{black, boot_blink, get_color, light_init, shade}
use esp32_ble_mesh.RgbLight.Machine.{Event, connected, heartbeat, received, run}
use esp32_ble_mesh.RgbLight.Shown.{leds_show_light}
use esp32_ble_mesh.RgbLight.State.{Config, Light, Rgb}

abbrev build : Config
build = record {
  led_count = 2;
  enable_color = true;
  device_id = codes "rgb-1";
  version = codes "1.0";
}

abbrev orange : Rgb
orange = record { r = 255; g = 128; b = 0 }

-- The lamp as the program starts.
abbrev dark_lamp : Light
dark_lamp = record {
  has_strip = false;
  on = false;
  color = record { r = 255; g = 255; b = 255 };
  leds = λ i. black;
  has_client = true;
  has_timer = true;
  boot_nonce = 7;
  sequence = 0;
  outs = [];
}

-- Six capital digits, as `sscanf` reads them.
abbrev digit_value : ℕ → ℕ
digit_value d = if ltb d 58 then d - 48 else d - 55

abbrev scan_six : Scan
scan_six (a ∷ (b ∷ (c ∷ (d ∷ (e ∷ (f ∷ [])))))) = some (
  digit_value a * 16 + digit_value b,
  digit_value c * 16 + digit_value d,
  digit_value e * 16 + digit_value f,
)
scan_six other = none

byte_value :
    (x : ℕ) → x < 256 → digit_value (hex_digit (x / 16)) * 16 + digit_value (hex_digit (x % 16)) ≡ x
byte_value x small = ground arith

scan_six-ReadsHex : ReadsHex scan_six
scan_six-ReadsHex c red green blue =
    λ i. some (byte_value c.r red i, byte_value c.g green i, byte_value c.b blue i)

abbrev no_name : ℕ → List ℕ
no_name err = codes "error"

-- The lamp is switched on, gets a colour, and is switched off by JSON.
abbrev evening : List (ℕ × Event)
evening =
    (0, connected)
    ∷ ((0, received (codes "farmely/light/rgb-1/down/cmd") (codes "on") 0)
        ∷ ((0, received (codes "farmely/light/rgb-1/down/cmd") (codes "color:#FF8000") 0)
            ∷ ((0, heartbeat)
                ∷ ((0, received (codes "farmely/light/rgb-1/down/cmd") (codes "{\"on\":false}") 0)
                    ∷ []))))

leds_show_light_example :
    let start = (boot_blink build 3 (light_init build 0 dark_lamp).1).1 in
    let t = run build scan_six no_name evening start in t.leds 1 ≡ shade t.on t.color
leds_show_light_example = leds_show_light build scan_six no_name 3 evening dark_lamp 1 (omega arith)

-- A text that asks for a colour and for the lamp to be off.
abbrev orange_off : List ℕ
orange_off = codes "{\"on\":false,\"color\":\"#FF8000\"}"

abbrev orange_lamp : Light
orange_lamp = record dark_lamp { color = orange }

colour_comes_back_example :
    let t =
      (handle_command build 0 scan_six (codes "color:" ++ get_color orange_lamp) dark_lamp).1 in
    (t.color ≡ orange) × (t.on ≡ true)
colour_comes_back_example =
    colour_comes_back build 0 scan_six dark_lamp orange_lamp refl scan_six-ReadsHex (omega arith)
      (omega arith) (omega arith)
