-- ===== src/RgbLight/Reports.antt =====
-- What rgb_light/main/app_mqtt.c does and reports of a command.
-- What a command asks for: to be on or off, and a colour.
use esp32_ble_mesh.Base.{
  Bool, List, Option, codes, contains, eq_bytes, false, if◌then◌else◌, none, some, strip_prefix,
  true, ℕ, ◌∷◌, ◌≡◌,
}
use esp32_ble_mesh.RgbLight.Commands.{
  Scan, json_color, json_string, parse_hex_color, starts_with_brace, topic_for, unix_ts_s,
}
use esp32_ble_mesh.RgbLight.Known.{Known, known}
use esp32_ble_mesh.RgbLight.Light.{color_text}
use esp32_ble_mesh.RgbLight.State.{Config, Light, MessageId, Rgb, legacy_status, published, status}

pub record Wish : Type 0 where
  pub on : Option Bool
  pub color : Option Rgb

abbrev pub nothing : Wish
nothing = record { on = none; color = none }

abbrev pub to_be : Bool → Wish
to_be on = record { on = some on; color = none }

-- A colour that is asked for by itself switches the lamp on.
abbrev pub colored : Option Rgb → Wish
colored none = nothing
colored (some c) = record { on = some true; color = some c }

abbrev pub colored_by : Scan → Option (List ℕ) → Wish
colored_by scan none = nothing
colored_by scan (some text) = colored (parse_hex_color scan text)

-- The state that a JSON text names; `true` where it names both.
abbrev pub named_state : List ℕ → Option Bool
named_state text =
    if contains (codes "\"on\":true") text
    then some true
    else if contains (codes "\"on\":false") text
    then some false
    else none

-- What a payload means: "on", "off", a JSON text, or "color:" and a colour; colours only where the
-- lamp has them. Any other payload asks for nothing, which is what a lamp that does not understand does.
abbrev pub meaning : Config → Scan → List ℕ → Wish
meaning config scan payload =
    if eq_bytes payload (codes "on")
    then to_be true
    else if eq_bytes payload (codes "off")
    then to_be false
    else if starts_with_brace payload
    then (record {
      on = named_state payload;
      color =
          if config.enable_color
          then json_color scan (json_string payload (codes "color") 16)
          else none;
    })
    else if config.enable_color
    then colored_by scan (strip_prefix (codes "color:") payload)
    else nothing

-- The lamp is on or off, has a colour, and has reported both on its two status topics, and nothing
-- else.
abbrev pub Tells : Config → ℕ → Bool → Rgb → Light → Light → Type 0
Tells config now on color s t =
    (t.on ≡ on)
    × (t.color ≡ color)
    × (id : MessageId) × (id.device_id ≡ config.device_id)
    × (t.outs
        ≡ published (topic_for (codes "farmely/light/") (codes "/up/status") config)
            (status id (unix_ts_s now) on (color_text color))
          ∷ (published (topic_for (codes "office/light/node/") (codes "/status") config)
                (legacy_status on (color_text color))
              ∷ s.outs))

-- Nothing where nothing is asked for; else the lamp is as asked, and as it was in what is not asked
-- for, and tells it.
abbrev pub Reported : Config → ℕ → Option Bool → Option Rgb → Light → Light → Type 0
Reported config now none none s t = t ≡ s
Reported config now (some on) none s t = Tells config now on s.color s t
Reported config now none (some c) s t = Tells config now s.on c s t
Reported config now (some on) (some c) s t = Tells config now on c s t

-- The same before the report.
abbrev pub Obeyed : Option Bool → Option Rgb → Light → Bool × Light → Type 0
Obeyed none none s r = (r.0 ≡ false) × (r.1 ≡ s)
Obeyed (some on) none s r =
    (r.0 ≡ true) × (known r.1 ≡ record { on = on; color = s.color; outs = s.outs })
Obeyed none (some c) s r =
    (r.0 ≡ true) × (known r.1 ≡ record { on = s.on; color = c; outs = s.outs })
Obeyed (some on) (some c) s r =
    (r.0 ≡ true) × (known r.1 ≡ record { on = on; color = c; outs = s.outs })

module _ (config : Config) where
  abbrev Does : Wish → Light → Bool × Light → Type 0
  Does w s r = Obeyed w.on w.color s r
