-- ===== src/RgbLight.antt =====
-- rgb_light/main/app_light.c and app_mqtt.c: a lamp with coloured LEDs that is commanded over MQTT.
pub mod State
pub mod Light
pub mod Commands
pub mod Machine
pub mod Known
pub mod Strip
pub mod Shown
pub mod Reports
pub mod Colour
mod Tests
