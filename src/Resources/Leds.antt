-- ===== src/Resources/Leds.antt =====
-- resources/res-leds.c and resources/res-toggle.c, and the LED commands that `mqtt_event_handler` of
-- coap-mqtt-sensor.c takes from MQTT messages.
use io_t_project.Prelude.{
  ℕ, Bool, true, false, ◌&&◌, ◌||◌, ◌++◌, not, Option, none, some, List, [], ◌∷◌, Bytes, codes,
  length, drop, leb, ◌==◌, if◌then◌else◌, ◌>>=◌,
}
use io_t_project.CLib.Strncmp.{strncmp_eq}
use io_t_project.Calls.{
  Call, Code, leds_on, leds_off, leds_toggle, set_status_code, bad_request_4_00,
}
pub mod Commands
pub mod Laws
pub mod Reads
pub mod Table

-- The platform's LED masks: LEDS_RED, LEDS_GREEN, and LEDS_BLUE, or LEDS_YELLOW where LEDS_CONF_BLUE
-- is not defined.
pub record Leds : Type 0 where
  pub red : ℕ
  pub green : ℕ
  pub blue : ℕ

-- The LED of a color variable. A comparison of `n` bytes, the variable's length, finds a shorter text
-- equal to a beginning of the literal. `none` is a read outside the variable, `some none` no LED.
unfoldable pub led_of_color : Leds → Bytes → Option (Option ℕ)
unfolding strncmp_eq
led_of_color leds color = strncmp_eq color (codes "r") (length color) >>= λ r.
    if r
    then some (some leds.red)
    else strncmp_eq color (codes "g") (length color) >>= λ g.
        if g
        then some (some leds.green)
        else strncmp_eq color (codes "b") (length color) >>= λ b.
            some (if b then some leds.blue else none)

-- What the mode asks of the LED.
unfoldable pub set_mode : (led : ℕ) → Bytes → Option (List Call)
unfolding strncmp_eq
set_mode led mode = strncmp_eq mode (codes "on") (length mode) >>= λ on.
    if on
    then some (leds_on led ∷ [])
    else strncmp_eq mode (codes "off") (length mode) >>= λ off.
        some (if off then leds_off led ∷ [] else set_status_code bad_request_4_00 ∷ [])

unfoldable pub has_nul : Bytes → Bool
has_nul [] = false
has_nul (c ∷ bytes) = c == 0 || has_nul bytes

-- `mode` is printed by `%s` before it is compared: that reads it, and what stands behind it, up to a
-- NUL. `behind` is what may be read there.
unfoldable pub mode_step : (mode behind : Bytes) → Option ℕ → Option (List Call)
unfolding set_mode has_nul
mode_step mode behind none = some (set_status_code bad_request_4_00 ∷ [])
mode_step [] behind (some led) = some (set_status_code bad_request_4_00 ∷ [])
mode_step (c ∷ mode) behind (some led) =
    if has_nul ((c ∷ mode) ++ behind) then set_mode led (c ∷ mode) else none

-- The query variable `color` and the post variable `mode`, each with no bytes where it is missing. The
-- default status code of a response is not touched on success.
unfoldable pub res_post_put_handler : Leds → (color mode behind : Bytes) → Option (List Call)
unfolding led_of_color mode_step
res_post_put_handler leds [] mode behind = some (set_status_code bad_request_4_00 ∷ [])
res_post_put_handler leds (c ∷ color) mode behind =
    led_of_color leds (c ∷ color) >>= mode_step mode behind

-- resources/res-toggle.c
unfoldable pub res_post_handler : Leds → List Call
res_post_handler leds = leds_toggle leds.red ∷ []

-- The byte behind `led:`; 0 is no LED.
unfoldable pub led_of_byte : Leds → ℕ → ℕ
led_of_byte leds color =
    if color == b'r'
    then leds.red
    else if color == b'g'
    then leds.green
    else if color == b'b'
    then leds.blue
    else 0

abbrev pub first_byte : Bytes → ℕ
first_byte [] = 0
first_byte (c ∷ s) = c

-- The message's chunk as it is compared: `strncmp(mode_str, "off", 3)` is made only where `on` is not
-- found. `none` is a read outside the chunk.
unfoldable pub mqtt_led_mode : (led : ℕ) → Bytes → Option (List Call)
unfolding strncmp_eq
mqtt_led_mode led mode_str =
    if led == 0
    then some []
    else strncmp_eq mode_str (codes "on") 2 >>= λ on.
        if on
        then some (leds_on led ∷ [])
        else strncmp_eq mode_str (codes "off") 3 >>= λ off.
            some (if off then leds_off led ∷ [] else [])

-- MQTT_EVENT_PUBLISH: the prefix is compared before the length is tested.
unfoldable pub mqtt_led_command : Leds → Bytes → Option (List Call)
unfolding mqtt_led_mode led_of_byte strncmp_eq
mqtt_led_command leds chunk = strncmp_eq chunk (codes "led:") 4 >>= λ prefix.
    if prefix && leb 8 (length chunk)
    then mqtt_led_mode (led_of_byte leds (first_byte (drop 4 chunk))) (drop 6 chunk)
    else some []
