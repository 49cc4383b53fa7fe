-- ===== src/Resources/Leds/Laws.antt =====
-- What the LED handlers accept, and what they read.
use io_t_project.Prelude.{
  ℕ, ◌≤◌, ◌≡◌, refl, ◌≢◌, ◌⊎◌, inl, inr, Bool, true, false, Option, none, some, List, [], ◌∷◌, ◌++◌,
  Bytes, codes, length, drop, leb, arith, if◌then◌else◌, ◌==◌, Bool-cases, subst, sym, ◌∙◌,
}
use mathlib.Core.Option.{some-injective}
use io_t_project.CLib.Strncmp.{strncmp_eq, strncmp_eq_total}
use io_t_project.Calls.{Call, leds_on, leds_off, set_status_code, bad_request_4_00}
use io_t_project.Resources.Leds.{
  Leds, first_byte, led_of_color, set_mode, has_nul, mode_step, res_post_put_handler, led_of_byte,
  mqtt_led_mode, mqtt_led_command,
}

-- The answers that a LED request can have: refused, or one LED of the three switched.
pub data LedAnswer (leds : Leds) : List Call → Type 0 where
  refused : LedAnswer leds (set_status_code bad_request_4_00 ∷ [])
  on :
      (led : ℕ)
      → (led ≡ leds.red ⊎ led ≡ leds.green ⊎ led ≡ leds.blue)
      → LedAnswer leds (leds_on led ∷ [])
  off :
      (led : ℕ)
      → (led ≡ leds.red ⊎ led ≡ leds.green ⊎ led ≡ leds.blue)
      → LedAnswer leds (leds_off led ∷ [])

abbrev IsLed : Leds → ℕ → Type 0
IsLed leds led = led ≡ leds.red ⊎ led ≡ leds.green ⊎ led ≡ leds.blue

set_mode_answer :
    {leds : Leds} (led : ℕ) (mode : Bytes)
    → IsLed leds led
    → (calls : List Call) × (set_mode led mode ≡ some calls) × LedAnswer leds calls
unfolding set_mode
set_mode_answer {leds} led mode h =
    answer (strncmp_eq_total mode (codes "on") (length mode) (omega arith))
      (strncmp_eq_total mode (codes "off") (length mode) (omega arith))
  where
    answer :
        (b : Bool) × (strncmp_eq mode (codes "on") (length mode) ≡ some b)
        → (b : Bool) × (strncmp_eq mode (codes "off") (length mode) ≡ some b)
        → (calls : List Call) × (set_mode led mode ≡ some calls) × LedAnswer leds calls
    answer (true, e) f = (leds_on led ∷ [], rw e, LedAnswer.on led h)
    answer (false, e) (true, f) = (leds_off led ∷ [], rw (e, f), LedAnswer.off led h)
    answer (false, e) (false, f) =
        (set_status_code bad_request_4_00 ∷ [], rw (e, f), LedAnswer.refused)

led_of_color_total :
    (leds : Leds) (color : Bytes)
    → (found : Option ℕ) × (led_of_color leds color ≡ some found)
      × ((led : ℕ) → found ≡ some led → IsLed leds led)
unfolding led_of_color
led_of_color_total leds color =
    answer (strncmp_eq_total color (codes "r") (length color) (omega arith))
      (strncmp_eq_total color (codes "g") (length color) (omega arith))
      (strncmp_eq_total color (codes "b") (length color) (omega arith))
  where
    answer :
        (t : Bool) × (strncmp_eq color (codes "r") (length color) ≡ some t)
        → (t : Bool) × (strncmp_eq color (codes "g") (length color) ≡ some t)
        → (t : Bool) × (strncmp_eq color (codes "b") (length color) ≡ some t)
        → (found : Option ℕ) × (led_of_color leds color ≡ some found)
          × ((led : ℕ) → found ≡ some led → IsLed leds led)
    answer (true, e) f g = (some leds.red, rw e, λ led h. inl (cc))
    answer (false, e) (true, f) g = (some leds.green, rw (e, f), λ led h. inr (inl (cc)))
    answer (false, e) (false, f) (true, g) = (some leds.blue, rw (e, f, g), λ led h. inr (inr (cc)))
    answer (false, e) (false, f) (false, g) = (none, rw (e, f, g), λ led h. cc)

mode_step_answer :
    {leds : Leds} (mode behind : Bytes) (found : Option ℕ)
    → (mode ≢ [] → has_nul (mode ++ behind) ≡ true)
    → ((led : ℕ) → found ≡ some led → IsLed leds led)
    → (calls : List Call) × (mode_step mode behind found ≡ some calls) × LedAnswer leds calls
unfolding mode_step
mode_step_answer mode behind none ends h = (_, refl, LedAnswer.refused)
mode_step_answer [] behind (some led) ends h = (_, refl, LedAnswer.refused)
mode_step_answer (c ∷ mode) behind (some led) ends h =
    let (calls, f, ok) = set_mode_answer led (c ∷ mode) (h led refl) in
    (calls, rw (ends (λ e. cc), f) refl, ok)

-- Where a NUL stands in or behind a `mode` that is there, the handler reads nothing past what may be read, and either
-- answers 4.00 and switches nothing, or switches one of the three LEDs and leaves the default status.
pub res_post_put_handler_answer :
    (leds : Leds) (color mode behind : Bytes)
    → (mode ≢ [] → has_nul (mode ++ behind) ≡ true)
    → (calls : List Call) × (res_post_put_handler leds color mode behind ≡ some calls)
      × LedAnswer leds calls
unfolding res_post_put_handler
res_post_put_handler_answer leds [] mode behind ends = (_, refl, LedAnswer.refused)
res_post_put_handler_answer leds (c ∷ color) mode behind ends =
    let (found, e, h) = led_of_color_total leds (c ∷ color) in
    let (calls, f, ok) = mode_step_answer mode behind found ends h in (calls, rw (e, f) refl, ok)

pub has_nul-end : (bytes : Bytes) → has_nul (bytes ++ (0 ∷ [])) ≡ true
unfolding has_nul
has_nul-end [] = refl
has_nul-end (c ∷ bytes) = ground (arith, has_nul-end bytes)

mode_step-end :
    (mode behind : Bytes) (found : Option ℕ) (calls : List Call)
    → mode_step mode behind found ≡ some calls
    → mode_step mode (0 ∷ []) found ≡ some calls
unfolding mode_step
mode_step-end mode behind none calls e = e
mode_step-end [] behind (some led) calls e = e
mode_step-end (c ∷ mode) behind (some led) calls e =
    elim (Bool-cases (has_nul ((c ∷ mode) ++ behind))) [
      | inl h ↦ rw (has_nul-end (c ∷ mode)) (rw h at e)
      | inr h ↦ absurd (overread (rw h at e))
    ]
  where
    overread : ◌≡◌ {A = Option (List Call)} none (some calls) → ⊥
    overread g = cc

-- A NUL behind the mode changes no answer.
pub res_post_put_handler-end :
    (leds : Leds) (color mode behind : Bytes) (calls : List Call)
    → res_post_put_handler leds color mode behind ≡ some calls
    → res_post_put_handler leds color mode (0 ∷ []) ≡ some calls
unfolding res_post_put_handler
res_post_put_handler-end leds [] mode behind calls e = e
res_post_put_handler-end leds (c ∷ color) mode behind calls e =
    let (found, f, _) = led_of_color_total leds (c ∷ color) in
    rw f (mode_step-end mode behind found calls (rw f at e))

-- What the handler answers is one of its answers.
pub res_post_put_handler-LedAnswer :
    (leds : Leds) (color mode behind : Bytes) (calls : List Call)
    → res_post_put_handler leds color mode behind ≡ some calls
    → LedAnswer leds calls
unfolding res_post_put_handler
res_post_put_handler-LedAnswer leds [] mode behind calls e =
    subst (LedAnswer leds) (some-injective _ _ e) LedAnswer.refused
res_post_put_handler-LedAnswer leds (c ∷ color) mode behind calls e =
    let (found, f, h) = led_of_color_total leds (c ∷ color) in
    let given = mode_step-end mode behind found calls (rw f at e) in
    let (made, g, ok) = mode_step_answer mode (0 ∷ []) found (λ _. has_nul-end mode) h in
    subst (LedAnswer leds) (some-injective _ _ (sym g ∙ given)) ok

mqtt_led_mode_total :
    (led : ℕ) (mode_str : Bytes)
    → 3 ≤ length mode_str
    → (calls : List Call) × (mqtt_led_mode led mode_str ≡ some calls)
unfolding mqtt_led_mode
mqtt_led_mode_total led mode_str h =
    answer (led == 0) refl (strncmp_eq_total mode_str (codes "on") 2 (omega arith))
      (strncmp_eq_total mode_str (codes "off") 3 h)
  where
    answer :
        (z : Bool)
        → (led == 0) ≡ z
        → (b : Bool) × (strncmp_eq mode_str (codes "on") 2 ≡ some b)
        → (b : Bool) × (strncmp_eq mode_str (codes "off") 3 ≡ some b)
        → (calls : List Call) × (mqtt_led_mode led mode_str ≡ some calls)
    answer true z e f = ([], rw z)
    answer false z (true, e) f = (leds_on led ∷ [], rw (z, e))
    answer false z (false, e) (b, f) = ((if b then leds_off led ∷ [] else []), rw (z, e, f))

length-drop_six : (s : Bytes) → 9 ≤ length s → 3 ≤ length (drop 6 s)
length-drop_six [] h = omega arith
length-drop_six (a ∷ []) h = omega arith
length-drop_six (a ∷ b ∷ []) h = omega arith
length-drop_six (a ∷ b ∷ c ∷ []) h = omega arith
length-drop_six (a ∷ b ∷ c ∷ d ∷ []) h = omega arith
length-drop_six (a ∷ b ∷ c ∷ d ∷ e ∷ []) h = omega arith
length-drop_six (a ∷ b ∷ c ∷ d ∷ e ∷ f ∷ s) h = omega arith

-- A chunk of at least nine bytes is read within its bounds.
pub mqtt_led_command_safe :
    (leds : Leds) (chunk : Bytes)
    → 9 ≤ length chunk
    → (calls : List Call) × (mqtt_led_command leds chunk ≡ some calls)
unfolding mqtt_led_command
mqtt_led_command_safe leds chunk h =
    answer (strncmp_eq_total chunk (codes "led:") 4 (omega arith)) (
      mqtt_led_mode_total (led_of_byte leds (first_byte (drop 4 chunk))) (drop 6 chunk)
        (length-drop_six chunk h))
  where
    long : leb 8 (length chunk) ≡ true
    long = ground arith

    answer :
        (b : Bool) × (strncmp_eq chunk (codes "led:") 4 ≡ some b)
        → (calls : List Call) × (mqtt_led_mode
              (led_of_byte leds (first_byte (drop 4 chunk)))
              (drop 6 chunk)
            ≡ some calls)
        → (calls : List Call) × (mqtt_led_command leds chunk ≡ some calls)
    answer (false, e) r = ([], rw e)
    answer (true, e) (calls, f) = (calls, rw (e, long, f))

-- A chunk of eight bytes that spells `led:`, the letter of a LED, any byte and `of` is read one byte
-- past its end: `strncmp(mode_str, "off", 3)` is made although two bytes are left.
pub mqtt_led_command_overread :
    (leds : Leds) (color sep : ℕ)
    → led_of_byte leds color ≢ 0
    → mqtt_led_command leds (codes "led:" ++ (color ∷ sep ∷ codes "of")) ≡ none
unfolding mqtt_led_command
mqtt_led_command_overread leds color sep h =
    let lit : (led_of_byte leds color == 0) ≡ false = ground arith in rw lit
