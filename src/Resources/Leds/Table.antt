-- ===== src/Resources/Leds/Table.antt =====
-- Exactly which variables the LED handler of res-leds.c takes, and what it does for them.
use io_t_project.Prelude.{
  ℕ, ◌≡◌, refl, sym, ◌∙◌, not, inl, inr, Bool-cases, false, Bool, ◌||◌, Option, none, some, List,
  [], ◌∷◌, ◌++◌, Bytes, codes, length, if◌then◌else◌, ◌>>=◌, arith,
}
use mathlib.Core.Option.{some-injective}
use io_t_project.CLib.Strncmp.{strncmp_eq}
use io_t_project.Calls.{Call, leds_on, leds_off, set_status_code, bad_request_4_00}
use io_t_project.Power.{begins}
use io_t_project.Resources.Leds.{
  Leds, led_of_color, set_mode, has_nul, mode_step, res_post_put_handler,
}

-- The text is a beginning of the word, or begins with the word and a NUL.
unfoldable pub abbreviates : (word text : Bytes) → Bool
unfolding begins
abbreviates word text = begins text word || begins (word ++ (0 ∷ [])) text

strncmp_eq-abbreviates :
    (text word : Bytes) → strncmp_eq text word (length text) ≡ some (abbreviates word text)
unfolding strncmp_eq abbreviates
strncmp_eq-abbreviates [] word = refl
strncmp_eq-abbreviates (c ∷ text) [] = ground arith
strncmp_eq-abbreviates (c ∷ text) (d ∷ word) = ground (arith, strncmp_eq-abbreviates text word)

unfoldable pub led_named : Leds → (color : Bytes) → Option ℕ
unfolding abbreviates
led_named leds [] = none
led_named leds (c ∷ color) =
    if abbreviates (codes "r") (c ∷ color)
    then some leds.red
    else if abbreviates (codes "g") (c ∷ color)
    then some leds.green
    else if abbreviates (codes "b") (c ∷ color)
    then some leds.blue
    else none

unfoldable pub switch_named : (led : ℕ) → (mode : Bytes) → Option Call
unfolding abbreviates
switch_named led [] = none
switch_named led (c ∷ mode) =
    if abbreviates (codes "on") (c ∷ mode)
    then some (leds_on led)
    else if abbreviates (codes "off") (c ∷ mode)
    then some (leds_off led)
    else none

-- The switch that the two variables ask for.
unfoldable pub asked : Leds → (color mode : Bytes) → Option Call
unfolding led_named switch_named
asked leds color mode = led_named leds color >>= λ led. switch_named led mode

abbrev pub answer_to : Option Call → List Call
answer_to none = set_status_code bad_request_4_00 ∷ []
answer_to (some call) = call ∷ []

led_of_color-led_named :
    (leds : Leds) (c : ℕ) (color : Bytes)
    → led_of_color leds (c ∷ color) ≡ some (led_named leds (c ∷ color))
unfolding led_of_color led_named
led_of_color-led_named leds c color = ground (
  arith,
  strncmp_eq-abbreviates (c ∷ color) (codes "r"),
  strncmp_eq-abbreviates (c ∷ color) (codes "g"),
  strncmp_eq-abbreviates (c ∷ color) (codes "b"),
)

set_mode-switch_named :
    (led c : ℕ) (mode : Bytes)
    → set_mode led (c ∷ mode) ≡ some (answer_to (switch_named led (c ∷ mode)))
unfolding set_mode switch_named
set_mode-switch_named led c mode = ground (
  arith,
  strncmp_eq-abbreviates (c ∷ mode) (codes "on"),
  strncmp_eq-abbreviates (c ∷ mode) (codes "off"),
)

-- A mode is printed, for a LED, and no NUL ends it.
unfoldable pub overprints : Option ℕ → (mode behind : Bytes) → Bool
unfolding has_nul
overprints none mode behind = false
overprints (some led) [] behind = false
overprints (some led) (c ∷ mode) behind = not (has_nul ((c ∷ mode) ++ behind))

mode_step-answer_to :
    (found : Option ℕ) (mode behind : Bytes)
    → mode_step mode behind found ≡ (
        if overprints found mode behind
        then none
        else some (answer_to (found >>= λ led. switch_named led mode)))
unfolding switch_named mode_step overprints
mode_step-answer_to none mode behind = refl
mode_step-answer_to (some led) [] behind = refl
mode_step-answer_to (some led) (c ∷ mode) behind =
    elim (Bool-cases (has_nul ((c ∷ mode) ++ behind))) [
      | inl h ↦ rw h (set_mode-switch_named led c mode)
      | inr h ↦ rw h refl
    ]

-- Whatever the two variables hold, the handler reads past what may be read exactly where the color
-- names a LED and neither a non-empty mode nor what stands behind it has a NUL, for which the log line
-- of the mode looks; and else it does exactly what the variables ask for. A color abbreviates r, g or b, and a mode on or off, looked for in this order, where an
-- abbreviation is a beginning of the word of at least one byte, or the word with a NUL and any rest
-- behind it. Every other pair of variables is answered 4.00, and switches nothing.
pub res_post_put_handler-asked :
    (leds : Leds) (color mode behind : Bytes)
    → res_post_put_handler leds color mode behind ≡ (
        if overprints (led_named leds color) mode behind
        then none
        else some (answer_to (asked leds color mode)))
unfolding res_post_put_handler asked led_named overprints
res_post_put_handler-asked leds [] mode behind = refl
res_post_put_handler-asked leds (c ∷ color) mode behind =
    rw (led_of_color-led_named leds c color)
      (mode_step-answer_to (led_named leds (c ∷ color)) mode behind)

-- What the handler answers is what the variables ask for.
pub res_post_put_handler-some :
    (leds : Leds) (color mode behind : Bytes) (calls : List Call)
    → res_post_put_handler leds color mode behind ≡ some calls
    → calls ≡ answer_to (asked leds color mode)
res_post_put_handler-some leds color mode behind calls e =
    let table = sym (res_post_put_handler-asked leds color mode behind) ∙ e in
    elim (Bool-cases (overprints (led_named leds color) mode behind)) [
      | inl past ↦ absurd (overread (rw past at table))
      | inr within ↦ sym (some-injective _ _ (rw within at table))
    ]
  where
    overread : ◌≡◌ {A = Option (List Call)} none (some calls) → ⊥
    overread g = cc
