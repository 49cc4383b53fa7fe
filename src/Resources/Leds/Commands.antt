-- ===== src/Resources/Leds/Commands.antt =====
-- What the LED commands of MQTT messages ask for, next to the requests of res-leds.c.
use io_t_project.Prelude.{
  ℕ, ◌≤◌, ◌≡◌, refl, ◌≢◌, ◌↔◌, ◌⊎◌, inl, inr, Bool-cases, Option-cases, true, false, Option, none,
  some, ◌∙◌, ap, sym, subst, List, [], ◌∷◌, ◌++◌, Bytes, codes, length, drop, leb, arith, ◌==◌,
  if◌then◌else◌,
}
use mathlib.Core.Option.{some-injective}
use io_t_project.CLib.Strncmp.{strncmp_eq, strncmp_eq_total, strncmp_eq-prefix}
use io_t_project.Calls.{Call, leds_on, leds_off}
use io_t_project.Resources.Leds.{Leds, first_byte, led_of_byte, mqtt_led_mode, mqtt_led_command}
use io_t_project.Resources.Leds.Reads.{IsCutOff, mqtt_led_command-none}
use io_t_project.Power.{begins}
use io_t_project.Resources.Leds.Table.{abbreviates, led_named, switch_named, asked}

-- No mask of a LED is empty.
pub record IsLit (leds : Leds) : Type 0 where
  pub red_lit : leds.red ≢ 0
  pub green_lit : leds.green ≢ 0
  pub blue_lit : leds.blue ≢ 0

-- A message that asks for this call: `led:`, a letter, any byte, `on` or `off`, and any rest, where
-- the call is what the CoAP resource is asked for by the letter as its color and by the mode.
pub data Commands (leds : Leds) : Bytes → Call → Type 0 where
  command :
      (color sep : ℕ) (mode rest : Bytes) (call : Call)
      → (mode ≡ codes "on" ⊎ mode ≡ codes "off")
      → asked leds (color ∷ []) mode ≡ some call
      → Commands leds (codes "led:" ++ (color ∷ sep ∷ mode ++ rest)) call

no_call : {call : Call} → none ≡ some call → ⊥
no_call g = cc

idle : {call : Call} → ◌≡◌ {A = Option (List Call)} (some []) (some (call ∷ [])) → ⊥
idle g = cc

cut : {call : Call} → ◌≡◌ {A = Option (List Call)} none (some (call ∷ [])) → ⊥
cut g = cc

one :
    {made call : Call}
    → ◌≡◌ {A = Option (List Call)} (some (made ∷ [])) (some (call ∷ []))
    → some made ≡ some call
one g = cc

led_named_letter :
    {leds : Leds} (color : ℕ)
    → IsLit leds
    → led_named leds (color ∷ [])
      ≡ (if led_of_byte leds color == 0 then none else some (led_of_byte leds color))
unfolding led_named led_of_byte abbreviates begins
led_named_letter {leds} color h =
    let red = h.red_lit in let green = h.green_lit in let blue = h.blue_lit in ground arith

-- What the letter and the two modes ask for.
asked_letter :
    {leds : Leds} (color : ℕ)
    → IsLit leds
    → (asked leds (color ∷ []) (codes "on")
        ≡ (if led_of_byte leds color == 0 then none else some (leds_on (led_of_byte leds color))))
      × (asked leds (color ∷ []) (codes "off") ≡ (
          if led_of_byte leds color == 0 then none else some (leds_off (led_of_byte leds color))))
unfolding asked switch_named abbreviates begins
asked_letter {leds} color h = elim (Bool-cases (led_of_byte leds color == 0)) [
  | inl z ↦ rw (led_named_letter color h, z) (refl, refl)
  | inr z ↦ rw (led_named_letter color h, z) (refl, refl)
]

-- A call for a letter is for a LED.
letter_asks :
    {leds : Leds} (color : ℕ) (mode : Bytes) (call : Call)
    → IsLit leds
    → (mode ≡ codes "on" ⊎ mode ≡ codes "off")
    → asked leds (color ∷ []) mode ≡ some call
    → let led = led_of_byte leds color in
      ((led == 0) ≡ false)
      × ((mode ≡ codes "on") × (call ≡ leds_on led) ⊎ (mode ≡ codes "off") × (call ≡ leds_off led))
letter_asks {leds} color mode call h (inl e) asks =
    let (on, _) = asked_letter color h in
    elim (Bool-cases (led_of_byte leds color == 0)) [
      | inl z ↦ absurd (no_call (rw (e, on, z) at asks))
      | inr z ↦ (z, inl (e, sym (some-injective _ _ (rw (e, on, z) at asks))))
    ]
letter_asks {leds} color mode call h (inr e) asks =
    let (_, off) = asked_letter color h in
    elim (Bool-cases (led_of_byte leds color == 0)) [
      | inl z ↦ absurd (no_call (rw (e, off, z) at asks))
      | inr z ↦ (z, inr (e, sym (some-injective _ _ (rw (e, off, z) at asks))))
    ]

switches :
    {leds : Leds} {chunk : Bytes} {call : Call}
    → IsLit leds
    → Commands leds chunk call
    → mqtt_led_command leds chunk ≡ some (call ∷ [])
unfolding mqtt_led_command
switches {leds} h (command color sep mode rest call modes asks) =
    let (z, says) = letter_asks color mode call h modes asks in
    elim says [
      | inl (e, c) ↦ rw (e, c, z) (ground arith)
      | inr (e, c) ↦ rw (e, c, z) (ground arith)
    ]

-- What a mode makes the handler call.
mqtt_led_mode-asks :
    {leds : Leds} (color : ℕ) (mode_str : Bytes) (call : Call)
    → IsLit leds
    → 2 ≤ length mode_str
    → mqtt_led_mode (led_of_byte leds color) mode_str ≡ some (call ∷ [])
    → (mode : Bytes) × (rest : Bytes) × (mode ≡ codes "on" ⊎ mode ≡ codes "off")
      × (mode_str ≡ mode ++ rest)
      × (asked leds (color ∷ []) mode ≡ some call)
unfolding mqtt_led_mode
mqtt_led_mode-asks {leds} color mode_str call h long e =
    let (on_asks, off_asks) = asked_letter color h in
    let (on, f) = strncmp_eq_total mode_str (codes "on") 2 long in
    elim (Bool-cases (led_of_byte leds color == 0)) [
      | inl z ↦ absurd (idle (rw z at e))
      | inr z ↦ elim (Bool-cases on) [
        | inl o ↦
            let (rest, begun) = strncmp_eq-prefix mode_str (codes "on") (f ∙ ap some o) in
            (codes "on", rest, inl refl, begun, rw (on_asks, z) (one (rw (z, f, o) at e)))
        | inr o ↦ elim (Option-cases (strncmp_eq mode_str (codes "off") 3)) [
          | inl g ↦ absurd (cut (rw (z, f, o, g) at e))
          | inr (true, g) ↦
              let (rest, begun) = strncmp_eq-prefix mode_str (codes "off") g in
              (codes "off", rest, inr refl, begun, rw (off_asks, z) (one (rw (z, f, o, g) at e)))
          | inr (false, g) ↦ absurd (idle (rw (z, f, o, g) at e))
        ]
      ]
    ]

asks_of :
    {leds : Leds} (rest : Bytes) (call : Call)
    → IsLit leds
    → 4 ≤ length rest
    → mqtt_led_mode (led_of_byte leds (first_byte rest)) (drop 2 rest) ≡ some (call ∷ [])
    → Commands leds (codes "led:" ++ rest) call
asks_of [] call h long e = absurd (omega arith)
asks_of (color ∷ []) call h long e = absurd (omega arith)
asks_of (color ∷ sep ∷ mode_str) call h long e =
    let (mode, rest, modes, begun, asks) =
      mqtt_led_mode-asks color mode_str call h (omega arith) e in
    rw begun (command color sep mode rest call modes asks)

mqtt_led_command-asks :
    {leds : Leds} (chunk : Bytes) (call : Call)
    → IsLit leds
    → mqtt_led_command leds chunk ≡ some (call ∷ [])
    → Commands leds chunk call
unfolding mqtt_led_command
mqtt_led_command-asks {leds} chunk call h e =
    elim (Option-cases (strncmp_eq chunk (codes "led:") 4)) [
      | inl f ↦ absurd (cut (rw f at e))
      | inr (false, f) ↦ absurd (idle (rw f at e))
      | inr (true, f) ↦ elim (Bool-cases (leb 8 (length chunk))) [
        | inl long ↦
            let (rest, begun) = strncmp_eq-prefix chunk (codes "led:") f in
            rw begun
              (asks_of rest call h (ground (arith, rw begun at long)) (rw (f, long, begun) at e))
        | inr short ↦ absurd (idle (rw (f, short) at e))
      ]
    ]

-- No call, or one that switches a LED on or off.
pub data LedCalls : List Call → Type 0 where
  no_led : LedCalls []
  led_on : (led : ℕ) → LedCalls (leds_on led ∷ [])
  led_off : (led : ℕ) → LedCalls (leds_off led ∷ [])

abbrev GivesLedCalls : Option (List Call) → Type 0
GivesLedCalls o = (calls : List Call) → o ≡ some calls → LedCalls calls

LedCalls-gives : {made : List Call} → LedCalls made → GivesLedCalls (some made)
LedCalls-gives h calls e = subst LedCalls (some-injective _ _ e) h

none-gives : GivesLedCalls none
none-gives calls e = cc

mqtt_led_mode-LedCalls : (led : ℕ) (mode_str : Bytes) → GivesLedCalls (mqtt_led_mode led mode_str)
unfolding mqtt_led_mode
mqtt_led_mode-LedCalls led mode_str = elim (Bool-cases (led == 0)) [
  | inl z ↦ rw z (LedCalls-gives no_led)
  | inr z ↦ elim (Option-cases (strncmp_eq mode_str (codes "on") 2)) [
    | inl f ↦ rw (z, f) none-gives
    | inr (true, f) ↦ rw (z, f) (LedCalls-gives (led_on led))
    | inr (false, f) ↦ elim (Option-cases (strncmp_eq mode_str (codes "off") 3)) [
      | inl g ↦ rw (z, f, g) none-gives
      | inr (true, g) ↦ rw (z, f, g) (LedCalls-gives (led_off led))
      | inr (false, g) ↦ rw (z, f, g) (LedCalls-gives no_led)
    ]
  ]
]

pub mqtt_led_command-LedCalls :
    (leds : Leds) (chunk : Bytes) (calls : List Call)
    → mqtt_led_command leds chunk ≡ some calls
    → LedCalls calls
unfolding mqtt_led_command
mqtt_led_command-LedCalls leds chunk = elim (Option-cases (strncmp_eq chunk (codes "led:") 4)) [
  | inl f ↦ rw f none-gives
  | inr (false, f) ↦ rw f (LedCalls-gives no_led)
  | inr (true, f) ↦ elim (Bool-cases (leb 8 (length chunk))) [
    | inl long ↦
        rw (f, long)
          (mqtt_led_mode-LedCalls (led_of_byte leds (first_byte (drop 4 chunk))) (drop 6 chunk))
    | inr short ↦ rw (f, short) (LedCalls-gives no_led)
  ]
]

LedCalls-one :
    {calls : List Call} → LedCalls calls → (calls ≡ []) ⊎ (call : Call) × (calls ≡ call ∷ [])
LedCalls-one no_led = inl refl
LedCalls-one (led_on led) = inr (leds_on led, refl)
LedCalls-one (led_off led) = inr (leds_off led, refl)

-- On a platform whose LED masks are not empty, an MQTT message switches exactly what it asks for: it
-- makes one call where it is `led:`, a letter, any byte, `on` or `off`, and any rest, and then the call
-- that the CoAP resource is asked for by the letter as its color and by that mode. It is read past its
-- end exactly where it is cut off within `led:`, or is eight bytes of a command to a LED that end in
-- `of`; and no other message makes a call.
pub mqtt_led_command-Commands :
    {leds : Leds} (chunk : Bytes)
    → IsLit leds
    → ((mqtt_led_command leds chunk ≡ none) ↔ IsCutOff leds chunk)
      × ((call : Call)
          → (mqtt_led_command leds chunk ≡ some (call ∷ [])) ↔ Commands leds chunk call)
      × ((calls : List Call)
          → mqtt_led_command leds chunk ≡ some calls
          → (calls ≡ []) ⊎ (call : Call) × (calls ≡ call ∷ []))
mqtt_led_command-Commands {leds} chunk h = (
  mqtt_led_command-none leds chunk,
  λ call. (mqtt_led_command-asks chunk call h, switches h),
  λ calls e. LedCalls-one (mqtt_led_command-LedCalls leds chunk calls e),
)
