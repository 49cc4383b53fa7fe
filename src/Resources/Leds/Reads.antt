-- ===== src/Resources/Leds/Reads.antt =====
-- Exactly which MQTT chunks the LED commands of coap-mqtt-sensor.c read past their end.
use io_t_project.Prelude.{
  ℕ, ◌≤◌, ◌≡◌, refl, ◌≢◌, ◌↔◌, inl, inr, Bool-cases, Option-cases, true, false, none, some, List,
  [], ◌∷◌, ◌++◌, Bytes, codes, length, drop, leb, arith, ◌==◌,
}
use io_t_project.CLib.Strncmp.{
  strncmp_eq, strncmp_eq_total, strncmp_eq-none, strncmp_eq_cut, strncmp_eq-prefix,
}
use io_t_project.Calls.{Call}
use io_t_project.Resources.Leds.{Leds, first_byte, led_of_byte, mqtt_led_mode, mqtt_led_command}
use io_t_project.Resources.Leds.Laws.{mqtt_led_command_overread}

-- A chunk that is cut off where a comparison still reads: within `led:`, or within the `off` of a
-- command to a LED, after eight bytes.
pub data IsCutOff (leds : Leds) : Bytes → Type 0 where
  in_prefix : (chunk rest : Bytes) → rest ≢ [] → chunk ++ rest ≡ codes "led:" → IsCutOff leds chunk
  in_mode :
      (color sep : ℕ)
      → led_of_byte leds color ≢ 0
      → IsCutOff leds (codes "led:" ++ (color ∷ sep ∷ codes "of"))

two_left : (s rest : Bytes) → 2 ≤ length s → rest ≢ [] → s ++ rest ≡ codes "off" → s ≡ codes "of"
two_left [] rest h more e = absurd (omega arith)
two_left (a ∷ []) rest h more e = absurd (omega arith)
two_left (a ∷ b ∷ []) rest h more e = cc
two_left (a ∷ b ∷ c ∷ []) [] h more e = absurd (more refl)
two_left (a ∷ b ∷ c ∷ []) (r ∷ rest) h more e = cc
two_left (a ∷ b ∷ c ∷ d ∷ s) rest h more e = cc

mqtt_led_mode_cut :
    (led : ℕ) (mode_str : Bytes)
    → 2 ≤ length mode_str
    → mqtt_led_mode led mode_str ≡ none
    → (led ≢ 0) × (mode_str ≡ codes "of")
unfolding mqtt_led_mode
mqtt_led_mode_cut led mode_str h e =
    let (on, f) = strncmp_eq_total mode_str (codes "on") 2 h in
    elim (Bool-cases (led == 0)) [
      | inl z ↦ absurd (some_calls (rw z at e))
      | inr z ↦ elim (Bool-cases on) [
        | inl o ↦ absurd (some_calls (rw (z, f, o) at e))
        | inr o ↦ elim (Option-cases (strncmp_eq mode_str (codes "off") 3)) [
          | inl g ↦
              let (rest, more, cut) = strncmp_eq-none mode_str (codes "off") g in
              (ground arith, two_left mode_str rest h more cut)
          | inr (b, g) ↦ absurd (some_calls (rw (z, f, o, g) at e))
        ]
      ]
    ]
  where
    some_calls : {calls : List Call} → some calls ≡ none → ⊥
    some_calls g = cc

in_mode_of :
    (leds : Leds) (rest : Bytes)
    → 4 ≤ length rest
    → mqtt_led_mode (led_of_byte leds (first_byte rest)) (drop 2 rest) ≡ none
    → IsCutOff leds (codes "led:" ++ rest)
in_mode_of leds [] h e = absurd (omega arith)
in_mode_of leds (color ∷ []) h e = absurd (omega arith)
in_mode_of leds (color ∷ sep ∷ mode_str) h e =
    let (lit, of) = mqtt_led_mode_cut (led_of_byte leds color) mode_str (omega arith) e in
    rw of (in_mode color sep lit)

mqtt_led_command-IsCutOff :
    (leds : Leds) (chunk : Bytes) → mqtt_led_command leds chunk ≡ none → IsCutOff leds chunk
unfolding mqtt_led_command
mqtt_led_command-IsCutOff leds chunk e = elim (Option-cases (strncmp_eq chunk (codes "led:") 4)) [
  | inl f ↦
      let (rest, more, cut) = strncmp_eq-none chunk (codes "led:") f in
      in_prefix chunk rest more cut
  | inr (false, f) ↦ absurd (some_calls (rw f at e))
  | inr (true, f) ↦ elim (Bool-cases (leb 8 (length chunk))) [
    | inl long ↦
        let (rest, begun) = strncmp_eq-prefix chunk (codes "led:") f in
        rw begun
          (in_mode_of leds rest (ground (arith, rw begun at long)) (rw (f, long, begun) at e))
    | inr short ↦ absurd (some_calls (rw (f, short) at e))
  ]
]
  where
    some_calls : {calls : List Call} → some calls ≡ none → ⊥
    some_calls g = cc

reads_past :
    (leds : Leds) {chunk : Bytes} → IsCutOff leds chunk → mqtt_led_command leds chunk ≡ none
unfolding mqtt_led_command
reads_past leds (in_prefix chunk rest more cut) =
    rw (strncmp_eq_cut chunk rest (codes "led:") more cut)
reads_past leds (in_mode color sep lit) = mqtt_led_command_overread leds color sep lit

-- An MQTT message is read past the end of its chunk exactly where the chunk is cut off within `led:`,
-- or is eight bytes of a command to a LED that end in `of`.
pub mqtt_led_command-none :
    (leds : Leds) (chunk : Bytes) → (mqtt_led_command leds chunk ≡ none) ↔ IsCutOff leds chunk
mqtt_led_command-none leds chunk =
    (mqtt_led_command-IsCutOff leds chunk, λ cut. reads_past leds cut)
