-- ===== src/Mqtt/Published.antt =====
-- The messages that the MQTT process publishes.
use io_t_project.Prelude.{
  ℕ, ◌≡◌, refl, ap, sym, ◌∙◌, ◌⊎◌, inl, inr, Bool-cases, Bool, true, false, Option, some, List, [],
  ◌∷◌, Bytes, ◌>>=◌, leb, ◌+◌, ◌%◌, if◌then◌else◌, >>=-eq-some, ◌&&◌, ◌==◌, length, drop, codes,
  not, arith,
}
use mathlib.Core.Option.{some-injective}
use io_t_project.Calls.{Call, mqtt_publish, leds_on, leds_off}
use io_t_project.CLib.Strncmp.{strncmp_eq}
use io_t_project.Config.{Config}
use io_t_project.Device.{Ctimer}
use io_t_project.Node.{have_connectivity}
use io_t_project.Resources.Leds.{Leds, mqtt_led_command, mqtt_led_mode, led_of_byte, first_byte}
use io_t_project.Sampling.{
  get_publish_interval_ms, publish_interval_is_dirty, publish_interval_to_ticks,
}
use io_t_project.Telemetry.{Random, publish_telemetry}
use io_t_project.Mqtt.{
  Etimer, MqttState, init, connecting, connected, disconnected, MqttEvent, connected_event,
  disconnected_event, suback_event, puback_event, other_event, publish_event, Mqtt, Wake,
  is_connected, moment_of, wait_connack, serve, on_expired, round, mqtt_event_handler,
}

-- The payloads of the calls that publish.
unfoldable pub messages : List Call → List Bytes
messages [] = []
messages (mqtt_publish payload ∷ calls) = payload ∷ messages calls
messages (_ ∷ calls) = messages calls

module _ {timers : Ctimer} {random : Random} {etimers : Etimer} where
  -- Whether a wake-up publishes: the timer has expired and is not set anew for a changed interval, and
  -- the node has connectivity, is connected, and its MQTT stack ready.
  unfoldable pub due : Wake → Mqtt timers random etimers → Bool
  unfolding have_connectivity publish_interval_is_dirty
  due w m =
      etimers.is_expired m.pub_timer
      && (not (w.is_poll && publish_interval_is_dirty m.sampling)
          && (have_connectivity w.network && (is_connected m.mqtt_state && w.is_ready)))

  -- Either nothing is published and the sensor kept, or the sensor publishes once, in the moment of the
  -- wake-up.
  abbrev pub IsTraced :
      (publishes : Bool)
      → Config
      → Wake
      → Mqtt timers random etimers
      → Mqtt timers random etimers × List Call
      → Type 0
  IsTraced publishes c w m r =
      (publishes ≡ false) × (messages r.1 ≡ []) × (r.0.sensor ≡ m.sensor)
      ⊎ (publishes ≡ true)
        × (r.1 ≡ (publish_telemetry c (moment_of w m) m.sensor).1)
        × (r.0.sensor ≡ (publish_telemetry c (moment_of w m) m.sensor).0)

  wait_connack_traced :
      (clock_second : ℕ) (m : Mqtt timers random etimers)
      → (messages (wait_connack clock_second m).1 ≡ [])
        × ((wait_connack clock_second m).0.sensor ≡ m.sensor)
  unfolding wait_connack messages
  wait_connack_traced clock_second m = elim (Bool-cases (leb 4 ((m.connect_attempts + 1) % 256))) [
    | inl e ↦ rw e (refl, refl)
    | inr e ↦ rw e (refl, refl)
  ]

  serve-IsTraced :
      (c : Config) (clock_second : ℕ) (w : Wake) (st : MqttState) (m : Mqtt timers random etimers)
      → IsTraced (is_connected st && w.is_ready) c w m (serve c clock_second w st m)
  unfolding serve messages
  serve-IsTraced c clock_second w init m = inl (refl, refl, refl)
  serve-IsTraced c clock_second w disconnected m = inl (refl, refl, refl)
  serve-IsTraced c clock_second w connecting m =
      let (quiet, kept) = wait_connack_traced clock_second m in inl (refl, quiet, kept)
  serve-IsTraced c clock_second w connected m = elim (Bool-cases w.is_ready) [
    | inl e ↦ rw e (inr (refl, refl, refl))
    | inr e ↦ rw e (inl (refl, refl, refl))
  ]

  on_expired-IsTraced :
      (c : Config) (clock_second : ℕ) (w : Wake) (m : Mqtt timers random etimers)
      → IsTraced
          (have_connectivity w.network && (is_connected m.mqtt_state && w.is_ready))
          c
          w
          m
          (on_expired c clock_second w m)
  unfolding on_expired messages
  on_expired-IsTraced c clock_second w m = elim (Bool-cases (have_connectivity w.network)) [
    | inl e ↦ rw e (serve-IsTraced c clock_second w m.mqtt_state m)
    | inr e ↦ rw e (inl (refl, refl, refl))
  ]

  due_applied :
      (w : Wake) (m : Mqtt timers random etimers)
      → (w.is_poll && (publish_interval_is_dirty m.sampling && is_connected m.mqtt_state)) ≡ true
      → due w m ≡ false
  unfolding due
  due_applied w m h = ground arith

  due_expired :
      (w : Wake) (m : Mqtt timers random etimers)
      → (w.is_poll && (publish_interval_is_dirty m.sampling && is_connected m.mqtt_state)) ≡ false
      → etimers.is_expired m.pub_timer ≡ true
      → due w m ≡ (have_connectivity w.network && (is_connected m.mqtt_state && w.is_ready))
  unfolding due
  due_expired w m h e = ground arith

  due_unexpired :
      (w : Wake) (m : Mqtt timers random etimers)
      → etimers.is_expired m.pub_timer ≡ false
      → due w m ≡ false
  unfolding due
  due_unexpired w m e = rw e refl

  -- A wake-up publishes exactly if it is due.
  pub round-IsTraced :
      (c : Config) (clock_second : ℕ) (w : Wake) (m : Mqtt timers random etimers)
      → IsTraced (due w m) c w m (round c clock_second w m)
  unfolding round messages
  round-IsTraced c clock_second w m =
      let ticks = publish_interval_to_ticks clock_second (get_publish_interval_ms m.sampling) in
      elim (Bool-cases
        (w.is_poll && (publish_interval_is_dirty m.sampling && is_connected m.mqtt_state))) [
          | inl applied ↦
              rw (due_applied w m applied, applied, etimers.is_expired-set ticks m.pub_timer)
                (inl (refl, refl, refl))
          | inr skipped ↦ elim (Bool-cases (etimers.is_expired m.pub_timer)) [
            | inl e ↦
                rw (skipped, e, due_expired w m skipped e) (on_expired-IsTraced c clock_second w m)
            | inr e ↦ rw (due_unexpired w m e, skipped, e) (inl (refl, refl, refl))
          ]
        ]

messages-some :
    (calls more : List Call)
    → ◌≡◌ {A = Option (List Call)} (some calls) (some more)
    → messages calls ≡ []
    → messages more ≡ []
messages-some calls more e h = ap messages (sym (some-injective _ _ e)) ∙ h

off_quiet :
    (led : ℕ) (off : Bool) (calls : List Call)
    → some (if off then leds_off led ∷ [] else []) ≡ some calls
    → messages calls ≡ []
unfolding messages
off_quiet led true calls e = messages-some _ _ e refl
off_quiet led false calls e = messages-some _ _ e refl

on_quiet :
    (led : ℕ) (on : Bool) (mode_str : Bytes) (calls : List Call)
    → (if on
        then some (leds_on led ∷ [])
        else strncmp_eq mode_str (codes "off") 3 >>= λ off.
            some (if off then leds_off led ∷ [] else []))
      ≡ some calls
    → messages calls ≡ []
unfolding messages
on_quiet led true mode_str calls e = messages-some _ _ e refl
on_quiet led false mode_str calls e =
    let (off, _, rest) = >>=-eq-some (strncmp_eq mode_str (codes "off") 3) _ e in
    off_quiet led off calls rest

led_mode_quiet :
    (led : ℕ) (mode_str : Bytes) (calls : List Call)
    → mqtt_led_mode led mode_str ≡ some calls
    → messages calls ≡ []
unfolding mqtt_led_mode messages
led_mode_quiet led mode_str calls e = elim (Bool-cases (led == 0)) [
  | inl none_lit ↦ messages-some _ _ (rw none_lit at e) refl
  | inr lit ↦
      let (on, _, rest) = >>=-eq-some (strncmp_eq mode_str (codes "on") 2) _ (rw lit at e) in
      on_quiet led on mode_str calls rest
]

led_command_quiet :
    (leds : Leds) (chunk : Bytes) (calls : List Call)
    → mqtt_led_command leds chunk ≡ some calls
    → messages calls ≡ []
unfolding mqtt_led_command messages
led_command_quiet leds chunk calls e =
    let (prefix, _, rest) = >>=-eq-some (strncmp_eq chunk (codes "led:") 4) _ e in
    elim (Bool-cases (prefix && leb 8 (length chunk))) [
      | inl long ↦
          led_mode_quiet (led_of_byte leds (first_byte (drop 4 chunk))) (drop 6 chunk) calls
            (rw long at rest)
      | inr short ↦ messages-some _ _ (rw short at rest) refl
    ]

module _ {timers : Ctimer} {random : Random} {etimers : Etimer} where
  -- No event publishes.
  pub event_quiet :
      (leds : Leds) (e : MqttEvent) (m : Mqtt timers random etimers)
      (r : Mqtt timers random etimers × List Call)
      → mqtt_event_handler leds e m ≡ some r
      → messages r.1 ≡ []
  unfolding mqtt_event_handler messages
  event_quiet leds connected_event m r e = ap (λ t. messages t.1) (sym (some-injective _ _ e))
  event_quiet leds disconnected_event m r e = ap (λ t. messages t.1) (sym (some-injective _ _ e))
  event_quiet leds suback_event m r e = ap (λ t. messages t.1) (sym (some-injective _ _ e))
  event_quiet leds puback_event m r e = ap (λ t. messages t.1) (sym (some-injective _ _ e))
  event_quiet leds other_event m r e = ap (λ t. messages t.1) (sym (some-injective _ _ e))
  event_quiet leds (publish_event chunk) m r e =
      let (calls, made, rest) = >>=-eq-some (mqtt_led_command leds chunk) _ e in
      ap (λ t. messages t.1) (sym (some-injective _ _ rest))
      ∙ led_command_quiet leds chunk calls made
