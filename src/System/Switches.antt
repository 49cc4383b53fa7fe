-- ===== src/System/Switches.antt =====
-- The LEDs that a producer node switches, turn by turn.
use io_t_project.Prelude.{
  ℕ, ◌≡◌, refl, sym, ap, ◌∙◌, inl, inr, Bool-cases, Option, none, some, List, [], ◌∷◌, ◌++◌, Bytes,
  ltb, ◌||◌, >>=-eq-some, arith,
}
use mathlib.Core.Option.{some-injective}
use io_t_project.CLib.Strtoul.{strtoul}
use io_t_project.Calls.{Call, leds_on, leds_off, leds_toggle}
use io_t_project.Coap.{Payload}
use io_t_project.Command.{Command, turn_on, turn_off, invalid}
use io_t_project.Config.{Config}
use io_t_project.Device.{Ctimer, Device}
use io_t_project.Mqtt.{
  Etimer, MqttState, init, connecting, connected, disconnected, MqttEvent, connected_event,
  disconnected_event, suback_event, puback_event, other_event, publish_event, Mqtt, Wake,
  apply_interval, connect, wait_connack, publish, serve, on_expired, round, mqtt_event_handler,
}
use io_t_project.Node.{have_connectivity}
use io_t_project.Resources.Leds.{Leds, mqtt_led_command}
use io_t_project.Resources.Leds.Commands.{
  LedCalls, no_led, led_on, led_off, mqtt_led_command-LedCalls,
}
use io_t_project.Resources.Sampling
use io_t_project.Resources.Sampling.{put_number, copy_to_tmp}
use io_t_project.Resources.Status
use io_t_project.Resources.Status.{put_command, put_on, put_off, read_command}
use io_t_project.Sampling.{Sampling, set_publish_interval_ms}
use io_t_project.System.{Step, wake, event, put_sampling, put_status, startup, elapse}
use io_t_project.System.Sent.{calls_of}
use io_t_project.Telemetry.{Random, publish_telemetry, publish_reading}

-- The calls that switch a LED.
unfoldable pub switches : List Call → List Call
switches [] = []
switches (leds_on led ∷ calls) = leds_on led ∷ switches calls
switches (leds_off led ∷ calls) = leds_off led ∷ switches calls
switches (leds_toggle led ∷ calls) = leds_toggle led ∷ switches calls
switches (_ ∷ calls) = switches calls

pub switches-append : (xs ys : List Call) → switches (xs ++ ys) ≡ switches xs ++ switches ys
unfolding switches
switches-append [] ys = refl
switches-append (leds_on led ∷ xs) ys = ap (λ l. leds_on led ∷ l) (switches-append xs ys)
switches-append (leds_off led ∷ xs) ys = ap (λ l. leds_off led ∷ l) (switches-append xs ys)
switches-append (leds_toggle led ∷ xs) ys = ap (λ l. leds_toggle led ∷ l) (switches-append xs ys)
switches-append (x ∷ xs) ys = switches-append xs ys

LedCalls-switches : {calls : List Call} → LedCalls calls → switches calls ≡ calls
unfolding switches
LedCalls-switches no_led = refl
LedCalls-switches (led_on led) = refl
LedCalls-switches (led_off led) = refl

set_unlit : (c : Config) (n : ℕ) (s : Sampling) → switches (set_publish_interval_ms c n s).1 ≡ []
unfolding set_publish_interval_ms switches
set_unlit c n s = ground arith

put_number_unlit :
    (c : Config) (tmp : Bytes) (read : Option (ℕ × Bytes)) (s : Sampling)
    → switches (put_number c tmp read s).1 ≡ []
unfolding put_number switches
put_number_unlit c tmp none s = refl
put_number_unlit c tmp (some (n, d ∷ rest)) s = refl
put_number_unlit c tmp (some (n, [])) s = elim (Bool-cases (ltb n 1 || ltb 60000 n)) [
  | inl e ↦ rw e refl
  | inr e ↦ rw e (switches-append (set_publish_interval_ms c n s).1 _ ∙ rw (set_unlit c n s) refl)
]

pub put_sampling_unlit :
    (c : Config) (payload : Payload) (s : Sampling)
    → switches (Sampling.res_put_handler c payload s).1 ≡ []
unfolding Sampling.res_put_handler switches
put_sampling_unlit c none s = refl
put_sampling_unlit c (some []) s = refl
put_sampling_unlit c (some (b ∷ bytes)) s =
    let tmp = copy_to_tmp (b ∷ bytes) in put_number_unlit c tmp (strtoul tmp) s

module _ {timers : Ctimer} where
  put_command_unlit :
      (c : Config) (clock_second : ℕ) (command : Command) (d : Device timers)
      → switches (put_command c clock_second command d).1 ≡ []
  unfolding put_command switches
  put_command_unlit c clock_second turn_on d = ground arith
  put_command_unlit c clock_second turn_off d = refl
  put_command_unlit c clock_second invalid d = refl

  pub put_status_unlit :
      (c : Config) (clock_second : ℕ) (payload : Payload) (d : Device timers)
      (r : Device timers × List Call)
      → Status.res_put_handler c clock_second payload d ≡ some r
      → switches r.1 ≡ []
  unfolding Status.res_put_handler switches
  put_status_unlit c clock_second none d r e = ap (λ t. switches t.1) (sym (some-injective _ _ e))
  put_status_unlit c clock_second (some []) d r e =
      ap (λ t. switches t.1) (sym (some-injective _ _ e))
  put_status_unlit c clock_second (some (b ∷ bytes)) d r e =
      let (command, _, done) = >>=-eq-some (read_command (b ∷ bytes)) _ e in
      ap (λ t. switches t.1) (sym (some-injective _ _ done))
      ∙ put_command_unlit c clock_second command d

module _ {timers : Ctimer} {random : Random} {etimers : Etimer} where
  serve_unlit :
      (c : Config) (clock_second : ℕ) (w : Wake) (st : MqttState) (m : Mqtt timers random etimers)
      → switches (serve c clock_second w st m).1 ≡ []
  unfolding serve connect wait_connack publish publish_telemetry publish_reading switches
  serve_unlit c clock_second w init m = refl
  serve_unlit c clock_second w disconnected m = refl
  serve_unlit c clock_second w connecting m = ground arith
  serve_unlit c clock_second w connected m = ground arith

  on_expired_unlit :
      (c : Config) (clock_second : ℕ) (w : Wake) (m : Mqtt timers random etimers)
      → switches (on_expired c clock_second w m).1 ≡ []
  unfolding on_expired switches
  on_expired_unlit c clock_second w m = elim (Bool-cases (have_connectivity w.network)) [
    | inl e ↦ rw e (serve_unlit c clock_second w m.mqtt_state m)
    | inr e ↦ rw e refl
  ]

  pub round_unlit :
      (c : Config) (clock_second : ℕ) (w : Wake) (m : Mqtt timers random etimers)
      → switches (round c clock_second w m).1 ≡ []
  unfolding round switches
  round_unlit c clock_second w m =
      let m' = apply_interval clock_second w.is_poll m in
      elim (Bool-cases (etimers.is_expired m'.pub_timer)) [
        | inl e ↦ rw e (on_expired_unlit c clock_second w m')
        | inr e ↦ rw e refl
      ]

abbrev calls_or_none : Option (List Call) → List Call
calls_or_none none = []
calls_or_none (some calls) = calls

-- The calls of a LED command, none where it is read past its end.
unfoldable pub switched_by_message : Leds → Bytes → List Call
unfolding mqtt_led_command
switched_by_message leds chunk = calls_or_none (mqtt_led_command leds chunk)

switched_by_message-some :
    (leds : Leds) (chunk : Bytes) (calls : List Call)
    → mqtt_led_command leds chunk ≡ some calls
    → switched_by_message leds chunk ≡ calls
unfolding switched_by_message
switched_by_message-some leds chunk calls e = ap calls_or_none e

-- What an event switches.
unfoldable pub switched_by_event : Leds → MqttEvent → List Call
unfolding switched_by_message
switched_by_event leds (publish_event chunk) = switched_by_message leds chunk
switched_by_event leds connected_event = []
switched_by_event leds disconnected_event = []
switched_by_event leds suback_event = []
switched_by_event leds puback_event = []
switched_by_event leds other_event = []

module _ {timers : Ctimer} {random : Random} {etimers : Etimer} where
  pub event-switches :
      (leds : Leds) (e : MqttEvent) (m : Mqtt timers random etimers)
      (r : Mqtt timers random etimers × List Call)
      → mqtt_event_handler leds e m ≡ some r
      → switches r.1 ≡ switched_by_event leds e
  unfolding mqtt_event_handler switches switched_by_event switched_by_message
  event-switches leds connected_event m r e = ap (λ t. switches t.1) (sym (some-injective _ _ e))
  event-switches leds disconnected_event m r e = ap (λ t. switches t.1) (sym (some-injective _ _ e))
  event-switches leds suback_event m r e = ap (λ t. switches t.1) (sym (some-injective _ _ e))
  event-switches leds puback_event m r e = ap (λ t. switches t.1) (sym (some-injective _ _ e))
  event-switches leds other_event m r e = ap (λ t. switches t.1) (sym (some-injective _ _ e))
  event-switches leds (publish_event chunk) m r e =
      let (calls, made, rest) = >>=-eq-some (mqtt_led_command leds chunk) _ e in
      ap (λ t. switches t.1) (sym (some-injective _ _ rest))
      ∙ LedCalls-switches (mqtt_led_command-LedCalls leds chunk calls made)
      ∙ sym (switched_by_message-some leds chunk calls made)

  -- What a turn of the processes switches: only an MQTT message may.
  unfoldable pub switched_by_step :
      {c : Config} {clock_second : ℕ} {leds : Leds} {m m' : Mqtt timers random etimers}
      → Step c clock_second leds m m'
      → List Call
  unfolding switched_by_event
  switched_by_step {leds = leds} (event e r done) = switched_by_event leds e
  switched_by_step (wake w) = []
  switched_by_step (put_sampling payload) = []
  switched_by_step (put_status payload r done) = []
  switched_by_step (startup pending) = []
  switched_by_step (elapse t) = []

  pub Step-switches :
      {c : Config} {clock_second : ℕ} {leds : Leds} {m m' : Mqtt timers random etimers}
      (step : Step c clock_second leds m m')
      → switches (calls_of step) ≡ switched_by_step step
  unfolding calls_of switched_by_step switches
  Step-switches {c} {clock_second} {leds} {m} (wake w) = round_unlit c clock_second w m
  Step-switches {leds = leds} {m} (event e r done) = event-switches leds e m r done
  Step-switches {c} {m = m} (put_sampling payload) = put_sampling_unlit c payload m.sampling
  Step-switches {c} {clock_second} {m = m} (put_status payload r done) =
      put_status_unlit c clock_second payload m.sensor.device r done
  Step-switches (startup pending) = refl
  Step-switches (elapse t) = refl
