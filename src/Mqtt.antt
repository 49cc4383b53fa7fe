-- ===== src/Mqtt.antt =====
-- `mqtt_event_handler` and `mqtt_sensor_process` of coap-mqtt-sensor.c: the connection's state, the
-- publish timer and the loop of the process, one round for each event. What is only logged is left
-- out, and so is the subscription topic, which is never subscribed to.
use io_t_project.Prelude.{
  ℕ, ◌+◌, ◌*◌, ◌%◌, ◌&&◌, not, ◌≡◌, refl, Bool, true, false, Option, none, some, List, [], ◌∷◌,
  Bytes, leb, if◌then◌else◌, ◌>>=◌,
}
use io_t_project.Calls.{Call, process_poll, mqtt_connect, mqtt_disconnect}
use io_t_project.Config.{Config}
use io_t_project.Device.{Ctimer}
use io_t_project.Device
use io_t_project.Node.{Network, have_connectivity}
use io_t_project.Resources.Leds.{Leds, mqtt_led_command}
use io_t_project.Sampling.{
  Sampling, get_publish_interval_ms, publish_interval_to_ticks, publish_interval_is_dirty,
  publish_interval_clear_dirty, mqtt_keepalive_seconds,
}
use io_t_project.Sampling
use io_t_project.Telemetry.{Random, Sensor, Moment, publish_telemetry}
pub mod Connection
pub mod Rounds
pub mod Frame
pub mod Recovery
pub mod Published
pub mod Linked

-- Contiki-NG's event timers: one that has just been set or reset has not expired.
pub record Etimer : Type 1 where
  pub Timer : Type 0
  pub set : (ticks : ℕ) → Timer → Timer
  pub reset : Timer → Timer
  pub is_expired : Timer → Bool
  pub is_expired-set : (ticks : ℕ) (t : Timer) → is_expired (set ticks t) ≡ false
  pub is_expired-reset : (t : Timer) → is_expired (reset t) ≡ false

-- The laws can be met: the interval, and whether it has passed.
abbrev pub stopwatch : Etimer
stopwatch = record {
  Timer = ℕ × Bool;
  set = λ ticks t. (ticks, false);
  reset = λ t. (t.0, false);
  is_expired = λ t. t.1;
  is_expired-set = λ ticks t. refl;
  is_expired-reset = λ t. refl;
}

pub data MqttState : Type 0 where
  init connecting connected disconnected : MqttState

pub data MqttEvent : Type 0 where
  connected_event disconnected_event suback_event puback_event other_event : MqttEvent
  -- the chunk of the message
  publish_event : Bytes → MqttEvent

abbrev pub is_connected : MqttState → Bool
is_connected connected = true
is_connected _ = false

pub record Mqtt (timers : Ctimer) (random : Random) (etimers : Etimer) : Type 0 where
  pub mqtt_state : MqttState
  pub mqtt_subscribed : Bool
  pub connect_attempts : ℕ  -- uint8_t
  pub pub_timer : etimers.Timer
  pub sampling : Sampling
  pub sensor : Sensor timers random

-- What a round of the process finds when it is woken up.
pub record Wake : Type 0 where
  -- `ev == PROCESS_EVENT_POLL`
  pub is_poll : Bool
  pub network : Network
  -- `mqtt_ready(&mqtt_conn)`
  pub is_ready : Bool
  pub id : Bytes
  pub clock_seconds : ℕ

module _ {timers : Ctimer} {random : Random} {etimers : Etimer} where
  -- The state at the start of the loop. `t` is the timer as it was declared.
  unfoldable pub start :
      Config → (clock_second : ℕ) → etimers.Timer → random.State → Mqtt timers random etimers
  unfolding Device.initial Sampling.initial
  start c clock_second t rand = record {
    mqtt_state = init;
    mqtt_subscribed = false;
    connect_attempts = 0;
    pub_timer = etimers.set (5 * clock_second) t;
    sampling = Sampling.initial c;
    sensor = record { device = Device.initial timers c; mqtt_seq = 0; rand = rand };
  }

  -- `none` is a read outside a message's chunk.
  unfoldable pub mqtt_event_handler :
      Leds
      → MqttEvent
      → Mqtt timers random etimers
      → Option (Mqtt timers random etimers × List Call)
  unfolding mqtt_led_command
  mqtt_event_handler leds connected_event m = some (
    record m { mqtt_state = connected; mqtt_subscribed = true; connect_attempts = 0 },
    process_poll ∷ [],
  )
  mqtt_event_handler leds (publish_event chunk) m =
      mqtt_led_command leds chunk >>= λ calls. some (m, calls)
  mqtt_event_handler leds disconnected_event m =
      some (record m { mqtt_state = disconnected }, process_poll ∷ [])
  mqtt_event_handler leds suback_event m =
      some (record m { mqtt_subscribed = true }, process_poll ∷ [])
  mqtt_event_handler leds puback_event m = some (m, [])
  mqtt_event_handler leds other_event m = some (m, [])

  -- A poll applies a new publish interval to the timer.
  unfoldable pub apply_interval :
      (clock_second : ℕ)
      → (is_poll : Bool) → Mqtt timers random etimers
      → Mqtt timers random etimers
  unfolding publish_interval_is_dirty publish_interval_clear_dirty get_publish_interval_ms
  apply_interval clock_second is_poll m =
      if is_poll && (publish_interval_is_dirty m.sampling && is_connected m.mqtt_state)
      then record m {
        pub_timer =
            etimers.set
              (publish_interval_to_ticks clock_second (get_publish_interval_ms m.sampling))
              m.pub_timer;
        sampling = publish_interval_clear_dirty m.sampling;
      }
      else m

  abbrev reconnect_later : ℕ → Mqtt timers random etimers → Mqtt timers random etimers
  reconnect_later clock_second m = record m {
    pub_timer = etimers.set (5 * clock_second) m.pub_timer;
  }

  unfoldable pub connect :
      (clock_second : ℕ) → Mqtt timers random etimers → Mqtt timers random etimers × List Call
  connect clock_second m = (
    reconnect_later clock_second (record m { connect_attempts = 0; mqtt_state = connecting }),
    mqtt_connect (mqtt_keepalive_seconds m.sampling) ∷ [],
  )

  unfoldable pub wait_connack :
      (clock_second : ℕ) → Mqtt timers random etimers → Mqtt timers random etimers × List Call
  wait_connack clock_second m =
      let attempts = (m.connect_attempts + 1) % 256 in
      if leb 4 attempts
      then (
        reconnect_later clock_second
            (record m { connect_attempts = attempts; mqtt_state = disconnected }),
        mqtt_disconnect ∷ [],
      )
      else (reconnect_later clock_second (record m { connect_attempts = attempts }), [])

  abbrev pub moment_of : Wake → Mqtt timers random etimers → Moment
  moment_of w m = record {
    id = w.id;
    network = w.network;
    clock_seconds = w.clock_seconds;
    interval_ms = get_publish_interval_ms m.sampling;
  }

  unfoldable pub publish :
      Config
      → (clock_second : ℕ) → Wake
      → Mqtt timers random etimers
      → Mqtt timers random etimers × List Call
  unfolding get_publish_interval_ms
  publish c clock_second w m =
      if not w.is_ready
      then (record m { pub_timer = etimers.set clock_second m.pub_timer }, [])
      else let (sensor', calls) = publish_telemetry c (moment_of w m) m.sensor in
        (
          record m {
            pub_timer =
                etimers.set
                  (publish_interval_to_ticks clock_second (get_publish_interval_ms m.sampling))
                  m.pub_timer;
            sensor = sensor';
          },
          calls,
        )

  unfoldable pub serve :
      Config
      → (clock_second : ℕ) → Wake
      → MqttState
      → Mqtt timers random etimers
      → Mqtt timers random etimers × List Call
  unfolding connect wait_connack publish
  serve c clock_second w init m = connect clock_second m
  serve c clock_second w disconnected m = connect clock_second m
  serve c clock_second w connecting m = wait_connack clock_second m
  serve c clock_second w connected m = publish c clock_second w m

  -- The timer has expired.
  unfoldable pub on_expired :
      Config
      → (clock_second : ℕ) → Wake
      → Mqtt timers random etimers
      → Mqtt timers random etimers × List Call
  unfolding serve have_connectivity
  on_expired c clock_second w m =
      if not (have_connectivity w.network)
      then (record m { pub_timer = etimers.reset m.pub_timer }, [])
      else serve c clock_second w m.mqtt_state m

  -- One round of the loop, from one PROCESS_YIELD to the next.
  unfoldable pub round :
      Config
      → (clock_second : ℕ) → Wake
      → Mqtt timers random etimers
      → Mqtt timers random etimers × List Call
  unfolding apply_interval on_expired
  round c clock_second w m =
      let m' = apply_interval clock_second w.is_poll m in
      if etimers.is_expired m'.pub_timer then on_expired c clock_second w m' else (m', [])
