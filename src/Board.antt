-- ===== src/Board.antt =====
-- A producer node as a whole, after its start: AUTOSTART_PROCESSES of coap-mqtt-sensor.c starts its
-- three processes, and from then on requests, events and timers make them run in any order. They
-- share the node id, which `mqtt_sensor_process` sets at its start.
use io_t_project.Prelude.{ℕ, ◌≡◌, Bool, List, [], ◌++◌, Bytes, Option, some}
use io_t_project.Calls.{Call}
use io_t_project.Config.{Config}
use io_t_project.Device.{Ctimer}
use io_t_project.Mqtt.{Etimer, Mqtt}
use io_t_project.Mqtt.Published.{messages}
use io_t_project.Node.{node_id}
use io_t_project.Registration.{registration_at}
use io_t_project.Registration.Process.{Phase, waiting, Wakeup, register_step, posts}
use io_t_project.Resources.Leds.{Leds}
use io_t_project.Server.{Engine}
use io_t_project.Server.Producer.{Producer, Handler, server_event}
use io_t_project.Server.ProducerRuns.{Turn, request, inner, periodic, booted}
use io_t_project.System.{Step, wake, event, put_sampling, put_status, startup, elapse}
use io_t_project.System.Sent.{calls_of}
use io_t_project.Telemetry.{Random}
pub mod Tells
pub mod Identity
pub mod Reports
pub mod Switches

-- The state of the MQTT process and the resources, where the registration stands, and the static
-- `node_id`.
pub record Board (timers : Ctimer) (random : Random) (etimers : Etimer) : Type 0 where
  pub producer : Producer timers random etimers
  pub registering : Phase
  pub id : Bytes

module _ {timers : Ctimer} {random : Random} {etimers : Etimer} where
  -- A wake-up of the MQTT process sees the node's id.
  abbrev pub SeesId :
      {c : Config} {clock_second : ℕ} {leds : Leds} {m m' : Mqtt timers random etimers}
      → Step c clock_second leds m m'
      → Bytes
      → Type 0
  SeesId (wake w) id = w.id ≡ id
  SeesId (event e r done) id = Unit
  SeesId (put_sampling payload) id = Unit
  SeesId (put_status payload r done) id = Unit
  SeesId (startup pending) id = Unit
  SeesId (elapse t) id = Unit

  abbrev pub TurnSeesId :
      {c : Config} {clock_second : ℕ} {leds : Leds} {engine : Engine Handler} {has_leds : Bool}
      {p q : Producer timers random etimers}
      → Turn c clock_second leds engine has_leds p q
      → Bytes
      → Type 0
  TurnSeesId (request req r done) id = Unit
  TurnSeesId (inner m' step) id = SeesId step id
  TurnSeesId (periodic r done) id = Unit

  unfoldable pub turn_calls :
      {c : Config} {clock_second : ℕ} {leds : Leds} {engine : Engine Handler} {has_leds : Bool}
      {p q : Producer timers random etimers}
      → Turn c clock_second leds engine has_leds p q
      → List Call
  unfolding calls_of
  turn_calls (request req r done) = r.1
  turn_calls (inner m' step) = calls_of step
  turn_calls (periodic r done) = r.1

module _ {timers : Ctimer} {random : Random} {etimers : Etimer} (c : Config) (clock_second : ℕ)
    (leds : Leds) (engine : Engine Handler) (has_leds : Bool) where
  -- All three processes have started, with `hi` and `lo` the last bytes of the link-layer address.
  unfoldable pub boot : (hi lo : ℕ) → etimers.Timer → random.State → Board timers random etimers
  boot hi lo t rand = record {
    producer = booted c clock_second leds t rand;
    registering = waiting;
    id = node_id c hi lo;
  }

  -- A turn of the node.
  pub data Move (b : Board timers random etimers) : Board timers random etimers → Type 0 where
    device :
        {q : Producer timers random etimers}
        (turn : Turn c clock_second leds engine has_leds b.producer q)
        → TurnSeesId turn b.id
        → Move b (record b { producer = q })
    register :
        (w : Wakeup)
        → Move b
            (record b { registering = (register_step (registration_at c b.id) b.registering w).0 })
    button : (has_button is_release : Bool) → Move b b

  pub data Life (b : Board timers random etimers) : Board timers random etimers → Type 0 where
    unmoved : Life b b
    then_move : {d e : Board timers random etimers} → Life b d → Move d e → Life b e

  -- The calls of the register process in a node's life, and those of the other two, in their order.
  unfoldable pub register_calls : {b b' : Board timers random etimers} → Life b b' → List Call
  unfolding register_step registration_at
  register_calls unmoved = []
  register_calls (then_move before (device turn sees)) = register_calls before
  register_calls (then_move {d = d} before (register w)) =
      register_calls before ++ (register_step (registration_at c d.id) d.registering w).1
  register_calls (then_move before (button has_button is_release)) = register_calls before

  unfoldable pub device_calls : {b b' : Board timers random etimers} → Life b b' → List Call
  unfolding turn_calls server_event
  device_calls unmoved = []
  device_calls (then_move before (device turn sees)) = device_calls before ++ turn_calls turn
  device_calls (then_move before (register w)) = device_calls before
  device_calls (then_move before (button has_button is_release)) =
      device_calls before ++ server_event has_button is_release
