-- ===== src/Board/Identity.antt =====
-- The identity of a node, in its registration and in its telemetry.
use io_t_project.Prelude.{
  subst, ℕ, ◌≤◌, ◌≡◌, refl, Bool, true, false, none, some, List, ◌++◌, Bytes, All, All-append,
  length, arith,
}
use io_t_project.Board.{
  Board, Move, device, register, button, Life, unmoved, then_move, boot, TurnSeesId, turn_calls,
  register_calls, device_calls,
}
use io_t_project.CLib.Decimal.{ulong_max}
use io_t_project.Board.Tells.{Tells, TurnMeetsTidy, Turn-Tells}
use io_t_project.Calls.{Call}
use io_t_project.Config.{Config, IsConfig}
use io_t_project.Device.{Ctimer}
use io_t_project.Mqtt.{Etimer, start}
use io_t_project.Mqtt.Published.{messages}
use io_t_project.Node.{Network, get_node_ip, node_id, length-node_id}
use io_t_project.Node.Plain.{IsTidyNetwork, node_id-HasNoQuote}
use io_t_project.Registration.Once.{Wakes, Moment, moment_after, IsRegistered, next-IsRegistered}
use io_t_project.Reader.{HasNoQuote}
use io_t_project.Registration.{registration_at, registration_at_whole}
use io_t_project.Registration.Decode.{decode_registration, decode-registration}
use io_t_project.Registration.Process.{posts}
use io_t_project.Resources.Leds.{Leds}
use io_t_project.Server.{Engine}
use io_t_project.Server.Producer.{Handler, server_event}
use io_t_project.Server.ProducerRuns.{Turn-IsSound}
use io_t_project.System.{IsSound}
use io_t_project.System.Quiet.{messages-append}
use io_t_project.System.Safety.{start-IsSound}
use io_t_project.Telemetry.{Random, to_ms}

-- A registration that tells this id, the address of this network, and this time.
abbrev pub Registers : Config → (id : Bytes) → Network → (clock_seconds : ℕ) → Bytes → Type 0
Registers c id net clock_seconds payload =
    decode_registration payload
    ≡ some (record {
      id = id;
      ip = get_node_ip net;
      node_type = c.node_type;
      sent_ms = to_ms clock_seconds;
    })

registration_at-Registers :
    {c : Config} (id own : Bytes) (net : Network) (clock_seconds : ℕ)
    → IsConfig c
    → HasNoQuote c.node_type
    → length own ≤ 16
    → HasNoQuote own
    → id ≡ own
    → IsTidyNetwork net
    → Registers c own net clock_seconds (registration_at c id net clock_seconds)
registration_at-Registers {c} id own net clock_seconds hc plain short plain_id e tidy =
    rw (e, registration_at_whole own net clock_seconds hc short tidy.in_range)
      (decode-registration c own (get_node_ip net) (to_ms clock_seconds) plain_id tidy.plain plain
        (omega arith))

Tells-append :
    (c : Config) (hi lo : ℕ) (calls more : List Call)
    → All (Tells (node_id c hi lo) c.node_type) (messages calls)
    → All (Tells (node_id c hi lo) c.node_type) (messages more)
    → All (Tells (node_id c hi lo) c.node_type) (messages (calls ++ more))
Tells-append c hi lo calls more h k =
    rw (messages-append calls more)
      (All-append (Tells (node_id c hi lo) c.node_type) (messages calls) (messages more) h k)

server_event-Tells :
    (c : Config) (hi lo : ℕ) (has_button is_release : Bool)
    → All (Tells (node_id c hi lo) c.node_type) (messages (server_event has_button is_release))
unfolding server_event messages
server_event-Tells c hi lo true true = tt
server_event-Tells c hi lo true false = tt
server_event-Tells c hi lo false is_release = tt

module _ {timers : Ctimer} {random : Random} {etimers : Etimer} where
  -- What holds of a node between its turns.
  pub record IsOwn (c : Config) (hi lo : ℕ) (b : Board timers random etimers) : Type 0 where
    pub own_id : b.id ≡ node_id c hi lo
    pub sound : IsSound c b.producer.mqtt
    pub small : b.producer.mqtt.sensor.mqtt_seq ≤ ulong_max

module _ {timers : Ctimer} {random : Random} {etimers : Etimer} {c : Config} {clock_second : ℕ}
    {leds : Leds} {engine : Engine Handler} {has_leds : Bool} where
  abbrev pub IsTidyMove :
      {b b' : Board timers random etimers} → Move c clock_second leds engine has_leds b b' → Type 0
  IsTidyMove (device turn sees) = TurnMeetsTidy turn
  IsTidyMove (register w) = Wakes IsTidyNetwork w
  IsTidyMove (button has_button is_release) = Unit

  abbrev pub IsTidyLife :
      {b b' : Board timers random etimers} → Life c clock_second leds engine has_leds b b' → Type 0
  IsTidyLife unmoved = Unit
  IsTidyLife (then_move before move) = IsTidyLife before × IsTidyMove move

  -- The first wait of the register process that ends with connectivity.
  unfoldable pub moment_of_life :
      {b b' : Board timers random etimers} → Life c clock_second leds engine has_leds b b' → Moment
  unfolding moment_after
  moment_of_life unmoved = none
  moment_of_life (then_move before (device turn sees)) = moment_of_life before
  moment_of_life (then_move before (register w)) = moment_after (moment_of_life before) w
  moment_of_life (then_move before (button has_button is_release)) = moment_of_life before

  pub Life-IsOwn :
      (hi lo : ℕ) (t : etimers.Timer) (rand : random.State) {b : Board timers random etimers}
      (life : Life c clock_second leds engine has_leds
        (boot c clock_second leds engine has_leds hi lo t rand)
        b)
      → IsConfig c
      → HasNoQuote c.node_type
      → IsTidyLife life
      → IsOwn c hi lo b
        × All
            (Tells (node_id c hi lo) c.node_type)
            (messages (device_calls c clock_second leds engine has_leds life))
        × IsRegistered
            (Registers c (node_id c hi lo))
            (moment_of_life life)
            b.registering
            (posts (register_calls c clock_second leds engine has_leds life))
  unfolding boot device_calls register_calls messages posts start moment_of_life
  Life-IsOwn hi lo t rand unmoved hc plain tidy = (
    record { own_id = refl; sound = start-IsSound clock_second t rand hc; small = omega arith },
    tt,
    (refl, refl),
  )
  Life-IsOwn hi lo t rand (then_move before (device turn sees)) hc plain tidy =
      let (own, tells, registered) = Life-IsOwn hi lo t rand before hc plain tidy.0 in
      let id = node_id c hi lo in
      let (new, small) =
        Turn-Tells turn id hc plain own.sound own.small (length-node_id hi lo hc)
          (node_id-HasNoQuote c hi lo plain) (subst (λ i. TurnSeesId turn i) own.own_id sees)
          tidy.1 in
      (
        record {
          own_id = own.own_id;
          sound = Turn-IsSound c clock_second leds engine has_leds hc turn own.sound;
          small = small;
        },
        Tells-append c hi lo (device_calls c clock_second leds engine has_leds before)
            (turn_calls turn) tells new,
        registered,
      )
  Life-IsOwn hi lo t rand (then_move {d = d} before (register w)) hc plain tidy =
      let (own, tells, registered) = Life-IsOwn hi lo t rand before hc plain tidy.0 in
      (
        record { own_id = own.own_id; sound = own.sound; small = own.small },
        tells,
        next-IsRegistered (Registers c (node_id c hi lo)) IsTidyNetwork (registration_at c d.id)
            (λ net clock_seconds met.
              registration_at-Registers d.id (node_id c hi lo) net clock_seconds hc plain
                (length-node_id hi lo hc) (node_id-HasNoQuote c hi lo plain) own.own_id met)
            (moment_of_life before) d.registering w
            (register_calls c clock_second leds engine has_leds before) tidy.1 registered,
      )
  Life-IsOwn hi lo t rand (then_move before (button has_button is_release)) hc plain tidy =
      let (own, tells, registered) = Life-IsOwn hi lo t rand before hc plain tidy.0 in
      (
        own,
        Tells-append c hi lo (device_calls c clock_second leds engine has_leds before)
            (server_event has_button is_release) tells
            (server_event-Tells c hi lo has_button is_release),
        registered,
      )

  -- Over the whole life of a configured node, from the start of its processes and in whatever order
  -- requests, events, timers and the register process take turns: every message that it publishes
  -- reads back with the node's id and type; and until the first wait of the register process that ends
  -- with connectivity, the process waits and has posted nothing, and from that wait on it has posted
  -- exactly one registration, which reads back with the same id and type and with the address and the
  -- time of that wait. The networks it meets have addresses in range, and they and the type hold no
  -- quote.
  pub Life-Identity :
      (hi lo : ℕ) (t : etimers.Timer) (rand : random.State) {b : Board timers random etimers}
      (life : Life c clock_second leds engine has_leds
        (boot c clock_second leds engine has_leds hi lo t rand)
        b)
      → IsConfig c
      → HasNoQuote c.node_type
      → IsTidyLife life
      → All
          (Tells (node_id c hi lo) c.node_type)
          (messages (device_calls c clock_second leds engine has_leds life))
        × IsRegistered
            (Registers c (node_id c hi lo))
            (moment_of_life life)
            b.registering
            (posts (register_calls c clock_second leds engine has_leds life))
  Life-Identity hi lo t rand life hc plain tidy =
      let (_, tells, registered) = Life-IsOwn hi lo t rand life hc plain tidy in (tells, registered)
