-- ===== src/Board/Tells.antt =====
-- What the messages of a turn tell of the node.
use io_t_project.Prelude.{
  ℕ, ◌≤◌, ◌≡◌, refl, ap, ◌∙◌, inl, inr, Bool, some, List, [], ◌∷◌, Bytes, All, length, arith,
}
use io_t_project.Board.{SeesId, TurnSeesId, turn_calls}
use io_t_project.CLib.Decimal.{ulong_max}
use io_t_project.Calls.{Call}
use io_t_project.Config.{Config, IsConfig}
use io_t_project.Device.{Ctimer}
use io_t_project.Mqtt.{Etimer, Mqtt, Wake, round, moment_of}
use io_t_project.Mqtt.Published.{messages, due, IsTraced, round-IsTraced, event_quiet}
use io_t_project.Node.Plain.{IsTidyNetwork}
use io_t_project.Reader.{HasNoQuote}
use io_t_project.Resources.Leds.{Leds}
use io_t_project.Server.{Engine}
use io_t_project.Server.Producer.{Producer, Handler}
use io_t_project.Server.ProducerRuns.{Turn, request, inner, periodic}
use io_t_project.Server.Quiet.{serve-IsQuiet, periodic_quiet}
use io_t_project.System.{Step, wake, event, put_sampling, put_status, startup, elapse, IsSound}
use io_t_project.System.Quiet.{put_sampling_quiet, put_status_quiet}
use io_t_project.System.Safety.{event_frame}
use io_t_project.System.Sent.{IsTidy, calls_of, moment_of-IsMoment, publish_telemetry-mqtt_seq}
use io_t_project.Telemetry.{Random}
use io_t_project.Telemetry.Decode.{Fields, decode, decode-publish_telemetry}

-- A message that tells this id and type.
abbrev pub Tells : (id node_type payload : Bytes) → Type 0
Tells id node_type payload =
    (f : Fields) × (decode payload ≡ some f) × (f.id ≡ id) × (f.node_type ≡ node_type)

quiet-Tells :
    (id node_type : Bytes) (payloads : List Bytes)
    → payloads ≡ []
    → All (Tells id node_type) payloads
quiet-Tells id node_type payloads quiet = rw quiet tt

module _ {timers : Ctimer} {random : Random} {etimers : Etimer} where
  -- The networks that a turn meets are tidy.
  abbrev pub MeetsTidy :
      {c : Config} {clock_second : ℕ} {leds : Leds} {m m' : Mqtt timers random etimers}
      → Step c clock_second leds m m'
      → Type 0
  MeetsTidy (wake w) = IsTidyNetwork w.network
  MeetsTidy (event e r done) = Unit
  MeetsTidy (put_sampling payload) = Unit
  MeetsTidy (put_status payload r done) = Unit
  MeetsTidy (startup pending) = Unit
  MeetsTidy (elapse t) = Unit

  wake-Tells :
      {c : Config} (w : Wake) (id : Bytes) (m : Mqtt timers random etimers) (publishes : Bool)
      (r : Mqtt timers random etimers × List Call)
      → IsConfig c
      → HasNoQuote c.node_type
      → IsSound c m
      → m.sensor.mqtt_seq ≤ ulong_max
      → length id ≤ 16
      → HasNoQuote id
      → w.id ≡ id
      → IsTidyNetwork w.network
      → IsTraced publishes c w m r
      → All (Tells id c.node_type) (messages r.1)
  unfolding messages
  wake-Tells {c} w id m publishes r hc plain sound small short plain_id sees tidy
        (inl (_, quiet, _)) =
      quiet-Tells id c.node_type (messages r.1) quiet
  wake-Tells {c} w id m publishes r hc plain sound small short plain_id sees tidy
        (inr (_, calls, _)) =
      let own : IsTidy w = record {
        id_short = rw sees short;
        id_plain = rw sees plain_id;
        network_ok = tidy.in_range;
        address_plain = tidy.plain;
      } in
      let (payload, one, read) =
        decode-publish_telemetry (moment_of w m) m.sensor hc (moment_of-IsMoment w m sound own)
          own.id_plain plain own.address_plain small in
      let only : messages r.1 ≡ payload ∷ [] = ap messages (calls ∙ one) in
      rw only ((_, read, sees, refl), tt)

  Step-Tells :
      {c : Config} {clock_second : ℕ} {leds : Leds} {m m' : Mqtt timers random etimers}
      (step : Step c clock_second leds m m') (id : Bytes)
      → IsConfig c
      → HasNoQuote c.node_type
      → IsSound c m
      → m.sensor.mqtt_seq ≤ ulong_max
      → length id ≤ 16
      → HasNoQuote id
      → SeesId step id
      → MeetsTidy step
      → All (Tells id c.node_type) (messages (calls_of step))
  unfolding calls_of messages
  Step-Tells {c} {clock_second} {leds} {m} (wake w) id hc plain sound small short plain_id sees
        tidy =
      wake-Tells w id m (due w m) (round c clock_second w m) hc plain sound small short plain_id
        sees tidy (round-IsTraced c clock_second w m)
  Step-Tells {c} {clock_second} {leds} {m} (event e r done) id hc plain sound small short plain_id
        sees tidy =
      quiet-Tells id c.node_type (messages r.1) (event_quiet leds e m r done)
  Step-Tells {c} {m = m} (put_sampling payload) id hc plain sound small short plain_id sees tidy =
      quiet-Tells id c.node_type _ (put_sampling_quiet c payload m.sampling)
  Step-Tells {c} {clock_second} {m = m} (put_status payload r done) id hc plain sound small short
        plain_id sees tidy =
      quiet-Tells id c.node_type _ (put_status_quiet c clock_second payload m.sensor.device r done)
  Step-Tells (startup pending) id hc plain sound small short plain_id sees tidy = tt
  Step-Tells (elapse t) id hc plain sound small short plain_id sees tidy = tt

  Step-mqtt_seq :
      {c : Config} {clock_second : ℕ} {leds : Leds} {m m' : Mqtt timers random etimers}
      (step : Step c clock_second leds m m')
      → IsSound c m
      → m.sensor.mqtt_seq ≤ ulong_max
      → m'.sensor.mqtt_seq ≤ ulong_max
  Step-mqtt_seq {c} {clock_second} {leds} {m} (wake w) sound small =
      elim (round-IsTraced c clock_second w m) [
        | inl (_, _, kept) ↦ rw kept small
        | inr (_, _, moved) ↦ omega (
          arith,
          ap (λ s. s.mqtt_seq) moved ∙ publish_telemetry-mqtt_seq c (moment_of w m) m.sensor,
        )
      ]
  Step-mqtt_seq {c} {clock_second} {leds} {m} (event e r done) sound small =
      let (_, sensor, _) = event_frame leds e m r done sound.counted in rw sensor small
  Step-mqtt_seq (put_sampling payload) sound small = small
  Step-mqtt_seq (put_status payload r done) sound small = small
  Step-mqtt_seq (startup pending) sound small = small
  Step-mqtt_seq (elapse t) sound small = small

module _ {timers : Ctimer} {random : Random} {etimers : Etimer} {c : Config} {clock_second : ℕ}
    {leds : Leds} {engine : Engine Handler} {has_leds : Bool} where
  -- The networks that a node meets in its life are tidy.
  abbrev pub TurnMeetsTidy :
      {p q : Producer timers random etimers} → Turn c clock_second leds engine has_leds p q → Type 0
  TurnMeetsTidy (request req r done) = Unit
  TurnMeetsTidy (inner m' step) = MeetsTidy step
  TurnMeetsTidy (periodic r done) = Unit

  pub Turn-Tells :
      {p q : Producer timers random etimers} (turn : Turn c clock_second leds engine has_leds p q)
      (id : Bytes)
      → IsConfig c
      → HasNoQuote c.node_type
      → IsSound c p.mqtt
      → p.mqtt.sensor.mqtt_seq ≤ ulong_max
      → length id ≤ 16
      → HasNoQuote id
      → TurnSeesId turn id
      → TurnMeetsTidy turn
      → All (Tells id c.node_type) (messages (turn_calls turn))
        × (q.mqtt.sensor.mqtt_seq ≤ ulong_max)
  unfolding turn_calls messages
  Turn-Tells {p} (request req r done) id hc plain sound small short plain_id sees tidy =
      let (quiet, same) = serve-IsQuiet c clock_second leds engine has_leds req p r done in
      (quiet-Tells id c.node_type (messages r.1) quiet, rw same small)
  Turn-Tells (inner m' step) id hc plain sound small short plain_id sees tidy = (
    Step-Tells step id hc plain sound small short plain_id sees tidy,
    Step-mqtt_seq step sound small,
  )
  Turn-Tells {p} (periodic r done) id hc plain sound small short plain_id sees tidy =
      (quiet-Tells id c.node_type (messages r.1) (periodic_quiet p.event_counter r done), small)
