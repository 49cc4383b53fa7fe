-- ===== src/Board/Reports.antt =====
-- What a producer node reports over its whole life, with requests through its CoAP server.
use io_t_project.Prelude.{
  subst, ℕ, ◌%◌, ◌^◌, ◌≤◌, ◌≡◌, refl, sym, ap, ◌∙◌, Bool, true, false, some, List, [], ◌++◌, map,
  map-append, append-nil, Bytes, length, length-append, if◌then◌else◌,
}
use io_t_project.Board.{
  Board, device, register, button, Life, unmoved, then_move, boot, SeesId, TurnSeesId, turn_calls,
  device_calls,
}
use io_t_project.Board.Identity.{IsTidyLife, Life-IsOwn}
use io_t_project.Board.Tells.{MeetsTidy, TurnMeetsTidy}
use io_t_project.Config.{Config, IsConfig}
use io_t_project.Device.{Ctimer}
use io_t_project.Mqtt.{Etimer, Mqtt, start}
use io_t_project.Mqtt.Published.{messages}
use io_t_project.Node.{node_id, length-node_id}
use io_t_project.Node.Plain.{node_id-HasNoQuote}
use io_t_project.Power.{Power, powered_off, powered_on, next_power, view}
use io_t_project.Reader.{HasNoQuote}
use io_t_project.Resources.Leds.{Leds}
use io_t_project.Server.{Engine}
use io_t_project.Server.Producer.{Handler, Producer, server_event}
use io_t_project.Server.ProducerRuns.{Turn, request, inner, periodic}
use io_t_project.Server.Quiet.{serve-IsQuiet, periodic_quiet}
use io_t_project.Server.Reports.{cause_of_turn, report_of_turn, serve-Moves}
use io_t_project.System.{Step, wake, event, put_sampling, put_status, startup, elapse, IsSound}
use io_t_project.System.Quiet.{messages-append}
use io_t_project.System.Refinement.{initial-view, Step-refines}
use io_t_project.System.Reports.{Says, quiet-Says, Step-Says}
use io_t_project.System.Sent.{IsTidyTurn}
use io_t_project.Telemetry.{Random}
use io_t_project.Telemetry.Decode.{Fields, decode}

messages-server_event :
    (has_button is_release : Bool) → messages (server_event has_button is_release) ≡ []
unfolding server_event messages
messages-server_event true true = refl
messages-server_event true false = refl
messages-server_event false is_release = refl

module _ {timers : Ctimer} {random : Random} {etimers : Etimer} where
  -- A wake-up that sees a plain id, and meets a tidy network, is tidy.
  SeesId-IsTidyTurn :
      {c : Config} {clock_second : ℕ} {leds : Leds} {m m' : Mqtt timers random etimers}
      (step : Step c clock_second leds m m') (id : Bytes)
      → length id ≤ 16
      → HasNoQuote id
      → SeesId step id
      → MeetsTidy step
      → IsTidyTurn step
  SeesId-IsTidyTurn (wake w) id short plain sees tidy = record {
    id_short = rw sees short;
    id_plain = rw sees plain;
    network_ok = tidy.in_range;
    address_plain = tidy.plain;
  }
  SeesId-IsTidyTurn (event e r done) id short plain sees tidy = tt
  SeesId-IsTidyTurn (put_sampling payload) id short plain sees tidy = tt
  SeesId-IsTidyTurn (put_status payload r done) id short plain sees tidy = tt
  SeesId-IsTidyTurn (startup pending) id short plain sees tidy = tt
  SeesId-IsTidyTurn (elapse t) id short plain sees tidy = tt

module _ {timers : Ctimer} {random : Random} {etimers : Etimer} {c : Config} {clock_second : ℕ}
    {leds : Leds} {engine : Engine Handler} {has_leds : Bool} where
  -- The device moves as the automaton does, and the messages say what the turn has to report.
  Turn-Says :
      {p q : Producer timers random etimers} (turn : Turn c clock_second leds engine has_leds p q)
      (id : Bytes) (n : ℕ) (power : Power)
      → IsConfig c
      → HasNoQuote c.node_type
      → IsSound c p.mqtt
      → length id ≤ 16
      → HasNoQuote id
      → TurnSeesId turn id
      → TurnMeetsTidy turn
      → p.mqtt.sensor.mqtt_seq ≡ n % 2 ^ 32
      → view p.mqtt.sensor.device ≡ power
      → (view q.mqtt.sensor.device
          ≡ next_power c.startup_delay_s (cause_of_turn turn) (view p.mqtt.sensor.device))
        × Says n (messages (turn_calls turn)) (report_of_turn turn n power) q.mqtt.sensor.mqtt_seq
  unfolding turn_calls cause_of_turn report_of_turn next_power
  Turn-Says {p} (request req r done) id n power hc plain sound short plain_id sees tidy counted
        shown =
      let (quiet, same) = serve-IsQuiet c clock_second leds engine has_leds req p r done in
      (
        serve-Moves c clock_second leds engine has_leds req p r sound.consistent done,
        quiet-Says n p.mqtt.sensor.mqtt_seq r.0.mqtt.sensor.mqtt_seq (messages r.1) quiet same
            counted,
      )
  Turn-Says (inner m' step) id n power hc plain sound short plain_id sees tidy counted shown = (
    Step-refines step sound,
    Step-Says n power step hc plain sound (SeesId-IsTidyTurn step id short plain_id sees tidy)
        counted shown,
  )
  Turn-Says {p} (periodic r done) id n power hc plain sound short plain_id sees tidy counted shown =
      (
        refl,
        quiet-Says n p.mqtt.sensor.mqtt_seq p.mqtt.sensor.mqtt_seq (messages r.1)
            (periodic_quiet p.event_counter r done) refl counted,
      )

  -- The automaton after the turns of a life.
  unfoldable pub power_of_life :
      {b b' : Board timers random etimers}
      → Life c clock_second leds engine has_leds b b'
      → Power
      → Power
  unfolding cause_of_turn next_power
  power_of_life unmoved p = p
  power_of_life (then_move before (device turn sees)) p =
      next_power c.startup_delay_s (cause_of_turn turn) (power_of_life before p)
  power_of_life (then_move before (register w)) p = power_of_life before p
  power_of_life (then_move before (button has_button is_release)) p = power_of_life before p

  -- What a life has to report, with the automaton in this state at its start.
  unfoldable pub reports_of_life :
      {b b' : Board timers random etimers}
      → Life c clock_second leds engine has_leds b b'
      → Power
      → List Fields
  unfolding report_of_turn power_of_life
  reports_of_life unmoved p = []
  reports_of_life (then_move before (device turn sees)) p =
      reports_of_life before p
      ++ report_of_turn turn (length (reports_of_life before p)) (power_of_life before p)
  reports_of_life (then_move before (register w)) p = reports_of_life before p
  reports_of_life (then_move before (button has_button is_release)) p = reports_of_life before p

  -- Over the whole life of a configured node, from the start of its processes and in whatever order
  -- requests of any paths, methods and bodies, events, timers, wake-ups, the register process and the
  -- button take turns: the device shows the state, off, warming up or on, that the automaton reaches
  -- from the configured default, where a request moves it only if the CoAP engine routes it to the PUT
  -- of the status, and then as its body commands; and the messages that the node publishes read back,
  -- in their order, as exactly the reports of its life: one for each wake-up that is due, with the
  -- reading then taken, the interval then in force, the number of reports before it modulo 2 ^ 32 and
  -- the state that the automaton has reached by then. The networks it meets have addresses in range,
  -- and they and the type hold no quote.
  pub Life-reports :
      (hi lo : ℕ) (t : etimers.Timer) (rand : random.State) {b : Board timers random etimers}
      (life : Life c clock_second leds engine has_leds
        (boot c clock_second leds engine has_leds hi lo t rand)
        b)
      → IsConfig c
      → HasNoQuote c.node_type
      → IsTidyLife life
      → let power = if c.default_on then powered_on else powered_off in
        let fields = reports_of_life life power in
        (view b.producer.mqtt.sensor.device ≡ power_of_life life power)
        × (map decode (messages (device_calls c clock_second leds engine has_leds life))
            ≡ map some fields)
        × (b.producer.mqtt.sensor.mqtt_seq ≡ length fields % 2 ^ 32)
  unfolding boot device_calls reports_of_life power_of_life messages start
  Life-reports hi lo t rand unmoved hc plain tidy = (initial-view timers c, refl, refl)
  Life-reports hi lo t rand (then_move before (device turn sees)) hc plain tidy =
      let power = if c.default_on then powered_on else powered_off in
      let (own, _, _) = Life-IsOwn hi lo t rand before hc plain tidy.0 in
      let (shown, said, counted) = Life-reports hi lo t rand before hc plain tidy.0 in
      let fields = reports_of_life before power in
      let (moves, (says, counted')) =
        Turn-Says turn (node_id c hi lo) (length fields) (power_of_life before power) hc plain
          own.sound (length-node_id hi lo hc) (node_id-HasNoQuote c hi lo plain)
          (subst (λ i. TurnSeesId turn i) own.own_id sees) tidy.1 counted shown in
      let new = report_of_turn turn (length fields) (power_of_life before power) in
      (
        moves ∙ ap (next_power c.startup_delay_s (cause_of_turn turn)) shown,
        ap (map decode) (
              messages-append (device_calls c clock_second leds engine has_leds before)
                (turn_calls turn))
            ∙ map-append decode (messages (device_calls c clock_second leds engine has_leds before))
                (messages (turn_calls turn))
            ∙ rw (said, says) (sym (map-append some fields new)),
        counted' ∙ ap (λ k. k % 2 ^ 32) (sym (length-append fields new)),
      )
  Life-reports hi lo t rand (then_move before (register w)) hc plain tidy =
      Life-reports hi lo t rand before hc plain tidy.0
  Life-reports hi lo t rand (then_move before (button has_button is_release)) hc plain tidy =
      let (shown, said, counted) = Life-reports hi lo t rand before hc plain tidy.0 in
      (
        shown,
        ap (map decode) (
              messages-append (device_calls c clock_second leds engine has_leds before)
                (server_event has_button is_release))
            ∙ rw (messages-server_event has_button is_release, append-nil) said,
        counted,
      )
