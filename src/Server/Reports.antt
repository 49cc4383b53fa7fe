-- ===== src/Server/Reports.antt =====
-- What a turn of a producer node with its server means for the node's power, and what it reports.
use io_t_project.Prelude.{ℕ, ◌≡◌, refl, Bool, Option, none, some, List, [], >>=-eq-some}
use mathlib.Core.Option.{some-injective}
use io_t_project.Calls.{Call}
use io_t_project.Coap.{Payload}
use io_t_project.Config.{Config}
use io_t_project.Device.{Ctimer}
use io_t_project.Mqtt.{Etimer}
use io_t_project.Power.{Power, Cause, quiet, next_power, command_of, view}
use io_t_project.Resources.Leds.{Leds, res_post_put_handler}
use io_t_project.Resources.Status
use io_t_project.Resources.Status.Startup.{IsConsistent}
use io_t_project.Server.{Request, Engine}
use io_t_project.Server.Producer.{
  Handler, leds_post_put, push_get, status_get, status_put, sampling_get, sampling_put, toggle_post,
  Producer, activated, handle, handle_route, serve,
}
use io_t_project.Server.ProducerRuns.{Turn, request, inner, periodic}
use io_t_project.System.Refinement.{cause_of, res_put_handler-refines}
use io_t_project.System.Reports.{report}
use io_t_project.Telemetry.{Random}
use io_t_project.Telemetry.Decode.{Fields}

-- What a request means for the power: a PUT of the status is what its body commands, and no other
-- request means anything.
unfoldable pub cause_of_route : Option Handler → Payload → Cause
unfolding command_of
cause_of_route none payload = quiet
cause_of_route (some leds_post_put) payload = quiet
cause_of_route (some push_get) payload = quiet
cause_of_route (some status_get) payload = quiet
cause_of_route (some status_put) payload = command_of payload
cause_of_route (some sampling_get) payload = quiet
cause_of_route (some sampling_put) payload = quiet
cause_of_route (some toggle_post) payload = quiet

module _ {timers : Ctimer} {random : Random} {etimers : Etimer} where
  unfoldable pub cause_of_turn :
      {c : Config} {clock_second : ℕ} {leds : Leds} {engine : Engine Handler} {has_leds : Bool}
      {p q : Producer timers random etimers}
      → Turn c clock_second leds engine has_leds p q
      → Cause
  unfolding cause_of_route cause_of activated
  cause_of_turn {engine = engine} {has_leds} (request req r done) =
      cause_of_route (engine.route (activated has_leds) req.path req.method) req.payload
  cause_of_turn (inner m' step) = cause_of step
  cause_of_turn (periodic r done) = quiet

  -- What a turn has to report, as the report of number `n`, in this state of the automaton.
  unfoldable pub report_of_turn :
      {c : Config} {clock_second : ℕ} {leds : Leds} {engine : Engine Handler} {has_leds : Bool}
      {p q : Producer timers random etimers}
      → Turn c clock_second leds engine has_leds p q
      → (n : ℕ) → Power
      → List Fields
  unfolding report
  report_of_turn (request req r done) n p = []
  report_of_turn (inner m' step) n p = report step n p
  report_of_turn (periodic r done) n p = []

module _ {timers : Ctimer} {random : Random} {etimers : Etimer} (c : Config) (clock_second : ℕ)
    (leds : Leds) where
  -- The device moves as the automaton does for the cause.
  abbrev Moves :
      Cause → Producer timers random etimers → Producer timers random etimers × List Call → Type 0
  Moves cause p r =
      view r.0.mqtt.sensor.device ≡ next_power c.startup_delay_s cause (view p.mqtt.sensor.device)

  Moves-result :
      (cause : Cause) (p : Producer timers random etimers)
      (made r : Producer timers random etimers × List Call)
      → Moves cause p made
      → some made ≡ some r
      → Moves cause p r
  Moves-result cause p made r h e = rw (← some-injective _ _ e) h

  handle-Moves :
      (h : Handler) (req : Request) (p : Producer timers random etimers)
      (r : Producer timers random etimers × List Call)
      → IsConsistent c p.mqtt.sensor.device
      → handle c clock_second leds h req p ≡ some r
      → Moves (cause_of_route (some h) req.payload) p r
  unfolding handle cause_of_route next_power
  handle-Moves leds_post_put req p r k e =
      let (calls, made, rest) =
        >>=-eq-some (res_post_put_handler leds req.color req.mode req.behind_mode) _ e in
      Moves-result quiet p (p, calls) r refl rest
  handle-Moves push_get req p r k e = Moves-result quiet p _ r refl e
  handle-Moves status_get req p r k e = Moves-result quiet p _ r refl e
  handle-Moves status_put req p r k e =
      let ((d, calls), made, rest) =
        >>=-eq-some (Status.res_put_handler c clock_second req.payload p.mqtt.sensor.device) _ e in
      Moves-result (command_of req.payload) p _ r
        (res_put_handler-refines c clock_second req.payload (d, calls) made k) rest
  handle-Moves sampling_get req p r k e = Moves-result quiet p _ r refl e
  handle-Moves sampling_put req p r k e = Moves-result quiet p _ r refl e
  handle-Moves toggle_post req p r k e = Moves-result quiet p _ r refl e

  route-Moves :
      (found : Option Handler) (req : Request) (p : Producer timers random etimers)
      (r : Producer timers random etimers × List Call)
      → IsConsistent c p.mqtt.sensor.device
      → handle_route c clock_second leds found req p ≡ some r
      → Moves (cause_of_route found req.payload) p r
  unfolding handle_route cause_of_route next_power
  route-Moves none req p r k e = Moves-result quiet p (p, []) r refl e
  route-Moves (some h) req p r k e = handle-Moves h req p r k e

  -- A request moves the power as what it means.
  pub serve-Moves :
      (engine : Engine Handler) (has_leds : Bool) (req : Request)
      (p : Producer timers random etimers) (r : Producer timers random etimers × List Call)
      → IsConsistent c p.mqtt.sensor.device
      → serve c clock_second leds engine has_leds req p ≡ some r
      → Moves
          (cause_of_route (engine.route (activated has_leds) req.path req.method) req.payload)
          p
          r
  unfolding serve
  serve-Moves engine has_leds req p r k e =
      route-Moves (engine.route (activated has_leds) req.path req.method) req p r k e
