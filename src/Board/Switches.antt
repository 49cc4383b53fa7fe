-- ===== src/Board/Switches.antt =====
-- The LEDs that a producer node switches over its whole life, with requests through its CoAP server.
use io_t_project.Prelude.{
  ◌^◌, ◌-◌, ◌==◌, ℕ, ◌≡◌, arith, refl, sym, ap, ◌∙◌, inl, inr, Bool-cases, Bool, true, false,
  Option, none, some, List, [], ◌∷◌, ◌++◌, append-nil, Bytes, codes, Option-cases, >>=-eq-some,
}
use mathlib.Core.Option.{some-injective}
use io_t_project.Board.{
  Board, device, register, button, Life, unmoved, then_move, turn_calls, device_calls,
  register_calls,
}
use io_t_project.Calls.{Call, leds_toggle}
use io_t_project.Config.{Config}
use io_t_project.Device.{Ctimer}
use io_t_project.Mqtt.{Etimer}
use io_t_project.Node.{Network}
use io_t_project.Registration.{registration_at}
use io_t_project.Registration.Process.{
  Phase, waiting, requesting, finished, Wakeup, delay_over, response, request_over, register_step,
  coap_reg_response_handler,
}
use io_t_project.Resources.Leds.{Leds, res_post_put_handler}
use io_t_project.Resources.Leds.Table.{asked, answer_to, abbreviates, switch_named, led_named}
use io_t_project.Resources.Leds.Table.{res_post_put_handler-some}
use io_t_project.Resources.Push
use io_t_project.Resources.Status
use io_t_project.Server.{Request, Engine}
use io_t_project.Server.Producer.{
  Handler, leds_post_put, push_get, status_get, status_put, sampling_get, sampling_put, toggle_post,
  Producer, activated, handle, handle_route, serve, server_event,
}
use io_t_project.Server.ProducerRuns.{Turn, request, inner, periodic}
use io_t_project.System.Switches.{
  switches, switches-append, put_sampling_unlit, put_status_unlit, switched_by_step, Step-switches,
}
use io_t_project.Telemetry.{Random}

abbrev switch_of : Option Call → List Call
switch_of none = []
switch_of (some call) = call ∷ []

-- What a request switches: what it asks the LED resource for, or the red LED over.
unfoldable pub switched_by_route : Leds → Option Handler → Request → List Call
unfolding asked
switched_by_route leds none req = []
switched_by_route leds (some leds_post_put) req = switch_of (asked leds req.color req.mode)
switched_by_route leds (some push_get) req = []
switched_by_route leds (some status_get) req = []
switched_by_route leds (some status_put) req = []
switched_by_route leds (some sampling_get) req = []
switched_by_route leds (some sampling_put) req = []
switched_by_route leds (some toggle_post) req = leds_toggle leds.red ∷ []

named-switches :
    (led : ℕ) (mode : Bytes)
    → switches (answer_to (switch_named led mode)) ≡ switch_of (switch_named led mode)
unfolding switches switch_named
named-switches led [] = refl
named-switches led (c ∷ mode) = elim (Bool-cases (abbreviates (codes "on") (c ∷ mode))) [
  | inl e ↦ rw e refl
  | inr e ↦ elim (Bool-cases (abbreviates (codes "off") (c ∷ mode))) [
    | inl f ↦ rw (e, f) refl
    | inr f ↦ rw (e, f) refl
  ]
]

answer_to-switches :
    (leds : Leds) (color mode : Bytes)
    → switches (answer_to (asked leds color mode)) ≡ switch_of (asked leds color mode)
unfolding switches asked
answer_to-switches leds color mode = elim (Option-cases (led_named leds color)) [
  | inl e ↦ rw e refl
  | inr (led, e) ↦ rw e (named-switches led mode)
]

periodic_unlit :
    (event_counter : ℕ) (r : ℕ × List Call)
    → Push.res_periodic_handler event_counter ≡ some r
    → switches r.1 ≡ []
unfolding Push.res_periodic_handler switches
periodic_unlit event_counter r e = elim (Bool-cases (event_counter == 2 ^ 31 - 1)) [
  | inl full ↦ absurd (none_some (rw full at e))
  | inr room ↦ ap (λ t. switches t.1) (sym (some-injective _ _ (rw room at e)))
]
  where
    none_some : {r : ℕ × List Call} → none ≡ some r → ⊥
    none_some h = cc

server_event_unlit :
    (has_button is_release : Bool) → switches (server_event has_button is_release) ≡ []
unfolding server_event switches
server_event_unlit true true = refl
server_event_unlit true false = refl
server_event_unlit false is_release = refl

register_step_unlit :
    (payload_at : Network → (clock_seconds : ℕ) → Bytes) (phase : Phase) (w : Wakeup)
    → switches (register_step payload_at phase w).1 ≡ []
unfolding register_step coap_reg_response_handler switches
register_step_unlit payload_at waiting (delay_over net clock_seconds) = ground arith
register_step_unlit payload_at waiting (response r) = refl
register_step_unlit payload_at waiting request_over = refl
register_step_unlit payload_at requesting (delay_over net clock_seconds) = refl
register_step_unlit payload_at requesting (response none) = refl
register_step_unlit payload_at requesting (response (some payload)) = refl
register_step_unlit payload_at requesting request_over = refl
register_step_unlit payload_at finished w = refl

module _ {timers : Ctimer} {random : Random} {etimers : Etimer} (c : Config) (clock_second : ℕ)
    (leds : Leds) where
  result-switches :
      (made r : Producer timers random etimers × List Call) (calls : List Call)
      → switches made.1 ≡ calls
      → some made ≡ some r
      → switches r.1 ≡ calls
  result-switches made r calls h e = rw (← some-injective _ _ e) h

  handle-switches :
      (h : Handler) (req : Request) (p : Producer timers random etimers)
      (r : Producer timers random etimers × List Call)
      → handle c clock_second leds h req p ≡ some r
      → switches r.1 ≡ switched_by_route leds (some h) req
  unfolding handle switches switched_by_route
  handle-switches leds_post_put req p r e =
      let (calls, made, rest) =
        >>=-eq-some (res_post_put_handler leds req.color req.mode req.behind_mode) _ e in
      let same = res_post_put_handler-some leds req.color req.mode req.behind_mode calls made in
      result-switches (p, calls) r _ (ap switches same ∙ answer_to-switches leds req.color req.mode)
        rest
  handle-switches push_get req p r e = result-switches _ r [] refl e
  handle-switches status_get req p r e = result-switches _ r [] refl e
  handle-switches status_put req p r e =
      let ((d, calls), made, rest) =
        >>=-eq-some (Status.res_put_handler c clock_second req.payload p.mqtt.sensor.device) _ e in
      result-switches _ r []
        (put_status_unlit c clock_second req.payload p.mqtt.sensor.device (d, calls) made) rest
  handle-switches sampling_get req p r e = result-switches _ r [] refl e
  handle-switches sampling_put req p r e =
      result-switches _ r [] (put_sampling_unlit c req.payload p.mqtt.sampling) e
  handle-switches toggle_post req p r e = result-switches _ r _ refl e

  route-switches :
      (found : Option Handler) (req : Request) (p : Producer timers random etimers)
      (r : Producer timers random etimers × List Call)
      → handle_route c clock_second leds found req p ≡ some r
      → switches r.1 ≡ switched_by_route leds found req
  unfolding handle_route switched_by_route switches
  route-switches none req p r e = result-switches _ r [] refl e
  route-switches (some h) req p r e = handle-switches h req p r e

module _ {timers : Ctimer} {random : Random} {etimers : Etimer} {c : Config} {clock_second : ℕ}
    {leds : Leds} {engine : Engine Handler} {has_leds : Bool} where
  -- What a turn switches: what its request or its MQTT message asks for.
  unfoldable pub switched_by_turn :
      {p q : Producer timers random etimers}
      → Turn c clock_second leds engine has_leds p q
      → List Call
  unfolding switched_by_route switched_by_step activated
  switched_by_turn (request req r done) =
      switched_by_route leds (engine.route (activated has_leds) req.path req.method) req
  switched_by_turn (inner m' step) = switched_by_step step
  switched_by_turn (periodic r done) = []

  Turn-switches :
      {p q : Producer timers random etimers} (turn : Turn c clock_second leds engine has_leds p q)
      → switches (turn_calls turn) ≡ switched_by_turn turn
  unfolding turn_calls switched_by_turn serve
  Turn-switches {p} (request req r done) =
      route-switches c clock_second leds (engine.route (activated has_leds) req.path req.method) req
        p r done
  Turn-switches (inner m' step) = Step-switches step
  Turn-switches {p} (periodic r done) = periodic_unlit p.event_counter r done

  -- What a life has to switch, in the order of its turns.
  unfoldable pub switched_by_life :
      {b b' : Board timers random etimers}
      → Life c clock_second leds engine has_leds b b'
      → List Call
  unfolding switched_by_turn
  switched_by_life unmoved = []
  switched_by_life (then_move before (device turn sees)) =
      switched_by_life before ++ switched_by_turn turn
  switched_by_life (then_move before (register w)) = switched_by_life before
  switched_by_life (then_move before (button has_button is_release)) = switched_by_life before

  device_calls-switches :
      {b b' : Board timers random etimers} (life : Life c clock_second leds engine has_leds b b')
      → switches (device_calls c clock_second leds engine has_leds life) ≡ switched_by_life life
  unfolding device_calls switched_by_life switches
  device_calls-switches unmoved = refl
  device_calls-switches (then_move before (device turn sees)) =
      switches-append (device_calls c clock_second leds engine has_leds before) (turn_calls turn)
      ∙ rw (device_calls-switches before, Turn-switches turn) refl
  device_calls-switches (then_move before (register w)) = device_calls-switches before
  device_calls-switches (then_move before (button has_button is_release)) =
      switches-append (device_calls c clock_second leds engine has_leds before)
        (server_event has_button is_release)
      ∙ rw (device_calls-switches before, server_event_unlit has_button is_release, append-nil) refl

  register_calls-switches :
      {b b' : Board timers random etimers} (life : Life c clock_second leds engine has_leds b b')
      → switches (register_calls c clock_second leds engine has_leds life) ≡ []
  unfolding register_calls switches
  register_calls-switches unmoved = refl
  register_calls-switches (then_move before (device turn sees)) = register_calls-switches before
  register_calls-switches (then_move {d = d} before (register w)) =
      switches-append (register_calls c clock_second leds engine has_leds before) _
      ∙ rw
          (
            register_calls-switches before,
            register_step_unlit (registration_at c d.id) d.registering w,
          )
          refl
  register_calls-switches (then_move before (button has_button is_release)) =
      register_calls-switches before

  -- Over any part of a node's life, in whatever order requests of any paths, methods, bodies and
  -- variables, events, timers, wake-ups, the register process and the button take turns, the calls
  -- that switch LEDs on, off or over are, in their order, those that the turns ask for: a request that
  -- the CoAP engine routes to the LED resource, what its color and mode ask for, one that it routes to
  -- the toggle resource, the red LED over, and an MQTT message, what it commands. Nothing else that
  -- the node does switches a LED.
  pub Life-switches :
      {b b' : Board timers random etimers} (life : Life c clock_second leds engine has_leds b b')
      → (switches (device_calls c clock_second leds engine has_leds life) ≡ switched_by_life life)
        × (switches (register_calls c clock_second leds engine has_leds life) ≡ [])
  Life-switches life = (device_calls-switches life, register_calls-switches life)
