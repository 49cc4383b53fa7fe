-- ===== src/Server/Producer.antt =====
-- The resources that `coap_server_process` of coap-mqtt-sensor.c activates, with their handlers, and
-- what a button does. PLATFORM_HAS_LEDS, PLATFORM_HAS_BUTTON and the LED masks are the platform's.
use io_t_project.Prelude.{
  ℕ, Bool, ◌&&◌, Option, none, some, List, [], ◌∷◌, Bytes, codes, ◌>>=◌, if◌then◌else◌,
}
use io_t_project.Calls.{Call, trigger_push}
use io_t_project.Config.{Config}
use io_t_project.Device.{Ctimer}
use io_t_project.Mqtt.{Etimer, Mqtt}
use io_t_project.Resources.Leds.{Leds, res_post_put_handler, res_post_handler}
use io_t_project.Resources.Push
use io_t_project.Resources.Sampling
use io_t_project.Resources.Status
use io_t_project.Server.{Resource, Request, Engine}
use io_t_project.Telemetry.{Random}

pub data Handler : Type 0 where
  leds_post_put push_get status_get status_put sampling_get sampling_put toggle_post : Handler

abbrev pub res_leds : Resource Handler
res_leds = record {
  get_handler = none;
  post_handler = some leds_post_put;
  put_handler = some leds_post_put;
  delete_handler = none;
}

abbrev pub res_push : Resource Handler
res_push = record {
  get_handler = some push_get;
  post_handler = none;
  put_handler = none;
  delete_handler = none;
}

abbrev pub res_status : Resource Handler
res_status = record {
  get_handler = some status_get;
  post_handler = none;
  put_handler = some status_put;
  delete_handler = none;
}

abbrev pub res_sampling : Resource Handler
res_sampling = record {
  get_handler = some sampling_get;
  post_handler = none;
  put_handler = some sampling_put;
  delete_handler = none;
}

abbrev pub res_toggle : Resource Handler
res_toggle = record {
  get_handler = none;
  post_handler = some toggle_post;
  put_handler = none;
  delete_handler = none;
}

-- What the server process activates.
unfoldable pub activated : (has_leds : Bool) → List (Bytes × Resource Handler)
activated has_leds =
    (codes "actuators/leds", res_leds)
    ∷ (codes "test/push", res_push)
    ∷ (codes "actuators/status", res_status)
    ∷ (codes "actuators/sampling", res_sampling)
    ∷ (if has_leds then (codes "actuators/toggle", res_toggle) ∷ [] else [])

-- A round of the server's loop: a button that is released triggers the push resource.
unfoldable pub server_event : (has_button is_release : Bool) → List Call
server_event has_button is_release = if has_button && is_release then trigger_push ∷ [] else []

-- A node: the MQTT process with the state it shares, and the counter of res-push.c.
pub record Producer (timers : Ctimer) (random : Random) (etimers : Etimer) : Type 0 where
  pub mqtt : Mqtt timers random etimers
  pub event_counter : ℕ

-- The period that res-push.c gives PERIODIC_RESOURCE.
abbrev pub push_period : ℕ
push_period = 5000

module _ {timers : Ctimer} {random : Random} {etimers : Etimer} (c : Config) (clock_second : ℕ)
    (leds : Leds) where
  -- `none` is a read outside what may be read of the request.
  unfoldable pub handle :
      Handler
      → Request
      → Producer timers random etimers
      → Option (Producer timers random etimers × List Call)
  unfolding res_post_put_handler res_post_handler Push.res_get_handler Status.res_get_handler
      Status.res_put_handler Sampling.res_get_handler Sampling.res_put_handler
  handle leds_post_put req p =
      res_post_put_handler leds req.color req.mode req.behind_mode >>= λ calls. some (p, calls)
  handle push_get req p =
      some (p, Push.res_get_handler push_period clock_second req.preferred_size p.event_counter)
  handle status_get req p = some (p, Status.res_get_handler p.mqtt.sensor.device)
  handle status_put req p =
      Status.res_put_handler c clock_second req.payload p.mqtt.sensor.device >>= λ (d, calls).
      some
        (record p { mqtt = record p.mqtt { sensor = record p.mqtt.sensor { device = d } } }, calls)
  handle sampling_get req p = some (p, Sampling.res_get_handler p.mqtt.sampling)
  handle sampling_put req p =
      let (s, calls) = Sampling.res_put_handler c req.payload p.mqtt.sampling in
      some (record p { mqtt = record p.mqtt { sampling = s } }, calls)
  handle toggle_post req p = some (p, res_post_handler leds)

  unfoldable pub handle_route :
      Option Handler
      → Request
      → Producer timers random etimers
      → Option (Producer timers random etimers × List Call)
  unfolding handle
  handle_route none req p = some (p, [])
  handle_route (some h) req p = handle h req p

  unfoldable pub serve :
      Engine Handler
      → (has_leds : Bool) → Request
      → Producer timers random etimers
      → Option (Producer timers random etimers × List Call)
  unfolding handle_route activated
  serve engine has_leds req p =
      handle_route (engine.route (activated has_leds) req.path req.method) req p
