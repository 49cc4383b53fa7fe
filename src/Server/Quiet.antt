-- ===== src/Server/Quiet.antt =====
-- The messages among the calls that answer a request or that a notification makes.
use io_t_project.Prelude.{
  inl, inr, Bool-cases, ◌==◌, ◌^◌, ◌-◌, ℕ, ◌≡◌, refl, sym, ap, Option, none, some, List, [],
  >>=-eq-some, Bool,
}
use mathlib.Core.Option.{some-injective}
use io_t_project.Calls.{Call}
use io_t_project.Config.{Config}
use io_t_project.Device.{Ctimer}
use io_t_project.Mqtt.{Etimer}
use io_t_project.Mqtt.Published.{messages}
use io_t_project.Resources.Leds.{Leds, res_post_put_handler}
use io_t_project.Resources.Leds.Laws.{LedAnswer, refused, on, off, res_post_put_handler-LedAnswer}
use io_t_project.Resources.Push
use io_t_project.Resources.Status
use io_t_project.Server.{Request, Engine}
use io_t_project.Server.Producer.{
  Handler, leds_post_put, push_get, status_get, status_put, sampling_get, sampling_put, toggle_post,
  Producer, activated, handle, handle_route, serve,
}
use io_t_project.System.Quiet.{put_sampling_quiet, put_status_quiet}
use io_t_project.Telemetry.{Random}

LedAnswer-quiet : (leds : Leds) (calls : List Call) → LedAnswer leds calls → messages calls ≡ []
unfolding messages
LedAnswer-quiet leds calls refused = refl
LedAnswer-quiet leds calls (on led h) = refl
LedAnswer-quiet leds calls (off led h) = refl

pub periodic_quiet :
    (event_counter : ℕ) (r : ℕ × List Call)
    → Push.res_periodic_handler event_counter ≡ some r
    → messages r.1 ≡ []
unfolding Push.res_periodic_handler messages
periodic_quiet event_counter r e = elim (Bool-cases (event_counter == 2 ^ 31 - 1)) [
  | inl full ↦ absurd (none_some (rw full at e))
  | inr room ↦ ap (λ t. messages t.1) (sym (some-injective _ _ (rw room at e)))
]
  where
    none_some : {r : ℕ × List Call} → none ≡ some r → ⊥
    none_some h = cc

module _ {timers : Ctimer} {random : Random} {etimers : Etimer} (c : Config) (clock_second : ℕ)
    (leds : Leds) where
  -- A result that publishes nothing and leaves the sequence number.
  abbrev pub IsQuiet :
      Producer timers random etimers → Producer timers random etimers × List Call → Type 0
  IsQuiet p r = (messages r.1 ≡ []) × (r.0.mqtt.sensor.mqtt_seq ≡ p.mqtt.sensor.mqtt_seq)

  IsQuiet-result :
      (p : Producer timers random etimers) (made r : Producer timers random etimers × List Call)
      → IsQuiet p made
      → some made ≡ some r
      → IsQuiet p r
  IsQuiet-result p made r h e = rw (← some-injective _ _ e) h

  handle-IsQuiet :
      (h : Handler) (req : Request) (p : Producer timers random etimers)
      (r : Producer timers random etimers × List Call)
      → handle c clock_second leds h req p ≡ some r
      → IsQuiet p r
  unfolding handle messages
  handle-IsQuiet leds_post_put req p r e =
      let (calls, made, rest) =
        >>=-eq-some (res_post_put_handler leds req.color req.mode req.behind_mode) _ e in
      let answer =
        res_post_put_handler-LedAnswer leds req.color req.mode req.behind_mode calls made in
      IsQuiet-result p (p, calls) r (LedAnswer-quiet leds calls answer, refl) rest
  handle-IsQuiet push_get req p r e = IsQuiet-result p _ r (refl, refl) e
  handle-IsQuiet status_get req p r e = IsQuiet-result p _ r (refl, refl) e
  handle-IsQuiet status_put req p r e =
      let ((d, calls), made, rest) =
        >>=-eq-some (Status.res_put_handler c clock_second req.payload p.mqtt.sensor.device) _ e in
      IsQuiet-result p _ r
        (put_status_quiet c clock_second req.payload p.mqtt.sensor.device (d, calls) made, refl)
        rest
  handle-IsQuiet sampling_get req p r e = IsQuiet-result p _ r (refl, refl) e
  handle-IsQuiet sampling_put req p r e =
      IsQuiet-result p _ r (put_sampling_quiet c req.payload p.mqtt.sampling, refl) e
  handle-IsQuiet toggle_post req p r e = IsQuiet-result p _ r (refl, refl) e

  route-IsQuiet :
      (found : Option Handler) (req : Request) (p : Producer timers random etimers)
      (r : Producer timers random etimers × List Call)
      → handle_route c clock_second leds found req p ≡ some r
      → IsQuiet p r
  unfolding handle_route messages
  route-IsQuiet none req p r e = IsQuiet-result p (p, []) r (refl, refl) e
  route-IsQuiet (some h) req p r e = handle-IsQuiet h req p r e

  pub serve-IsQuiet :
      (engine : Engine Handler) (has_leds : Bool) (req : Request)
      (p : Producer timers random etimers) (r : Producer timers random etimers × List Call)
      → serve c clock_second leds engine has_leds req p ≡ some r
      → IsQuiet p r
  unfolding serve
  serve-IsQuiet engine has_leds req p r e =
      route-IsQuiet (engine.route (activated has_leds) req.path req.method) req p r e
