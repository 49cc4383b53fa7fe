-- ===== src/Server/Lifetimes.antt =====
-- Which replies of a producer node point to an array of their handler, which is gone when the CoAP
-- engine sends them.
use io_t_project.Prelude.{
  ℕ, ◌≤◌, ◌<◌, ◌≡◌, refl, ◌↔◌, inl, inr, Bool, Bool-cases, Option, none, some, List, [], ◌∷◌, ◌++◌,
  Bytes, ltb, ◌||◌, subst, ap, >>=-eq-some, arith,
}
use mathlib.Core.Option.{some-injective}
use io_t_project.CLib.Strtoul.{strtoul}
use io_t_project.Calls.{Call, AllLasting}
use io_t_project.Coap.{Payload, payload_bytes}
use io_t_project.Command.{Command, turn_on, turn_off, invalid}
use io_t_project.Config.{Config}
use io_t_project.Device.{Ctimer, Device}
use io_t_project.Mqtt.{Etimer}
use io_t_project.Resources.Leds.{Leds, res_post_put_handler, res_post_handler}
use io_t_project.Resources.Leds.Laws.{LedAnswer, refused, on, off, res_post_put_handler-LedAnswer}
use io_t_project.Resources.Push
use io_t_project.Resources.Sampling
use io_t_project.Resources.Sampling.{put_number, copy_to_tmp}
use io_t_project.Resources.Status
use io_t_project.Resources.Status.{put_command, read_command}
use io_t_project.Sampling.{Sampling, set_publish_interval_ms}
use io_t_project.Server.{Request, Engine}
use io_t_project.Server.Producer.{
  Handler, leds_post_put, push_get, status_get, status_put, sampling_get, sampling_put, toggle_post,
  Producer, push_period, activated, handle, handle_route, serve,
}
use io_t_project.Telemetry.{Random}

-- `strtoul` has read the text to its end as a number from 1 to 60000.
abbrev pub IsNumberRead : Option (ℕ × Bytes) → Type 0
IsNumberRead read = (n : ℕ) × (read ≡ some (n, [])) × (0 < n) × (n ≤ 60000)

-- A GET of the interval, and a PUT of it that is taken.
abbrev pub PassesLocal : Option Handler → Payload → Type 0
PassesLocal (some sampling_get) payload = Unit
PassesLocal (some sampling_put) payload =
    IsNumberRead (strtoul (copy_to_tmp (payload_bytes payload)))
PassesLocal _ payload = ⊥

lasts : (calls : List Call) → AllLasting calls → AllLasting calls ↔ ¬ ⊥
lasts calls h = (λ _ e. e, λ _. h)

LedAnswer-AllLasting : (leds : Leds) (calls : List Call) → LedAnswer leds calls → AllLasting calls
LedAnswer-AllLasting leds calls refused = (tt, tt)
LedAnswer-AllLasting leds calls (on led h) = (tt, tt)
LedAnswer-AllLasting leds calls (off led h) = (tt, tt)

local-end : (calls more : List Call) → AllLasting (calls ++ more) → AllLasting more
local-end [] more h = h
local-end (call ∷ calls) more h = local-end calls more h.1

put_number-lasting :
    (c : Config) (tmp : Bytes) (read : Option (ℕ × Bytes)) (s : Sampling)
    → AllLasting (put_number c tmp read s).1 ↔ ¬ IsNumberRead read
unfolding put_number
put_number-lasting c tmp none s = (λ _ (n, e, _, _). cc, λ _. (tt, (tt, tt)))
put_number-lasting c tmp (some (n, d ∷ rest)) s = (λ _ (m, e, _, _). cc, λ _. (tt, (tt, tt)))
put_number-lasting c tmp (some (n, [])) s = elim (Bool-cases (ltb n 1 || ltb 60000 n)) [
  | inl out ↦ rw out (
    λ _ (m, e, low, high).
        let same : (n, []) ≡ (m, []) = some-injective _ _ e in
        let eq : n ≡ m = ap (λ t. t.0) same in ground arith,
    λ _. (tt, (tt, tt)),
  )
  | inr within ↦
      let low : 0 < n = ground arith in
      let high : n ≤ 60000 = ground arith in
      rw within (
        λ h. absurd (local-end (set_publish_interval_ms c n s).1 _ h).1.0,
        λ no. absurd (no (n, refl, low, high)),
      )
]

put_sampling-lasting :
    (c : Config) (payload : Payload) (s : Sampling)
    → AllLasting (Sampling.res_put_handler c payload s).1
      ↔ ¬ IsNumberRead (strtoul (copy_to_tmp (payload_bytes payload)))
unfolding Sampling.res_put_handler copy_to_tmp strtoul
put_sampling-lasting c none s = (λ _ (n, e, _, _). cc, λ _. (tt, (tt, tt)))
put_sampling-lasting c (some []) s = (λ _ (n, e, _, _). cc, λ _. (tt, (tt, tt)))
put_sampling-lasting c (some (b ∷ bytes)) s =
    let tmp = copy_to_tmp (b ∷ bytes) in put_number-lasting c tmp (strtoul tmp) s

module _ {timers : Ctimer} where
  put_command-lasting :
      (c : Config) (clock_second : ℕ) (command : Command) (d : Device timers)
      → AllLasting (put_command c clock_second command d).1
  unfolding put_command
  put_command-lasting c clock_second turn_on d = ground arith
  put_command-lasting c clock_second turn_off d = (tt, (tt, tt))
  put_command-lasting c clock_second invalid d = (tt, (tt, tt))

  put_status-lasting :
      (c : Config) (clock_second : ℕ) (payload : Payload) (d : Device timers)
      (r : Device timers × List Call)
      → Status.res_put_handler c clock_second payload d ≡ some r
      → AllLasting r.1
  unfolding Status.res_put_handler
  put_status-lasting c clock_second none d r e =
      subst (λ t. AllLasting t.1) (some-injective _ _ e) (tt, (tt, tt))
  put_status-lasting c clock_second (some []) d r e =
      subst (λ t. AllLasting t.1) (some-injective _ _ e) (tt, (tt, tt))
  put_status-lasting c clock_second (some (b ∷ bytes)) d r e =
      let (command, _, done) = >>=-eq-some (read_command (b ∷ bytes)) _ e in
      subst (λ t. AllLasting t.1) (some-injective _ _ done)
        (put_command-lasting c clock_second command d)

module _ {timers : Ctimer} {random : Random} {etimers : Etimer} (c : Config) (clock_second : ℕ)
    (leds : Leds) where
  -- The reply lasts exactly if its handler passes no array of its own.
  abbrev pub IsLastingFor :
      Option Handler → Payload → Producer timers random etimers × List Call → Type 0
  IsLastingFor found payload r = AllLasting r.1 ↔ ¬ PassesLocal found payload

  result-lasting :
      (found : Option Handler) (payload : Payload)
      (made r : Producer timers random etimers × List Call)
      → IsLastingFor found payload made
      → some made ≡ some r
      → IsLastingFor found payload r
  result-lasting found payload made r h e = rw (← some-injective _ _ e) h

  handle-lasting :
      (h : Handler) (req : Request) (p : Producer timers random etimers)
      (r : Producer timers random etimers × List Call)
      → handle c clock_second leds h req p ≡ some r
      → IsLastingFor (some h) req.payload r
  unfolding handle
  handle-lasting leds_post_put req p r e =
      let (calls, made, rest) =
        >>=-eq-some (res_post_put_handler leds req.color req.mode req.behind_mode) _ e in
      let answer =
        res_post_put_handler-LedAnswer leds req.color req.mode req.behind_mode calls made in
      result-lasting (some leds_post_put) req.payload (p, calls) r
        (lasts calls (LedAnswer-AllLasting leds calls answer)) rest
  handle-lasting push_get req p r e =
      let calls =
        Push.res_get_handler push_period clock_second req.preferred_size p.event_counter in
      let h : AllLasting calls = (tt, (tt, (tt, tt))) in
      result-lasting (some push_get) req.payload (p, calls) r (lasts calls h) e
  handle-lasting status_get req p r e =
      let calls = Status.res_get_handler p.mqtt.sensor.device in
      let h : AllLasting calls = (tt, (tt, tt)) in
      result-lasting (some status_get) req.payload (p, calls) r (lasts calls h) e
  handle-lasting status_put req p r e =
      let ((d, calls), made, rest) =
        >>=-eq-some (Status.res_put_handler c clock_second req.payload p.mqtt.sensor.device) _ e in
      result-lasting (some status_put) req.payload _ r
        (lasts calls
          (put_status-lasting c clock_second req.payload p.mqtt.sensor.device (d, calls) made))
        rest
  handle-lasting sampling_get req p r e =
      result-lasting (some sampling_get) req.payload _ r (λ h. absurd h.1.0, λ no. absurd (no tt)) e
  handle-lasting sampling_put req p r e =
      result-lasting (some sampling_put) req.payload _ r
        (put_sampling-lasting c req.payload p.mqtt.sampling) e
  handle-lasting toggle_post req p r e =
      let calls = res_post_handler leds in
      let h : AllLasting calls = (tt, tt) in
      result-lasting (some toggle_post) req.payload (p, calls) r (lasts calls h) e

  route-lasting :
      (found : Option Handler) (req : Request) (p : Producer timers random etimers)
      (r : Producer timers random etimers × List Call)
      → handle_route c clock_second leds found req p ≡ some r
      → IsLastingFor found req.payload r
  unfolding handle_route
  route-lasting none req p r e = result-lasting none req.payload _ r (lasts [] tt) e
  route-lasting (some h) req p r e = handle-lasting h req p r e

  pub serve-lasting :
      (engine : Engine Handler) (has_leds : Bool) (req : Request)
      (p : Producer timers random etimers) (r : Producer timers random etimers × List Call)
      → serve c clock_second leds engine has_leds req p ≡ some r
      → IsLastingFor (engine.route (activated has_leds) req.path req.method) req.payload r
  unfolding serve
  serve-lasting engine has_leds req p r e =
      route-lasting (engine.route (activated has_leds) req.path req.method) req p r e
