-- ===== src/Server/ProducerRuns.antt =====
-- A producer node with its CoAP server: requests, the push counter and the turns of the other
-- processes in any order.
use io_t_project.Prelude.{
  ℕ, ◌≤◌, ◌≡◌, ◌↔◌, ◌≢◌, refl, ap, sym, ◌∙◌, inl, inr, Option-cases, Bool, Option, none, some, List,
  [], ◌∷◌, Bytes, ltb, ◌||◌, arith, Bool-cases, true, ◌++◌, >>=-eq-some, All-append,
}
use mathlib.Core.Option.{some-injective}
use io_t_project.Calls.{Call, AllInBounds, IsInBounds, AllLasting}
use io_t_project.Coap.{Payload}
use io_t_project.Config.{Config, IsConfig}
use io_t_project.Device.{Ctimer}
use io_t_project.Mqtt.{Etimer, Mqtt, start}
use io_t_project.Resources.Leds.{Leds, has_nul, res_post_put_handler}
use io_t_project.Resources.Leds.Laws.{
  LedAnswer, refused, on, off, res_post_put_handler_answer, has_nul-end, res_post_put_handler-end,
}
use io_t_project.Resources.Push.{res_periodic_handler, res_get_handler_whole}
use io_t_project.Resources.Sampling
use io_t_project.Resources.Sampling.{copy_to_tmp, put_number}
use io_t_project.CLib.Strtoul.{strtoul}
use io_t_project.Resources.Status.Startup.{res_put_handler_answers}
use io_t_project.Sampling.{Sampling, set_publish_interval_ms}
use io_t_project.Server.{Request, Engine}
use io_t_project.Server.Lifetimes.{PassesLocal, serve-lasting}
use io_t_project.Server.Producer.{
  Handler, leds_post_put, push_get, status_get, status_put, sampling_get, sampling_put, toggle_post,
  Producer, push_period, activated, handle, handle_route, serve,
}
use io_t_project.System.{Step, put_sampling, put_status, IsSound}
use io_t_project.System.Safety.{Step-IsSound, start-IsSound}
use io_t_project.Telemetry.{Random}

LedAnswer-AllInBounds : (leds : Leds) (calls : List Call) → LedAnswer leds calls → AllInBounds calls
LedAnswer-AllInBounds leds calls refused = (tt, tt)
LedAnswer-AllInBounds leds calls (on led h) = (tt, tt)
LedAnswer-AllInBounds leds calls (off led h) = (tt, tt)

set-AllInBounds :
    (c : Config) (n : ℕ) (s : Sampling) → AllInBounds (set_publish_interval_ms c n s).1
unfolding set_publish_interval_ms
set-AllInBounds c n s = ground arith

put_number-AllInBounds :
    (c : Config) (tmp : Bytes) (read : Option (ℕ × Bytes)) (s : Sampling)
    → AllInBounds (put_number c tmp read s).1
unfolding put_number
put_number-AllInBounds c tmp none s = omega arith
put_number-AllInBounds c tmp (some (n, d ∷ rest)) s = omega arith
put_number-AllInBounds c tmp (some (n, [])) s = elim (Bool-cases (ltb n 1 || ltb 60000 n)) [
  | inl e ↦ rw e (omega arith)
  | inr e ↦ rw e (All-append IsInBounds _ _ (set-AllInBounds c n s) (tt, (omega arith, tt)))
]

put_sampling-AllInBounds :
    (c : Config) (payload : Payload) (s : Sampling)
    → AllInBounds (Sampling.res_put_handler c payload s).1
unfolding Sampling.res_put_handler
put_sampling-AllInBounds c none s = omega arith
put_sampling-AllInBounds c (some []) s = omega arith
put_sampling-AllInBounds c (some (b ∷ bytes)) s =
    let tmp = copy_to_tmp (b ∷ bytes) in put_number-AllInBounds c tmp (strtoul tmp) s

-- Contiki-NG's engine ends the payload of a request, in which `mode` stands, with a NUL.
abbrev pub EndsMode : Request → Type 0
EndsMode req = req.mode ≢ [] → has_nul (req.mode ++ req.behind_mode) ≡ true

-- The same request, with a NUL behind its mode.
abbrev ended : Request → Request
ended req = record req { behind_mode = 0 ∷ [] }

module _ {timers : Ctimer} {random : Random} {etimers : Etimer} (c : Config) (clock_second : ℕ)
    (leds : Leds) where
  -- A request's answer: it is given, in a sound state, and in bounds where the reply has room.
  abbrev pub IsAnswered : Request → Option (Producer timers random etimers × List Call) → Type 0
  IsAnswered req answer =
      (r : Producer timers random etimers × List Call) × (answer ≡ some r)
      × IsSound c r.0.mqtt
      × (27 ≤ req.preferred_size → AllInBounds r.1)

  handle-IsAnswered :
      (h : Handler) (req : Request) (p : Producer timers random etimers)
      → EndsMode req
      → IsConfig c
      → IsSound c p.mqtt
      → IsAnswered req (handle c clock_second leds h req p)
  unfolding handle
  handle-IsAnswered leds_post_put req p ends hc h =
      let (calls, e, answer) =
        res_post_put_handler_answer leds req.color req.mode req.behind_mode ends in
      ((p, calls), rw e refl, h, λ _. LedAnswer-AllInBounds leds calls answer)
  handle-IsAnswered push_get req p ends hc h = (
    _,
    refl,
    h,
    λ room.
        (res_get_handler_whole push_period clock_second req.preferred_size p.event_counter room).1,
  )
  handle-IsAnswered status_get req p ends hc h = (_, refl, h, λ _. (tt, (omega arith, tt)))
  handle-IsAnswered status_put req p ends hc h =
      let ((d, calls), e, _, bounds) =
        res_put_handler_answers c clock_second req.payload h.consistent in
      let mqtt' = record p.mqtt { sensor = record p.mqtt.sensor { device = d } } in
      let turn : Step c clock_second leds p.mqtt mqtt' = put_status req.payload (d, calls) e in
      ((record p { mqtt = mqtt' }, calls), rw e refl, Step-IsSound hc turn h, λ _. bounds)
  handle-IsAnswered sampling_get req p ends hc h = (_, refl, h, λ _. (tt, (omega arith, tt)))
  handle-IsAnswered sampling_put req p ends hc h =
      let mqtt' = record p.mqtt {
        sampling = (Sampling.res_put_handler c req.payload p.mqtt.sampling).0;
      } in
      let turn : Step c clock_second leds p.mqtt mqtt' = put_sampling req.payload in
      (_, refl, Step-IsSound hc turn h, λ _. put_sampling-AllInBounds c req.payload p.mqtt.sampling)
  handle-IsAnswered toggle_post req p ends hc h = (_, refl, h, λ _. (tt, tt))

  -- In a sound state a configured node answers every request, whatever its path, method, body and
  -- variables: it reads nothing outside the request, is left in a sound state, and, where the reply
  -- has room for 27 bytes, replies with no byte that its text does not have.
  pub serve-IsAnswered :
      (engine : Engine Handler) (has_leds : Bool) (req : Request)
      (p : Producer timers random etimers)
      → EndsMode req
      → IsConfig c
      → IsSound c p.mqtt
      → IsAnswered req (serve c clock_second leds engine has_leds req p)
  unfolding serve
  serve-IsAnswered engine has_leds req p ends hc h =
      elim (Option-cases (engine.route (activated has_leds) req.path req.method)) [
        | inl e ↦ rw e ((p, []), refl, h, λ _. tt)
        | inr (found, e) ↦ rw e (handle-IsAnswered found req p ends hc h)
      ]

  handle-ended :
      (h : Handler) (req : Request) (p : Producer timers random etimers)
      (r : Producer timers random etimers × List Call)
      → handle c clock_second leds h req p ≡ some r
      → handle c clock_second leds h (ended req) p ≡ some r
  unfolding handle
  handle-ended leds_post_put req p r e =
      let (calls, made, rest) =
        >>=-eq-some (res_post_put_handler leds req.color req.mode req.behind_mode) _ e in
      rw (res_post_put_handler-end leds req.color req.mode req.behind_mode calls made) rest
  handle-ended push_get req p r e = e
  handle-ended status_get req p r e = e
  handle-ended status_put req p r e = e
  handle-ended sampling_get req p r e = e
  handle-ended sampling_put req p r e = e
  handle-ended toggle_post req p r e = e

  route-ended :
      (found : Option Handler) (req : Request) (p : Producer timers random etimers)
      (r : Producer timers random etimers × List Call)
      → handle_route c clock_second leds found req p ≡ some r
      → handle_route c clock_second leds found (ended req) p ≡ some r
  unfolding handle_route
  route-ended none req p r e = e
  route-ended (some h) req p r e = handle-ended h req p r e

  -- One turn of a node with its server.
  pub data Turn (engine : Engine Handler) (has_leds : Bool) (p : Producer timers random etimers)
      : Producer timers random etimers → Type 0 where
    request :
        (req : Request) (r : Producer timers random etimers × List Call)
        → serve c clock_second leds engine has_leds req p ≡ some r
        → Turn engine has_leds p r.0
    inner :
        (m' : Mqtt timers random etimers)
        → Step c clock_second leds p.mqtt m'
        → Turn engine has_leds p (record p { mqtt = m' })
    periodic :
        (r : ℕ × List Call)
        → res_periodic_handler p.event_counter ≡ some r
        → Turn engine has_leds p (record p { event_counter = r.0 })

  pub data Turns (engine : Engine Handler) (has_leds : Bool) (p : Producer timers random etimers)
      : Producer timers random etimers → Type 0 where
    none_yet : Turns engine has_leds p p
    then_turn :
        {q r : Producer timers random etimers}
        → Turns engine has_leds p q
        → Turn engine has_leds q r
        → Turns engine has_leds p r

  abbrev pub booted : etimers.Timer → random.State → Producer timers random etimers
  booted t rand = record { mqtt = start c clock_second t rand; event_counter = 0 }

  pub Turn-IsSound :
      (engine : Engine Handler) (has_leds : Bool) {p q : Producer timers random etimers}
      → IsConfig c
      → Turn engine has_leds p q
      → IsSound c p.mqtt
      → IsSound c q.mqtt
  unfolding serve
  Turn-IsSound engine has_leds {p} hc (request req r done) h =
      let found = engine.route (activated has_leds) req.path req.method in
      let (r', e, sound, _) =
        serve-IsAnswered engine has_leds (ended req) p (λ _. has_nul-end req.mode) hc h in
      let same : r'.0 ≡ r.0 =
        ap (λ s. s.0) (some-injective _ _ (sym e ∙ route-ended found req p r done)) in
      rw (← same) sound
  Turn-IsSound engine has_leds hc (inner m' step) h = Step-IsSound hc step h
  Turn-IsSound engine has_leds hc (periodic r done) h = h

  Turns-IsSound :
      (engine : Engine Handler) (has_leds : Bool) (t : etimers.Timer) (rand : random.State)
      {p : Producer timers random etimers}
      → IsConfig c
      → Turns engine has_leds (booted t rand) p
      → IsSound c p.mqtt
  Turns-IsSound engine has_leds t rand hc none_yet = start-IsSound clock_second t rand hc
  Turns-IsSound engine has_leds t rand hc (then_turn before turn) =
      Turn-IsSound engine has_leds hc turn (Turns-IsSound engine has_leds t rand hc before)

  -- A configured node answers every request at every time: after any turns of its processes, its
  -- timers and earlier requests since its start, its push counter not overflown, a request, whatever
  -- its path, method, body and variables, is answered without a read outside what may be read, the log
  -- line of the mode included, and leaves a sound state. Where the reply has room for 27 bytes, it is
  -- handed no more bytes than its text has. What it is handed is still there when it is sent exactly if
  -- the request is not routed to the GET of the interval, or to its PUT with a body that is taken. A
  -- NUL stands in or behind the mode of the request, if it has one.
  pub Turns-IsAnswered :
      (engine : Engine Handler) (has_leds : Bool) (t : etimers.Timer) (rand : random.State)
      {p : Producer timers random etimers} (req : Request)
      → EndsMode req
      → IsConfig c
      → Turns engine has_leds (booted t rand) p
      → (r : Producer timers random etimers × List Call) × (serve c clock_second leds engine
            has_leds req p
          ≡ some r)
        × IsSound c r.0.mqtt
        × (27 ≤ req.preferred_size → AllInBounds r.1)
        × (AllLasting r.1
            ↔ ¬ PassesLocal (engine.route (activated has_leds) req.path req.method) req.payload)
  Turns-IsAnswered engine has_leds t rand {p} req ends hc turns =
      let (r, e, sound, bounds) =
        serve-IsAnswered engine has_leds req p ends hc
          (Turns-IsSound engine has_leds t rand hc turns) in
      (r, e, sound, bounds, serve-lasting c clock_second leds engine has_leds req p r e)
