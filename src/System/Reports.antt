-- ===== src/System/Reports.antt =====
-- What the messages of a run have to say, from the run's turns alone, and that they say it.
use io_t_project.Prelude.{
  ℕ, ◌+◌, ◌%◌, ◌^◌, ◌≡◌, refl, sym, ap, ◌∙◌, Bool, true, false, some, List, [], ◌∷◌, ◌++◌, map,
  Bytes, codes, length, length-append, arith, if◌then◌else◌, inl, inr, map-append,
}
use io_t_project.Calls.{Call}
use io_t_project.Config.{Config, IsConfig}
use io_t_project.Device.{Ctimer, Device}
use io_t_project.Mqtt.{Etimer, Mqtt, Wake, start, round, moment_of}
use io_t_project.Mqtt.Published.{messages, due, IsTraced, round-IsTraced, event_quiet}
use io_t_project.Node.{get_node_ip}
use io_t_project.Power.{Power, powered_off, warming_up, powered_on, view}
use io_t_project.Reader.{HasNoQuote}
use io_t_project.Resources.Leds.{Leds}
use io_t_project.Sampling.{get_publish_interval_ms}
use io_t_project.System.{
  Step, wake, event, put_sampling, put_status, startup, elapse, Reach, here, next, IsSound,
}
use io_t_project.System.Sent.{
  IsTidy, IsTidyTurn, IsTidyRun, calls_of, sent, moment_of-IsMoment, publish_telemetry-mqtt_seq,
}
use io_t_project.System.Quiet.{put_sampling_quiet, put_status_quiet}
use io_t_project.System.Refinement.{power_after, Reach-refines}
use io_t_project.System.Safety.{event_frame, Reach-IsSound}
use io_t_project.Telemetry.{Random, status_text, to_ms}
use io_t_project.Telemetry.Decode.{Fields, fields_of, decode, decode-publish_telemetry}
use io_t_project.Telemetry.Shutdown.{reading_of}

-- A state as the messages show it.
abbrev pub status_of : Power → Bytes
status_of powered_off = codes "OFF"
status_of warming_up = codes "STARTING"
status_of powered_on = codes "ON"

status_text-view :
    {timers : Ctimer} (d : Device timers)
    → status_text d.device_on d.device_starting ≡ status_of (view d)
unfolding view
status_text-view d = shown d.device_on d.device_starting
  where
    shown :
        (on starting : Bool)
        → status_text on starting
          ≡ status_of (if on then powered_on else if starting then warming_up else powered_off)
    shown true starting = refl
    shown false true = refl
    shown false false = refl

-- The payloads read back as the reports, and the counter has passed them.
abbrev pub Says : (n : ℕ) → List Bytes → List Fields → (seq : ℕ) → Type 0
Says n payloads fields seq =
    (map decode payloads ≡ map some fields) × (seq ≡ (n + length fields) % 2 ^ 32)

pub quiet-Says :
    (n seq seq' : ℕ) (payloads : List Bytes)
    → payloads ≡ []
    → seq' ≡ seq
    → seq ≡ n % 2 ^ 32
    → Says n payloads [] seq'
quiet-Says n seq seq' payloads quiet same counted = (rw quiet refl, omega (arith, same, counted))

one-Says :
    (n seq seq' : ℕ) (payloads : List Bytes) (payload : Bytes) (f : Fields)
    → payloads ≡ payload ∷ []
    → decode payload ≡ some f
    → seq' ≡ (seq + 1) % 2 ^ 32
    → seq ≡ n % 2 ^ 32
    → Says n payloads (f ∷ []) seq'
one-Says n seq seq' payloads payload f one read up counted =
    (rw (one, read) refl, omega (arith, up, counted))

module _ {timers : Ctimer} {random : Random} {etimers : Etimer} where
  -- What a turn has to report, as the report of number `n`, in this state of the automaton.
  unfoldable pub report :
      {c : Config} {clock_second : ℕ} {leds : Leds} {m m' : Mqtt timers random etimers}
      → Step c clock_second leds m m'
      → (n : ℕ) → Power
      → List Fields
  unfolding due get_publish_interval_ms
  report {c} {clock_second} {leds} {m} (wake w) n p =
      if due w m
      then fields_of c w.id (get_node_ip w.network) (n % 2 ^ 32) (reading_of c m.sensor)
          (get_publish_interval_ms m.sampling) (to_ms w.clock_seconds) (status_of p)
        ∷ []
      else []
  report (event e r done) n p = []
  report (put_sampling payload) n p = []
  report (put_status payload r done) n p = []
  report (startup pending) n p = []
  report (elapse t) n p = []

  -- What a run has to report, with the automaton in this state at its start.
  unfoldable pub reports :
      {c : Config} {clock_second : ℕ} {leds : Leds} {m m' : Mqtt timers random etimers}
      → Reach c clock_second leds m m'
      → Power
      → List Fields
  unfolding report power_after
  reports here p = []
  reports (next before turn) p =
      reports before p ++ report turn (length (reports before p)) (power_after before p)

  wake-Says :
      {c : Config} (n : ℕ) (w : Wake) (m : Mqtt timers random etimers) (p : Power)
      (r : Mqtt timers random etimers × List Call)
      → IsConfig c
      → HasNoQuote c.node_type
      → IsSound c m
      → IsTidy w
      → m.sensor.mqtt_seq ≡ n % 2 ^ 32
      → view m.sensor.device ≡ p
      → IsTraced (due w m) c w m r
      → Says n
          (messages r.1)
          (if due w m
            then fields_of c w.id
                (get_node_ip w.network)
                (n % 2 ^ 32)
                (reading_of c m.sensor)
                (get_publish_interval_ms m.sampling)
                (to_ms w.clock_seconds)
                (status_of p)
              ∷ []
            else [])
          r.0.sensor.mqtt_seq
  unfolding messages
  wake-Says n w m p r hc plain sound tidy counted shown (inl (still, quiet, kept)) = rw still (
      quiet-Says n m.sensor.mqtt_seq r.0.sensor.mqtt_seq (messages r.1) quiet
        (ap (λ s. s.mqtt_seq) kept) counted)
  wake-Says {c} n w m p r hc plain sound tidy counted shown (inr (now, calls, moved)) =
      let (payload, one, read) =
        decode-publish_telemetry (moment_of w m) m.sensor hc (moment_of-IsMoment w m sound tidy)
          tidy.id_plain plain tidy.address_plain (omega (arith, counted)) in
      let status : status_text m.sensor.device.device_on m.sensor.device.device_starting
          ≡ status_of p =
        status_text-view m.sensor.device ∙ ap status_of shown in
      rw now (
        one-Says n m.sensor.mqtt_seq r.0.sensor.mqtt_seq (messages r.1) payload _
          (ap messages (calls ∙ one)) (read ∙ rw (counted, status) refl)
          (ap (λ s. s.mqtt_seq) moved ∙ publish_telemetry-mqtt_seq c (moment_of w m) m.sensor)
          counted)

  pub Step-Says :
      {c : Config} {clock_second : ℕ} {leds : Leds} (n : ℕ) (p : Power)
      {m m' : Mqtt timers random etimers} (turn : Step c clock_second leds m m')
      → IsConfig c
      → HasNoQuote c.node_type
      → IsSound c m
      → IsTidyTurn turn
      → m.sensor.mqtt_seq ≡ n % 2 ^ 32
      → view m.sensor.device ≡ p
      → Says n (messages (calls_of turn)) (report turn n p) m'.sensor.mqtt_seq
  unfolding calls_of messages report
  Step-Says {c} {clock_second} n p {m} (wake w) hc plain sound tidy counted shown =
      wake-Says n w m p (round c clock_second w m) hc plain sound tidy counted shown
        (round-IsTraced c clock_second w m)
  Step-Says {c} {clock_second} {leds} n p {m} (event e r done) hc plain sound tidy counted shown =
      let (_, sensor, _) = event_frame leds e m r done sound.counted in
      quiet-Says n m.sensor.mqtt_seq r.0.sensor.mqtt_seq (messages r.1)
        (event_quiet leds e m r done) (ap (λ s. s.mqtt_seq) sensor) counted
  Step-Says {c} n p {m} (put_sampling payload) hc plain sound tidy counted shown =
      quiet-Says n m.sensor.mqtt_seq _ _ (put_sampling_quiet c payload m.sampling) refl counted
  Step-Says {c} {clock_second} n p {m} (put_status payload r done) hc plain sound tidy counted
        shown =
      quiet-Says n m.sensor.mqtt_seq _ _
        (put_status_quiet c clock_second payload m.sensor.device r done) refl counted
  Step-Says n p {m} (startup pending) hc plain sound tidy counted shown =
      quiet-Says n m.sensor.mqtt_seq _ (messages []) refl refl counted
  Step-Says n p {m} (elapse t) hc plain sound tidy counted shown =
      quiet-Says n m.sensor.mqtt_seq _ (messages []) refl refl counted

  -- Over any run of a configured node from its start, in whatever order requests, events, timers and
  -- wake-ups come, the messages that it publishes read back, in their order, as exactly the reports of
  -- the run: one for each wake-up that is due, with the id, type, address and time of the wake-up, the
  -- reading then taken, the publish interval then in force, the number of reports before it modulo
  -- 2 ^ 32, and as status the state that the automaton has reached by then. Ids and addresses are in
  -- range, and they and the type hold no quote.
  pub sent-reports :
      {c : Config} {clock_second : ℕ} {leds : Leds} (t : etimers.Timer) (rand : random.State)
      {m : Mqtt timers random etimers}
      (run : Reach c clock_second leds (start c clock_second t rand) m)
      → IsConfig c
      → HasNoQuote c.node_type
      → IsTidyRun run
      → let fields = reports run (if c.default_on then powered_on else powered_off) in
        (map decode (sent run) ≡ map some fields) × (m.sensor.mqtt_seq ≡ length fields % 2 ^ 32)
  unfolding sent start reports
  sent-reports t rand here hc plain tidy = (refl, refl)
  sent-reports {c} t rand (next before turn) hc plain tidy =
      let p = if c.default_on then powered_on else powered_off in
      let (said, counted) = sent-reports t rand before hc plain tidy.0 in
      let fields = reports before p in
      let (says, counted') =
        Step-Says (length fields) (power_after before p) turn hc plain
          (Reach-IsSound t rand hc before) tidy.1 counted (Reach-refines t rand before hc) in
      let new = report turn (length fields) (power_after before p) in
      (
        map-append decode (sent before) (messages (calls_of turn))
            ∙ rw (said, says) (sym (map-append some fields new)),
        counted' ∙ ap (λ k. k % 2 ^ 32) (sym (length-append fields new)),
      )
