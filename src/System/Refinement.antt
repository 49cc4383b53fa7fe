-- ===== src/System/Refinement.antt =====
-- Each turn of a producer node is a move of the automaton of Power, for the cause that the turn shows.
use io_t_project.Prelude.{
  ℕ, ◌≡◌, refl, sym, ap, ◌∙◌, inl, inr, Bool, true, false, Bool-cases, none, some, List, [], ◌∷◌,
  Bytes, codes, arith, if◌then◌else◌,
}
use mathlib.Core.Option.{some-injective}
use io_t_project.Calls.{Call}
use io_t_project.Coap.{Payload}
use io_t_project.Command.{Command, turn_on, turn_off, invalid}
use io_t_project.Config.{Config, IsConfig}
use io_t_project.Device.{Ctimer, Device, initial, startup_complete}
use io_t_project.Mqtt.{Etimer, Mqtt, Wake, moment_of, start, round}
use io_t_project.Mqtt.Published.{due, IsTraced, round-IsTraced}
use io_t_project.Power.{
  Power, powered_off, powered_on, Cause, quiet, command_on, command_off, warmed_up, fault,
  next_power, begins, command_of, view, has_word-begins,
}
use io_t_project.Resources.Leds.{Leds}
use io_t_project.Resources.Status.{put_command, read_command, res_put_handler}
use io_t_project.Resources.Status.Startup.{IsConsistent}
use io_t_project.System.{
  Step, wake, event, put_sampling, put_status, startup, elapse, Reach, here, next, IsSound,
}
use io_t_project.System.Safety.{event_frame, Reach-IsSound}
use io_t_project.Telemetry.{Random, Sensor, Moment, read_sensor, publish_telemetry}
use io_t_project.Telemetry.Shutdown.{reading_of}

unfoldable pub cause_of_command : Command → Cause
cause_of_command turn_on = command_on
cause_of_command turn_off = command_off
cause_of_command invalid = quiet

pub read_command-command_of :
    (body : Bytes)
    → (command : Command) × (read_command body ≡ some command)
      × (command_of (some body) ≡ cause_of_command command)
unfolding read_command command_of cause_of_command
read_command-command_of body =
    let off = has_word-begins body (codes "off") in
    let on = has_word-begins body (codes "on") in
    elim (Bool-cases (begins (codes "off") body)) [
      | inl e ↦ (turn_off, rw (off, e), rw e)
      | inr e ↦ elim (Bool-cases (begins (codes "on") body)) [
        | inl f ↦ (turn_on, rw (off, e, on, f), rw (e, f))
        | inr f ↦ (invalid, rw (off, e, on, f), rw (e, f))
      ]
    ]

pub initial-view :
    (timers : Ctimer) (c : Config)
    → view (initial timers c) ≡ (if c.default_on then powered_on else powered_off)
unfolding view initial
initial-view timers c = refl

module _ {timers : Ctimer} where
  pub put_command-refines :
      (c : Config) (clock_second : ℕ) (command : Command) {d : Device timers}
      → IsConsistent c d
      → view (put_command c clock_second command d).0
        ≡ next_power c.startup_delay_s (cause_of_command command) (view d)
  unfolding put_command view next_power cause_of_command
  put_command-refines c clock_second turn_on {d} h = ground arith
  put_command-refines c clock_second turn_off {d} h = ground arith
  put_command-refines c clock_second invalid {d} h = ground arith

  -- A PUT of the status is what its body commands.
  pub res_put_handler-refines :
      (c : Config) (clock_second : ℕ) (payload : Payload) {d : Device timers}
      (r : Device timers × List Call)
      → res_put_handler c clock_second payload d ≡ some r
      → IsConsistent c d
      → view r.0 ≡ next_power c.startup_delay_s (command_of payload) (view d)
  unfolding res_put_handler command_of next_power
  res_put_handler-refines c clock_second none {d} r e h = rw (← some-injective _ _ e) refl
  res_put_handler-refines c clock_second (some []) {d} r e h = rw (← some-injective _ _ e) refl
  res_put_handler-refines c clock_second (some (b ∷ bytes)) {d} r e h =
      let (command, read, cause) = read_command-command_of (b ∷ bytes) in
      let same : put_command c clock_second command d ≡ r =
        some-injective _ _ (sym (rw read) ∙ e) in
      rw (← same, cause) (put_command-refines c clock_second command h)

  startup_complete-refines :
      {c : Config} {d : Device timers}
      → IsConsistent c d
      → timers.is_pending d.startup_timer ≡ true
      → view (startup_complete d) ≡ next_power c.startup_delay_s warmed_up (view d)
  unfolding startup_complete view next_power
  startup_complete-refines {c} {d} h pending = ground arith

  quiet_step :
      (delay : ℕ) {d d' : Device timers} → d' ≡ d → view d' ≡ next_power delay quiet (view d)
  unfolding next_power
  quiet_step delay e = ap view e

  fault-refines :
      (delay : ℕ) (d : Device timers) (anomaly : Bool)
      → (anomaly ≡ true → d.device_on ≡ true)
      → (d.device_on ≡ true → d.device_starting ≡ false)
      → view (if anomaly then record d { device_on = false } else d)
        ≡ next_power delay (if anomaly then fault else quiet) (view d)
  unfolding view next_power
  fault-refines delay d true h k = rw (h refl, k (h refl)) refl
  fault-refines delay d false h k = refl

module _ {timers : Ctimer} {random : Random} where
  anomaly_on :
      (c : Config) (s : Sensor timers random)
      → (reading_of c s).anomaly ≡ true
      → s.device.device_on ≡ true
  unfolding read_sensor
  anomaly_on c s h = elim (Bool-cases s.device.device_on) [
    | inl e ↦ e
    | inr e ↦ absurd (silent (rw e at h))
  ]
    where
      silent : false ≡ true → ⊥
      silent f = cc

  publish_telemetry-refines :
      (c : Config) (at : Moment) (s : Sensor timers random)
      → IsConsistent c s.device
      → view (publish_telemetry c at s).0.device
        ≡ next_power c.startup_delay_s
            (if (reading_of c s).anomaly then fault else quiet)
            (view s.device)
  unfolding publish_telemetry
  publish_telemetry-refines c at s h =
      fault-refines c.startup_delay_s s.device (reading_of c s).anomaly (anomaly_on c s)
        h.on_not_starting

-- The cause of a wake-up that publishes or not, where the reading to take is an anomaly or not.
unfoldable pub cause_of_wake : (publishes anomaly : Bool) → Cause
cause_of_wake true true = fault
cause_of_wake true false = quiet
cause_of_wake false anomaly = quiet

fault_or_quiet :
    (delay : ℕ) (p : Power) (anomaly : Bool)
    → next_power delay (if anomaly then fault else quiet) p
      ≡ next_power delay (cause_of_wake true anomaly) p
unfolding cause_of_wake
fault_or_quiet delay p true = refl
fault_or_quiet delay p false = refl

module _ {timers : Ctimer} {random : Random} {etimers : Etimer} where
  -- The cause of a turn: a PUT of the status is what its body commands, the startup timer ends the
  -- warm-up, a wake-up that publishes an anomaly is a fault, and all else is quiet.
  unfoldable pub cause_of :
      {c : Config} {clock_second : ℕ} {leds : Leds} {m m' : Mqtt timers random etimers}
      → Step c clock_second leds m m'
      → Cause
  unfolding cause_of_wake command_of due
  cause_of {c} {clock_second} {leds} {m} (wake w) =
      cause_of_wake (due w m) (reading_of c m.sensor).anomaly
  cause_of (event e r done) = quiet
  cause_of (put_sampling payload) = quiet
  cause_of (put_status payload r done) = command_of payload
  cause_of (startup pending) = warmed_up
  cause_of (elapse t) = quiet

  wake-refines :
      (c : Config) (w : Wake) (m : Mqtt timers random etimers) (publishes : Bool)
      (r : Mqtt timers random etimers × List Call)
      → IsTraced publishes c w m r
      → IsConsistent c m.sensor.device
      → view r.0.sensor.device
        ≡ next_power c.startup_delay_s
            (cause_of_wake publishes (reading_of c m.sensor).anomaly)
            (view m.sensor.device)
  unfolding cause_of_wake next_power
  wake-refines c w m publishes r (inl (still, none_sent, kept)) h =
      rw still (ap (λ s. view s.device) kept)
  wake-refines c w m publishes r (inr (yes_due, calls, moved)) h = rw yes_due (
      ap (λ s. view s.device) moved
      ∙ publish_telemetry-refines c (moment_of w m) m.sensor h
      ∙ fault_or_quiet c.startup_delay_s (view m.sensor.device) (reading_of c m.sensor).anomaly)

  -- Each turn of a sound node moves its power, off, warming up or on, as the automaton moves for the
  -- turn's cause.
  pub Step-refines :
      {c : Config} {clock_second : ℕ} {leds : Leds} {m m' : Mqtt timers random etimers}
      (turn : Step c clock_second leds m m')
      → IsSound c m
      → view m'.sensor.device ≡ next_power c.startup_delay_s (cause_of turn) (view m.sensor.device)
  unfolding cause_of next_power
  Step-refines {c} {clock_second} {leds} {m} (wake w) h =
      wake-refines c w m (due w m) (round c clock_second w m) (round-IsTraced c clock_second w m)
        h.consistent
  Step-refines {c} {clock_second} {leds} {m} (event e r done) h =
      let (_, sensor, _) = event_frame leds e m r done h.counted in
      quiet_step c.startup_delay_s (ap (λ s. s.device) sensor)
  Step-refines (put_sampling payload) h = refl
  Step-refines {c} {clock_second} (put_status payload r done) h =
      res_put_handler-refines c clock_second payload r done h.consistent
  Step-refines (startup pending) h = startup_complete-refines h.consistent pending
  Step-refines (elapse t) h = refl

  -- The automaton after the causes of a run.
  unfoldable pub power_after :
      {c : Config} {clock_second : ℕ} {leds : Leds} {m m' : Mqtt timers random etimers}
      → Reach c clock_second leds m m'
      → Power
      → Power
  unfolding cause_of next_power
  power_after here p = p
  power_after {c} (next before turn) p =
      next_power c.startup_delay_s (cause_of turn) (power_after before p)

  -- A configured node refines the automaton of three states, off, warming up and on. After any run
  -- from its start, in whatever order requests, events, timers and wake-ups come, its device shows
  -- the state that the automaton reaches from on, or off, by the configured default, through the
  -- causes of the turns: a PUT of the status is what its body commands, the startup timer ends the
  -- warm-up, a wake-up that publishes an anomaly is a fault, and every other turn is quiet.
  pub Reach-refines :
      {c : Config} {clock_second : ℕ} {leds : Leds} (t : etimers.Timer) (rand : random.State)
      {m : Mqtt timers random etimers}
      (run : Reach c clock_second leds (start c clock_second t rand) m)
      → IsConfig c
      → view m.sensor.device ≡ power_after run (if c.default_on then powered_on else powered_off)
  unfolding power_after start
  Reach-refines {c} t rand here hc = initial-view timers c
  Reach-refines {c} t rand (next before turn) hc =
      Step-refines turn (Reach-IsSound t rand hc before)
      ∙ ap (next_power c.startup_delay_s (cause_of turn)) (Reach-refines t rand before hc)
