-- ===== src/System/Safety.antt =====
-- Every reachable state of a producer node is sound, and a node with a warm-up is switched on by its
-- startup timer alone.
use io_t_project.Prelude.{
  ℕ, ◌<◌, ◌≡◌, refl, sym, ap, ◌∙◌, inl, inr, Bool, true, false, some, List, arith,
}
use mathlib.Core.Option.{some-injective}
use io_t_project.Calls.{Call}
use io_t_project.Coap.{Payload}
use io_t_project.Config.{Config, IsConfig}
use io_t_project.Device.{Ctimer, Device, startup_complete}
use io_t_project.Sampling.Bounds.{IsInRange, initial-IsInRange}
use io_t_project.Telemetry.{Random}
use io_t_project.Telemetry.Shutdown.{publish_telemetry-IsConsistent, publish_telemetry-on}
use io_t_project.Resources.Leds.{Leds}
use io_t_project.Resources.Sampling.Put.{res_put_handler-IsInRange}
use io_t_project.Resources.Status.{res_put_handler}
use io_t_project.Resources.Status.Startup.{
  IsConsistent, initial-IsConsistent, res_put_handler_safe, startup_complete-IsConsistent,
}
use io_t_project.Mqtt.{
  Etimer, MqttEvent, connected_event, disconnected_event, suback_event, puback_event, other_event,
  publish_event, Mqtt, start, mqtt_event_handler, round,
}
use io_t_project.Mqtt.Connection.{IsCounted, round-IsCounted}
use io_t_project.Mqtt.Frame.{IsFramed, round-IsFramed}
use io_t_project.System.{
  Step, wake, event, put_sampling, put_status, startup, elapse, Reach, here, next, IsSound,
}

both : {b : Bool} → b ≡ true → b ≡ false → ⊥
both e f = cc

module _ {timers : Ctimer} where
  put_status_frame :
      (c : Config) (clock_second : ℕ) (payload : Payload) {d : Device timers}
      (r : Device timers × List Call)
      → res_put_handler c clock_second payload d ≡ some r
      → IsConsistent c d
      → IsConsistent c r.0 × (0 < c.startup_delay_s → r.0.device_on ≡ true → d.device_on ≡ true)
  put_status_frame c clock_second payload {d} r e h =
      let (r', e', kept, _, on) = res_put_handler_safe c clock_second payload h in
      let same : r' ≡ r = some-injective _ _ (sym e' ∙ e) in rw (← same) (kept, on)

module _ {timers : Ctimer} {random : Random} {etimers : Etimer} where
  -- An event leaves the interval and the sensor alone, and the attempts counted.
  pub event_frame :
      (leds : Leds) (e : MqttEvent) (m : Mqtt timers random etimers)
      (r : Mqtt timers random etimers × List Call)
      → mqtt_event_handler leds e m ≡ some r
      → IsCounted m
      → (r.0.sampling ≡ m.sampling) × (r.0.sensor ≡ m.sensor) × IsCounted r.0
  unfolding mqtt_event_handler
  event_frame leds connected_event m r e h = ground arith
  event_frame leds disconnected_event m r e h = ground arith
  event_frame leds suback_event m r e h = ground arith
  event_frame leds puback_event m r e h = ground arith
  event_frame leds other_event m r e h = ground arith
  event_frame leds (publish_event chunk) m r e h = ground arith

  framed-IsConsistent :
      {c : Config} (m m' : Mqtt timers random etimers)
      → IsFramed c m m'
      → IsConsistent c m.sensor.device
      → IsConsistent c m'.sensor.device
  framed-IsConsistent m m' (_, inl e) h = rw e h
  framed-IsConsistent m m' (_, inr (at, e)) h = rw e (publish_telemetry-IsConsistent at m.sensor h)

  framed-IsInRange :
      {c : Config} (m m' : Mqtt timers random etimers)
      → IsFramed c m m'
      → IsInRange c m.sampling
      → IsInRange c m'.sampling
  framed-IsInRange m m' (e, _) h = record {
    interval_pos = rw e h.interval_pos;
    interval_le = rw e h.interval_le;
  }

  stays_off :
      (c : Config) (m m' : Mqtt timers random etimers)
      → IsFramed c m m'
      → m.sensor.device.device_on ≡ false
      → m'.sensor.device.device_on ≡ true
      → ⊥
  stays_off c m m' (_, inl e) off on = both (sym (ap (λ s. s.device.device_on) e) ∙ on) off
  stays_off c m m' (_, inr (at, e)) off on =
      both (publish_telemetry-on c at m.sensor (sym (ap (λ s. s.device.device_on) e) ∙ on)) off

  -- Each turn of a configured node keeps it sound.
  pub Step-IsSound :
      {c : Config} {clock_second : ℕ} {leds : Leds} {m m' : Mqtt timers random etimers}
      → IsConfig c
      → Step c clock_second leds m m'
      → IsSound c m
      → IsSound c m'
  Step-IsSound {c} {clock_second} {leds} {m} hc (wake w) h =
      let frame = round-IsFramed c clock_second w m in
      record {
        in_range = framed-IsInRange m (round c clock_second w m).0 frame h.in_range;
        consistent = framed-IsConsistent m (round c clock_second w m).0 frame h.consistent;
        counted = round-IsCounted c clock_second w m h.counted;
      }
  Step-IsSound {c} {clock_second} {leds} {m} hc (event e r done) h =
      let (sampling, sensor, counted) = event_frame leds e m r done h.counted in
      record {
        in_range = rw sampling h.in_range;
        consistent = rw sensor h.consistent;
        counted = counted;
      }
  Step-IsSound hc (put_sampling payload) h = record {
    in_range = res_put_handler-IsInRange payload hc h.in_range;
    consistent = h.consistent;
    counted = h.counted;
  }
  Step-IsSound {c} {clock_second} hc (put_status payload r done) h = record {
    in_range = h.in_range;
    consistent = (put_status_frame c clock_second payload r done h.consistent).0;
    counted = h.counted;
  }
  Step-IsSound hc (startup pending) h = record {
    in_range = h.in_range;
    consistent = startup_complete-IsConsistent h.consistent;
    counted = h.counted;
  }
  Step-IsSound hc (elapse t) h = record {
    in_range = h.in_range;
    consistent = h.consistent;
    counted = h.counted;
  }

  pub start-IsSound :
      {c : Config} (clock_second : ℕ) (t : etimers.Timer) (rand : random.State)
      → IsConfig c
      → IsSound {timers = timers} c
          (start {random = random} {etimers = etimers} c clock_second t rand)
  unfolding start
  start-IsSound {c} clock_second t rand hc = record {
    in_range = initial-IsInRange hc;
    consistent = initial-IsConsistent c;
    counted = λ e. cc;
  }

  -- From its start, a configured node reaches sound states only, in whatever order requests, events,
  -- timers and rounds come: the publish interval is in range, the device is starting exactly while
  -- its startup timer is pending and never while it is on, and fewer than four attempts are counted
  -- while connecting.
  pub Reach-IsSound :
      {c : Config} {clock_second : ℕ} {leds : Leds} (t : etimers.Timer) (rand : random.State)
      {m : Mqtt timers random etimers}
      → IsConfig c
      → Reach c clock_second leds (start c clock_second t rand) m
      → IsSound c m
  Reach-IsSound {clock_second = clock_second} t rand hc here = start-IsSound clock_second t rand hc
  Reach-IsSound t rand hc (next r st) = Step-IsSound hc st (Reach-IsSound t rand hc r)

  -- In a sound state of a node with a startup delay, a turn that takes the device from off to on is
  -- the firing of its startup timer: the device was starting, and its timer pending.
  pub Step-switches_on :
      {c : Config} {clock_second : ℕ} {leds : Leds} {m m' : Mqtt timers random etimers}
      → 0 < c.startup_delay_s
      → Step c clock_second leds m m'
      → IsSound c m
      → m.sensor.device.device_on ≡ false
      → m'.sensor.device.device_on ≡ true
      → (m.sensor.device.device_starting ≡ true)
        × (timers.is_pending m.sensor.device.startup_timer ≡ true)
        × (m'.sensor.device ≡ startup_complete m.sensor.device)
  Step-switches_on {c} {clock_second} {leds} {m} delay (wake w) h off on =
      absurd (stays_off c m (round c clock_second w m).0 (round-IsFramed c clock_second w m) off on)
  Step-switches_on {c} {clock_second} {leds} {m} delay (event e r done) h off on =
      let (_, sensor, _) = event_frame leds e m r done h.counted in
      absurd (both (sym (ap (λ s. s.device.device_on) sensor) ∙ on) off)
  Step-switches_on delay (put_sampling payload) h off on = absurd (both on off)
  Step-switches_on {c} {clock_second} delay (put_status payload r done) h off on =
      absurd (both ((put_status_frame c clock_second payload r done h.consistent).1 delay on) off)
  Step-switches_on delay (startup pending) h off on =
      (h.consistent.starting_pending ∙ pending, pending, refl)
  Step-switches_on delay (elapse t) h off on = absurd (both on off)
