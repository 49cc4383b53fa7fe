-- ===== src/System/Pending.antt =====
-- A changed publish interval that waits for the MQTT process, over a whole run.
use io_t_project.Prelude.{
  ℕ, ◌≡◌, refl, ap, ◌∙◌, ◌⊎◌, inl, inr, Bool-cases, Bool, true, false, ◌&&◌, some, List, leb, ◌+◌,
  ◌%◌, arith,
}
use io_t_project.Calls.{Call}
use io_t_project.Coap.{Payload}
use io_t_project.Config.{Config}
use io_t_project.Device.{Ctimer}
use io_t_project.Mqtt.{
  Etimer, Mqtt, MqttState, init, connecting, connected, disconnected, MqttEvent, connected_event,
  disconnected_event, suback_event, puback_event, other_event, publish_event, Wake, is_connected,
  apply_interval, wait_connack, serve, on_expired, round, mqtt_event_handler,
}
use io_t_project.Mqtt.Rounds.{round-dirty}
use io_t_project.Node.{have_connectivity}
use io_t_project.Resources.Leds.{Leds}
use io_t_project.Resources.Sampling
use io_t_project.Resources.Sampling.Put.{res_put_handler_cases}
use io_t_project.Sampling.{
  Sampling, get_publish_interval_ms, set_publish_interval_ms, publish_interval_is_dirty,
  publish_interval_to_ticks,
}
use io_t_project.System.{
  Step, wake, event, put_sampling, put_status, startup, elapse, Reach, here, next,
}
use io_t_project.Telemetry.{Random}

is_connected-eq : (st : MqttState) → is_connected st ≡ true → st ≡ connected
is_connected-eq init e = cc
is_connected-eq connecting e = cc
is_connected-eq connected e = refl
is_connected-eq disconnected e = cc

set-dirty :
    (c : Config) (n : ℕ) (s : Sampling)
    → publish_interval_is_dirty s ≡ true
    → publish_interval_is_dirty (set_publish_interval_ms c n s).0 ≡ true
unfolding set_publish_interval_ms publish_interval_is_dirty
set-dirty c n s h = ground arith

put-dirty :
    (c : Config) (payload : Payload) (s : Sampling)
    → publish_interval_is_dirty s ≡ true
    → publish_interval_is_dirty (Sampling.res_put_handler c payload s).0 ≡ true
put-dirty c payload s h = elim (res_put_handler_cases c payload s) [
  | inl refused ↦ rw refused.0 h
  | inr (n, _, _, _, taken) ↦ rw taken.0 (set-dirty c n s h)
]

module _ {timers : Ctimer} {random : Random} {etimers : Etimer} where
  event-sampling :
      (leds : Leds) (e : MqttEvent) (m : Mqtt timers random etimers)
      (r : Mqtt timers random etimers × List Call)
      → mqtt_event_handler leds e m ≡ some r
      → r.0.sampling ≡ m.sampling
  unfolding mqtt_event_handler
  event-sampling leds connected_event m r e = ground arith
  event-sampling leds disconnected_event m r e = ground arith
  event-sampling leds suback_event m r e = ground arith
  event-sampling leds puback_event m r e = ground arith
  event-sampling leds other_event m r e = ground arith
  event-sampling leds (publish_event chunk) m r e = ground arith

  wait_connack-sampling :
      (clock_second : ℕ) (m : Mqtt timers random etimers)
      → (wait_connack clock_second m).0.sampling ≡ m.sampling
  unfolding wait_connack
  wait_connack-sampling clock_second m =
      elim (Bool-cases (leb 4 ((m.connect_attempts + 1) % 256))) [
        | inl e ↦ rw e refl
        | inr e ↦ rw e refl
      ]

  serve-sampling :
      (c : Config) (clock_second : ℕ) (w : Wake) (st : MqttState) (m : Mqtt timers random etimers)
      → (serve c clock_second w st m).0.sampling ≡ m.sampling
  unfolding serve
  serve-sampling c clock_second w init m = refl
  serve-sampling c clock_second w disconnected m = refl
  serve-sampling c clock_second w connecting m = wait_connack-sampling clock_second m
  serve-sampling c clock_second w connected m = elim (Bool-cases w.is_ready) [
    | inl e ↦ rw e refl
    | inr e ↦ rw e refl
  ]

  on_expired-sampling :
      (c : Config) (clock_second : ℕ) (w : Wake) (m : Mqtt timers random etimers)
      → (on_expired c clock_second w m).0.sampling ≡ m.sampling
  unfolding on_expired
  on_expired-sampling c clock_second w m = elim (Bool-cases (have_connectivity w.network)) [
    | inl e ↦ rw e (serve-sampling c clock_second w m.mqtt_state m)
    | inr e ↦ rw e refl
  ]

  -- The MQTT process, polled while the broker is connected, runs its timer with the interval in force
  -- and clears the flag.
  abbrev pub AppliesInterval :
      (clock_second : ℕ) → Wake → (m m' : Mqtt timers random etimers) → Type 0
  AppliesInterval clock_second w m m' =
      (w.is_poll ≡ true)
      × (m.mqtt_state ≡ connected)
      × (m'.pub_timer
          ≡ etimers.set
              (publish_interval_to_ticks clock_second (get_publish_interval_ms m.sampling))
              m.pub_timer)
      × (publish_interval_is_dirty m'.sampling ≡ false)

  apply_interval-skips :
      (clock_second : ℕ) (is_poll : Bool) (m : Mqtt timers random etimers)
      → (is_poll && is_connected m.mqtt_state) ≡ false
      → apply_interval clock_second is_poll m ≡ m
  unfolding apply_interval
  apply_interval-skips clock_second is_poll m other =
      let off : (is_poll && (publish_interval_is_dirty m.sampling && is_connected m.mqtt_state))
          ≡ false =
        ground arith in
      rw off refl

  unapplied-sampling :
      (c : Config) (clock_second : ℕ) (w : Wake) (m : Mqtt timers random etimers)
      → (w.is_poll && is_connected m.mqtt_state) ≡ false
      → (round c clock_second w m).0.sampling ≡ m.sampling
  unfolding round
  unapplied-sampling c clock_second w m other =
      let skip = apply_interval-skips clock_second w.is_poll m other in
      elim (Bool-cases (etimers.is_expired m.pub_timer)) [
        | inl e ↦ rw (skip, e) (on_expired-sampling c clock_second w m)
        | inr e ↦ rw (skip, e) refl
      ]

  wake-pending :
      (c : Config) (clock_second : ℕ) (w : Wake) (m : Mqtt timers random etimers)
      → publish_interval_is_dirty m.sampling ≡ true
      → (publish_interval_is_dirty (round c clock_second w m).0.sampling ≡ true)
        ⊎ AppliesInterval clock_second w m (round c clock_second w m).0
  wake-pending c clock_second w m dirty =
      elim (Bool-cases (w.is_poll && is_connected m.mqtt_state)) [
        | inl both ↦
            let poll : w.is_poll ≡ true = ground arith in
            let conn = is_connected-eq m.mqtt_state (ground arith) in
            let (_, clean, _, timer, _, _) = round-dirty c clock_second w m poll dirty conn in
            inr (poll, conn, timer, clean)
        | inr other ↦
            inl (ap publish_interval_is_dirty (unapplied-sampling c clock_second w m other) ∙ dirty)
      ]

  abbrev pub IsApplied :
      {c : Config} {clock_second : ℕ} {leds : Leds} {m m' : Mqtt timers random etimers}
      → Step c clock_second leds m m'
      → Type 0
  IsApplied {c} {clock_second} {leds} {m} (wake w) =
      AppliesInterval clock_second w m (round c clock_second w m).0
  IsApplied _ = ⊥

  Step-pending :
      {c : Config} {clock_second : ℕ} {leds : Leds} {m m' : Mqtt timers random etimers}
      (turn : Step c clock_second leds m m')
      → publish_interval_is_dirty m.sampling ≡ true
      → (publish_interval_is_dirty m'.sampling ≡ true) ⊎ IsApplied turn
  Step-pending {c} {clock_second} {leds} {m} (wake w) dirty = wake-pending c clock_second w m dirty
  Step-pending {c} {clock_second} {leds} {m} (event e r done) dirty =
      inl (ap publish_interval_is_dirty (event-sampling leds e m r done) ∙ dirty)
  Step-pending {c} {clock_second} {leds} {m} (put_sampling payload) dirty =
      inl (put-dirty c payload m.sampling dirty)
  Step-pending (put_status payload r done) dirty = inl dirty
  Step-pending (startup pending) dirty = inl dirty
  Step-pending (elapse t) dirty = inl dirty

  -- A turn of the run applies the interval.
  abbrev pub HasApplied :
      {c : Config} {clock_second : ℕ} {leds : Leds} {m m' : Mqtt timers random etimers}
      → Reach c clock_second leds m m'
      → Type 0
  HasApplied here = ⊥
  HasApplied (next before turn) = HasApplied before ⊎ IsApplied turn

  -- A changed interval is never forgotten: over any run, in whatever order requests, events, timers
  -- and wake-ups come, its flag stays set until a turn applies it: until the MQTT process, polled
  -- while the broker is connected, runs the publish timer with the interval then in force, and clears
  -- the flag.
  pub Reach-pending :
      {c : Config} {clock_second : ℕ} {leds : Leds} {m m' : Mqtt timers random etimers}
      (run : Reach c clock_second leds m m')
      → publish_interval_is_dirty m.sampling ≡ true
      → (publish_interval_is_dirty m'.sampling ≡ true) ⊎ HasApplied run
  Reach-pending here dirty = inl dirty
  Reach-pending (next before turn) dirty = elim (Reach-pending before dirty) [
    | inl still ↦ elim (Step-pending turn still) [ inl kept ↦ inl kept | inr now ↦ inr (inr now) ]
    | inr earlier ↦ inr (inl earlier)
  ]
