-- ===== src/Mqtt/Rounds.antt =====
-- What one round of the MQTT process does with its timer, a new interval and a publication.
use io_t_project.Prelude.{
  ℕ, ◌+◌, ◌*◌, ◌≡◌, refl, ◌∙◌, leb, ◌%◌, inl, inr, Bool-cases, Bool, true, false, ◌&&◌, List, [],
  ◌∷◌, arith,
}
use io_t_project.Calls.{Call, mqtt_publish}
use io_t_project.Config.{Config}
use io_t_project.Device.{Ctimer}
use io_t_project.Node.{have_connectivity}
use io_t_project.Sampling.{
  get_publish_interval_ms, publish_interval_to_ticks, publish_interval_is_dirty,
}
use io_t_project.Telemetry.{Random}
use io_t_project.Mqtt.{
  Etimer, MqttState, init, connecting, connected, disconnected, Mqtt, Wake, apply_interval,
  wait_connack, publish, serve, on_expired, round, is_connected,
}

-- Some call of the list publishes.
abbrev pub Publishes : List Call → Type 0
Publishes [] = ⊥
Publishes (mqtt_publish payload ∷ calls) = Unit
Publishes (_ ∷ calls) = Publishes calls

module _ {timers : Ctimer} {random : Random} {etimers : Etimer} where
  wait_connack_quiet :
      (clock_second : ℕ) (m : Mqtt timers random etimers)
      → Publishes (wait_connack clock_second m).1
      → ⊥
  unfolding wait_connack
  wait_connack_quiet clock_second m h = elim (Bool-cases (leb 4 ((m.connect_attempts + 1) % 256))) [
    | inl e ↦ rw e at h
    | inr e ↦ rw e at h
  ]

  publish_unready :
      (c : Config) (clock_second : ℕ) (w : Wake) (m : Mqtt timers random etimers)
      → w.is_ready ≡ false
      → Publishes (publish c clock_second w m).1
      → ⊥
  unfolding publish
  publish_unready c clock_second w m e h = rw e at h

  apply_interval-mqtt_state :
      (clock_second : ℕ) (is_poll : Bool) (m : Mqtt timers random etimers)
      → m.mqtt_state ≡ (apply_interval clock_second is_poll m).mqtt_state
  unfolding apply_interval
  apply_interval-mqtt_state clock_second is_poll m = ground arith

  serve_rearms :
      (c : Config) (clock_second : ℕ) (w : Wake) (st : MqttState) (m : Mqtt timers random etimers)
      → etimers.is_expired (serve c clock_second w st m).0.pub_timer ≡ false
  unfolding serve
  serve_rearms c clock_second w init m = etimers.is_expired-set _ _
  serve_rearms c clock_second w disconnected m = etimers.is_expired-set _ _
  serve_rearms c clock_second w connecting m =
      ground (arith, etimers.is_expired-set (5 * clock_second) m.pub_timer)
  serve_rearms c clock_second w connected m = ground (
    arith,
    etimers.is_expired-set clock_second m.pub_timer,
    etimers.is_expired-set
        (publish_interval_to_ticks clock_second (get_publish_interval_ms m.sampling)) m.pub_timer,
  )

  on_expired_rearms :
      (c : Config) (clock_second : ℕ) (w : Wake) (m : Mqtt timers random etimers)
      → etimers.is_expired (on_expired c clock_second w m).0.pub_timer ≡ false
  unfolding on_expired
  on_expired_rearms c clock_second w m = elim (Bool-cases (have_connectivity w.network)) [
    | inl e ↦ rw e (serve_rearms c clock_second w m.mqtt_state m)
    | inr e ↦ rw e (etimers.is_expired-reset m.pub_timer)
  ]

  -- On every path through a round the publish timer is running again at its end: the loop neither
  -- stops nor spins.
  pub round_rearms :
      (c : Config) (clock_second : ℕ) (w : Wake) (m : Mqtt timers random etimers)
      → etimers.is_expired (round c clock_second w m).0.pub_timer ≡ false
  unfolding round
  round_rearms c clock_second w m =
      elim (Bool-cases (etimers.is_expired (apply_interval clock_second w.is_poll m).pub_timer)) [
        | inl e ↦
            rw e (on_expired_rearms c clock_second w (apply_interval clock_second w.is_poll m))
        | inr e ↦ rw e e
      ]

  -- A round that a poll wakes while the interval is dirty and the broker connected makes no call: it
  -- clears the flag, sets the timer to the new interval, whether or not it had expired, and leaves
  -- the interval, the connection's state and the sensor as they are.
  pub round-dirty :
      (c : Config) (clock_second : ℕ) (w : Wake) (m : Mqtt timers random etimers)
      → w.is_poll ≡ true
      → publish_interval_is_dirty m.sampling ≡ true
      → m.mqtt_state ≡ connected
      → let (m', calls) = round c clock_second w m in
        (calls ≡ [])
        × (publish_interval_is_dirty m'.sampling ≡ false)
        × (get_publish_interval_ms m'.sampling ≡ get_publish_interval_ms m.sampling)
        × (m'.pub_timer
            ≡ etimers.set
                (publish_interval_to_ticks clock_second (get_publish_interval_ms m.sampling))
                m.pub_timer)
        × (m'.mqtt_state ≡ connected)
        × (m'.sensor ≡ m.sensor)
  unfolding round
  round-dirty c clock_second w m poll dirty conn =
      let test : (w.is_poll && (publish_interval_is_dirty m.sampling && is_connected m.mqtt_state))
          ≡ true =
        rw (poll, dirty, conn) refl in
      let ticks = publish_interval_to_ticks clock_second (get_publish_interval_ms m.sampling) in
      rw (test, etimers.is_expired-set ticks m.pub_timer) (refl, refl, refl, refl, conn, refl)

  serve-Publishes :
      (c : Config) (clock_second : ℕ) (w : Wake) (st : MqttState) (m : Mqtt timers random etimers)
      → Publishes (serve c clock_second w st m).1
      → (st ≡ connected) × (w.is_ready ≡ true)
  unfolding serve
  serve-Publishes c clock_second w init m h = absurd h
  serve-Publishes c clock_second w disconnected m h = absurd h
  serve-Publishes c clock_second w connecting m h = absurd (wait_connack_quiet clock_second m h)
  serve-Publishes c clock_second w connected m h = elim (Bool-cases w.is_ready) [
    | inl e ↦ (refl, e)
    | inr e ↦ absurd (publish_unready c clock_second w m e h)
  ]

  on_expired-Publishes :
      (c : Config) (clock_second : ℕ) (w : Wake) (m : Mqtt timers random etimers)
      → Publishes (on_expired c clock_second w m).1
      → (m.mqtt_state ≡ connected) × (w.is_ready ≡ true) × (have_connectivity w.network ≡ true)
  unfolding on_expired
  on_expired-Publishes c clock_second w m h = elim (Bool-cases (have_connectivity w.network)) [
    | inl e ↦
        let (st, ready) = serve-Publishes c clock_second w m.mqtt_state m (rw e at h) in
        (st, ready, e)
    | inr e ↦ absurd (rw e at h)
  ]

  -- A round publishes only in the connected state, with network connectivity and a ready MQTT stack.
  pub round-Publishes :
      (c : Config) (clock_second : ℕ) (w : Wake) (m : Mqtt timers random etimers)
      → Publishes (round c clock_second w m).1
      → (m.mqtt_state ≡ connected) × (w.is_ready ≡ true) × (have_connectivity w.network ≡ true)
  unfolding round
  round-Publishes c clock_second w m h =
      let m' = apply_interval clock_second w.is_poll m in
      elim (Bool-cases (etimers.is_expired m'.pub_timer)) [
        | inl e ↦
            let (st, ready, up) = on_expired-Publishes c clock_second w m' (rw e at h) in
            (apply_interval-mqtt_state clock_second w.is_poll m ∙ st, ready, up)
        | inr e ↦ absurd (rw e at h)
      ]
