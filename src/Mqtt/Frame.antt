-- ===== src/Mqtt/Frame.antt =====
-- What a round of the MQTT process and an MQTT event leave alone.
use io_t_project.Prelude.{ℕ, ◌≡◌, refl, ◌∙◌, ◌⊎◌, inl, inr, Bool-cases, Bool, arith}
use io_t_project.Config.{Config}
use io_t_project.Device.{Ctimer}
use io_t_project.Node.{have_connectivity}
use io_t_project.Sampling.{get_publish_interval_ms}
use io_t_project.Telemetry.{Random, Moment, publish_telemetry}
use io_t_project.Mqtt.{
  Etimer, MqttState, init, connecting, connected, disconnected, Mqtt, Wake, apply_interval,
  moment_of, serve, on_expired, round,
}

module _ {timers : Ctimer} {random : Random} {etimers : Etimer} where
  -- The interval is kept, and the sensor is as it was or has published once.
  abbrev pub IsFramed : Config → Mqtt timers random etimers → Mqtt timers random etimers → Type 0
  IsFramed c m m' =
      (get_publish_interval_ms m'.sampling ≡ get_publish_interval_ms m.sampling)
      × (m'.sensor ≡ m.sensor ⊎ ((at : Moment) × (m'.sensor ≡ (publish_telemetry c at m.sensor).0)))

  serve-IsFramed :
      (c : Config) (clock_second : ℕ) (w : Wake) (st : MqttState) (m : Mqtt timers random etimers)
      → IsFramed c m (serve c clock_second w st m).0
  unfolding serve
  serve-IsFramed c clock_second w init m = (refl, inl refl)
  serve-IsFramed c clock_second w disconnected m = (refl, inl refl)
  serve-IsFramed c clock_second w connecting m = (ground arith, inl (ground arith))
  serve-IsFramed c clock_second w connected m = elim (Bool-cases w.is_ready) [
    | inl e ↦ rw e (refl, inr (moment_of w m, refl))
    | inr e ↦ rw e (refl, inl refl)
  ]

  pub apply_interval-IsFramed :
      (clock_second : ℕ) (is_poll : Bool) (m : Mqtt timers random etimers)
      → let m' = apply_interval clock_second is_poll m in
        (get_publish_interval_ms m'.sampling ≡ get_publish_interval_ms m.sampling)
        × (m'.sensor ≡ m.sensor)
  unfolding apply_interval
  apply_interval-IsFramed clock_second is_poll m = ground arith

  on_expired-IsFramed :
      (c : Config) (clock_second : ℕ) (w : Wake) (m : Mqtt timers random etimers)
      → IsFramed c m (on_expired c clock_second w m).0
  unfolding on_expired
  on_expired-IsFramed c clock_second w m = elim (Bool-cases (have_connectivity w.network)) [
    | inl e ↦ rw e (serve-IsFramed c clock_second w m.mqtt_state m)
    | inr e ↦ rw e (refl, inl refl)
  ]

  -- A round keeps the publish interval, and leaves the sensor as it was or publishes once.
  pub round-IsFramed :
      (c : Config) (clock_second : ℕ) (w : Wake) (m : Mqtt timers random etimers)
      → IsFramed c m (round c clock_second w m).0
  unfolding round
  round-IsFramed c clock_second w m =
      let m' = apply_interval clock_second w.is_poll m in
      let (same, sensor) = apply_interval-IsFramed clock_second w.is_poll m in
      elim (Bool-cases (etimers.is_expired m'.pub_timer)) [
        | inl e ↦
            let (kept, published) = on_expired-IsFramed c clock_second w m' in
            rw e (
              kept ∙ same,
              elim published [ inl f ↦ inl (f ∙ sensor) | inr (at, f) ↦ inr (at, f ∙ rw sensor) ],
            )
        | inr e ↦ rw e (same, inl sensor)
      ]
