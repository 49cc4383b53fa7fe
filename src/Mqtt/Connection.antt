-- ===== src/Mqtt/Connection.antt =====
-- The connection's state machine: the attempts are bounded, and a connection that is never
-- acknowledged is given up and tried again.
use io_t_project.Prelude.{
  ℕ, ◌+◌, ◌<◌, ◌≡◌, refl, ap, ◌∙◌, inl, inr, Bool-cases, Bool, true, List, [], ◌∷◌, ◌++◌, arith,
}
use io_t_project.Calls.{Call, mqtt_connect, mqtt_disconnect}
use io_t_project.Config.{Config}
use io_t_project.Device.{Ctimer}
use io_t_project.Node.{have_connectivity}
use io_t_project.Sampling.{mqtt_keepalive_seconds}
use io_t_project.Telemetry.{Random}
use io_t_project.Mqtt.{
  Etimer, MqttState, init, connecting, connected, disconnected, Mqtt, Wake, apply_interval, connect,
  wait_connack, serve, on_expired, round,
}

module _ {timers : Ctimer} {random : Random} {etimers : Etimer} where
  -- While the node is connecting it has made fewer than four attempts.
  abbrev pub IsCounted : Mqtt timers random etimers → Type 0
  IsCounted m = m.mqtt_state ≡ connecting → m.connect_attempts < 4

  serve-IsCounted :
      (c : Config) (clock_second : ℕ) (w : Wake) (st : MqttState) (m : Mqtt timers random etimers)
      → m.mqtt_state ≡ st
      → IsCounted m
      → IsCounted (serve c clock_second w st m).0
  unfolding serve
  serve-IsCounted c clock_second w init m e h = ground arith
  serve-IsCounted c clock_second w disconnected m e h = ground arith
  serve-IsCounted c clock_second w connecting m e h = ground arith
  serve-IsCounted c clock_second w connected m e h = ground arith

  apply_interval-IsCounted :
      (clock_second : ℕ) (is_poll : Bool) (m : Mqtt timers random etimers)
      → IsCounted m
      → IsCounted (apply_interval clock_second is_poll m)
  unfolding apply_interval
  apply_interval-IsCounted clock_second is_poll m h = ground arith

  on_expired-IsCounted :
      (c : Config) (clock_second : ℕ) (w : Wake) (m : Mqtt timers random etimers)
      → IsCounted m
      → IsCounted (on_expired c clock_second w m).0
  unfolding on_expired
  on_expired-IsCounted c clock_second w m h = elim (Bool-cases (have_connectivity w.network)) [
    | inl e ↦ rw e (serve-IsCounted c clock_second w m.mqtt_state m refl h)
    | inr e ↦ rw e h
  ]

  -- A round keeps the number of connection attempts below four while connecting.
  pub round-IsCounted :
      (c : Config) (clock_second : ℕ) (w : Wake) (m : Mqtt timers random etimers)
      → IsCounted m
      → IsCounted (round c clock_second w m).0
  unfolding round
  round-IsCounted c clock_second w m h =
      let m' = apply_interval clock_second w.is_poll m in
      let h' = apply_interval-IsCounted clock_second w.is_poll m h in
      elim (Bool-cases (etimers.is_expired m'.pub_timer)) [
        | inl e ↦ rw e (on_expired-IsCounted c clock_second w m' h')
        | inr e ↦ rw e h'
      ]

  -- Rounds in which the timer has expired and the network is there, with their calls.
  unfoldable pub expirations :
      Config
      → (clock_second : ℕ) → List Wake
      → Mqtt timers random etimers
      → Mqtt timers random etimers × List Call
  expirations c clock_second [] m = (m, [])
  expirations c clock_second (w ∷ ws) m =
      let (m', calls) = on_expired c clock_second w m in
      let (m'', more) = expirations c clock_second ws m' in (m'', calls ++ more)

  pub wait_step :
      (c : Config) (clock_second : ℕ) (w : Wake) (m : Mqtt timers random etimers)
      → have_connectivity w.network ≡ true
      → m.mqtt_state ≡ connecting
      → on_expired c clock_second w m ≡ wait_connack clock_second m
  unfolding on_expired
  wait_step c clock_second w m up st = rw (up, st)

  pub connect_step :
      (c : Config) (clock_second : ℕ) (w : Wake) (m : Mqtt timers random etimers)
      → have_connectivity w.network ≡ true
      → m.mqtt_state ≡ disconnected
      → on_expired c clock_second w m ≡ connect clock_second m
  unfolding on_expired
  connect_step c clock_second w m up st = rw (up, st)

  connect_effect :
      (clock_second : ℕ) (m : Mqtt timers random etimers)
      → let (m', calls) = connect clock_second m in
        (m'.mqtt_state ≡ connecting)
        × (m'.connect_attempts ≡ 0)
        × (m'.sampling ≡ m.sampling)
        × (calls ≡ mqtt_connect (mqtt_keepalive_seconds m.sampling) ∷ [])
  unfolding connect
  connect_effect clock_second m = (refl, refl, refl, refl)

  pub wait_connack_effect :
      (clock_second : ℕ) (m : Mqtt timers random etimers)
      → m.connect_attempts < 4
      → let (m', calls) = wait_connack clock_second m in
        (m'.connect_attempts ≡ m.connect_attempts + 1)
        × (m'.sampling ≡ m.sampling)
        × (m.connect_attempts < 3 → (m'.mqtt_state ≡ m.mqtt_state) × (calls ≡ []))
        × (m.connect_attempts ≡ 3 → (m'.mqtt_state ≡ disconnected) × (calls ≡ mqtt_disconnect ∷ []))
  unfolding wait_connack
  wait_connack_effect clock_second m h = ground arith

  -- A node that has just begun to connect and hears nothing of the broker, while the network stays,
  -- waits for three expirations of its timer without a call, gives the connection up at the fourth,
  -- and connects anew at the fifth.
  pub connect_timeout :
      (c : Config) (clock_second : ℕ) (w1 w2 w3 w4 w5 : Wake) (m : Mqtt timers random etimers)
      → have_connectivity w1.network ≡ true
      → have_connectivity w2.network ≡ true
      → have_connectivity w3.network ≡ true
      → have_connectivity w4.network ≡ true
      → have_connectivity w5.network ≡ true
      → m.mqtt_state ≡ connecting
      → m.connect_attempts ≡ 0
      → let (m4, calls4) = expirations c clock_second (w1 ∷ w2 ∷ w3 ∷ w4 ∷ []) m in
        let (m5, calls5) = on_expired c clock_second w5 m4 in
        (m4.mqtt_state ≡ disconnected)
        × (calls4 ≡ mqtt_disconnect ∷ [])
        × (m5.mqtt_state ≡ connecting)
        × (m5.connect_attempts ≡ 0)
        × (calls5 ≡ mqtt_connect (mqtt_keepalive_seconds m.sampling) ∷ [])
  unfolding expirations
  connect_timeout c clock_second w1 w2 w3 w4 w5 m up1 up2 up3 up4 up5 st none_yet =
      let (n1, s1, go1, _) = wait_connack_effect clock_second m (omega arith) in
      let (st1, c1) = go1 (omega arith) in
      let m1 = (wait_connack clock_second m).0 in
      let (n2, s2, go2, _) = wait_connack_effect clock_second m1 (omega arith) in
      let (st2, c2) = go2 (omega arith) in
      let m2 = (wait_connack clock_second m1).0 in
      let (n3, s3, go3, _) = wait_connack_effect clock_second m2 (omega arith) in
      let (st3, c3) = go3 (omega arith) in
      let m3 = (wait_connack clock_second m2).0 in
      let (n4, s4, _, stop4) = wait_connack_effect clock_second m3 (omega arith) in
      let (st4, c4) = stop4 (omega arith) in
      let m4 = (wait_connack clock_second m3).0 in
      let (st5, n5, _, c5) = connect_effect clock_second m4 in
      let same : m4.sampling ≡ m.sampling = s4 ∙ (s3 ∙ (s2 ∙ s1)) in
      rw
        (
          wait_step c clock_second w1 m up1 st,
          wait_step c clock_second w2 m1 up2 (st1 ∙ st),
          wait_step c clock_second w3 m2 up3 (st2 ∙ (st1 ∙ st)),
          wait_step c clock_second w4 m3 up4 (st3 ∙ (st2 ∙ (st1 ∙ st))),
          connect_step c clock_second w5 m4 up5 st4,
          c1,
          c2,
          c3,
          c4,
        )
        (st4, refl, st5, n5, c5 ∙ ap (λ s. mqtt_connect (mqtt_keepalive_seconds s) ∷ []) same)
