-- ===== src/Mqtt/Linked.antt =====
-- A wake-up of the MQTT process, and an event, against the automaton of Link.
use io_t_project.Prelude.{
  ℕ, ◌+◌, ◌%◌, ◌<◌, ◌≡◌, refl, sym, ap, inl, inr, Bool-cases, true, false, some, List, [], ◌∷◌,
  ◌&&◌, leb, if◌then◌else◌, >>=-eq-some, arith,
}
use mathlib.Core.Option.{some-injective}
use io_t_project.Calls.{Call, mqtt_connect, mqtt_disconnect}
use io_t_project.Config.{Config}
use io_t_project.Device.{Ctimer}
use io_t_project.Link.{
  Link, down, up, asked, News, connack, lost, chance, nothing, next_link, Ask, dial, hang_up, asks,
}
use io_t_project.Mqtt.{
  Etimer, MqttState, init, connecting, connected, disconnected, MqttEvent, connected_event,
  disconnected_event, suback_event, puback_event, other_event, publish_event, Mqtt, Wake,
  is_connected, apply_interval, serve, on_expired, round, mqtt_event_handler, wait_connack,
}
use io_t_project.Mqtt.Connection.{IsCounted}
use io_t_project.Node.{have_connectivity}
use io_t_project.Resources.Leds.{Leds, mqtt_led_command}
use io_t_project.Sampling.{
  publish_interval_is_dirty, get_publish_interval_ms, publish_interval_to_ticks,
}
use io_t_project.Telemetry.{Random, publish_telemetry}

-- The connection calls among some calls.
unfoldable pub connection_asks : List Call → List Ask
connection_asks [] = []
connection_asks (mqtt_connect keepalive ∷ calls) = dial ∷ connection_asks calls
connection_asks (mqtt_disconnect ∷ calls) = hang_up ∷ connection_asks calls
connection_asks (_ ∷ calls) = connection_asks calls

abbrev pub link_of : MqttState → (attempts : ℕ) → Link
link_of init attempts = down
link_of disconnected attempts = down
link_of connecting attempts = asked attempts
link_of connected attempts = up

unfoldable pub news_of_event : MqttEvent → News
news_of_event connected_event = connack
news_of_event disconnected_event = lost
news_of_event e = nothing

pub event_asks : (e : MqttEvent) (l : Link) → [] ≡ asks (news_of_event e) l
unfolding asks news_of_event
event_asks connected_event l = refl
event_asks disconnected_event l = refl
event_asks suback_event l = refl
event_asks puback_event l = refl
event_asks other_event l = refl
event_asks (publish_event chunk) l = refl

module _ {timers : Ctimer} {random : Random} {etimers : Etimer} where
  abbrev pub link : Mqtt timers random etimers → Link
  link m = link_of m.mqtt_state m.connect_attempts

  -- A wake-up can act if the timer has expired and the network is there.
  unfoldable pub news_of_wake : Wake → Mqtt timers random etimers → News
  unfolding have_connectivity
  news_of_wake w m =
      if etimers.is_expired m.pub_timer && have_connectivity w.network then chance else nothing

  -- The link moves for this news, and what is asked for is asked.
  abbrev pub Follows :
      News → Mqtt timers random etimers → Mqtt timers random etimers × List Call → Type 0
  Follows news m r =
      (link r.0 ≡ next_link news (link m)) × (connection_asks r.1 ≡ asks news (link m))

  wait_connack-Follows :
      (clock_second : ℕ) (m : Mqtt timers random etimers)
      → m.mqtt_state ≡ connecting
      → m.connect_attempts < 4
      → Follows chance m (wait_connack clock_second m)
  unfolding wait_connack connection_asks next_link asks
  wait_connack-Follows clock_second m e h = elim (Bool-cases (leb 3 m.connect_attempts)) [
    | inl last ↦
        let full : leb 4 ((m.connect_attempts + 1) % 256) ≡ true = ground arith in
        rw (e, last, full) (refl, refl)
    | inr more ↦
        let room : leb 4 ((m.connect_attempts + 1) % 256) ≡ false = ground arith in
        let up_one : (m.connect_attempts + 1) % 256 ≡ m.connect_attempts + 1 = omega arith in
        rw (e, more, room) (ap asked up_one, refl)
  ]

  serve-Follows :
      (c : Config) (clock_second : ℕ) (w : Wake) (st : MqttState) (m : Mqtt timers random etimers)
      → m.mqtt_state ≡ st
      → IsCounted m
      → Follows chance m (serve c clock_second w st m)
  unfolding serve connection_asks next_link asks publish_telemetry
  serve-Follows c clock_second w init m e h = rw e (refl, refl)
  serve-Follows c clock_second w disconnected m e h = rw e (refl, refl)
  serve-Follows c clock_second w connecting m e h = wait_connack-Follows clock_second m e (h e)
  serve-Follows c clock_second w connected m e h = elim (Bool-cases w.is_ready) [
    | inl ready ↦ rw (ready, e) (refl, refl)
    | inr busy ↦ rw (busy, e) (refl, refl)
  ]

  on_expired-Follows :
      (c : Config) (clock_second : ℕ) (w : Wake) (m : Mqtt timers random etimers)
      → IsCounted m
      → Follows
          (if have_connectivity w.network then chance else nothing)
          m
          (on_expired c clock_second w m)
  unfolding on_expired connection_asks next_link asks
  on_expired-Follows c clock_second w m h = elim (Bool-cases (have_connectivity w.network)) [
    | inl e ↦ rw e (serve-Follows c clock_second w m.mqtt_state m refl h)
    | inr e ↦ rw e (refl, refl)
  ]

  up_stays :
      (w : Wake) (m : Mqtt timers random etimers)
      → (next_link (news_of_wake w m) up ≡ up) × (asks (news_of_wake w m) up ≡ [])
  unfolding news_of_wake next_link asks
  up_stays w m = elim (Bool-cases (etimers.is_expired m.pub_timer && have_connectivity w.network)) [
    | inl e ↦ rw e (refl, refl)
    | inr e ↦ rw e (refl, refl)
  ]

  connected_up :
      (m : Mqtt timers random etimers) → is_connected m.mqtt_state ≡ true → m.mqtt_state ≡ connected
  connected_up m h = ground arith

  pub round-Follows :
      (c : Config) (clock_second : ℕ) (w : Wake) (m : Mqtt timers random etimers)
      → IsCounted m
      → Follows (news_of_wake w m) m (round c clock_second w m)
  unfolding round apply_interval connection_asks next_link asks news_of_wake
  round-Follows c clock_second w m h =
      let ticks = publish_interval_to_ticks clock_second (get_publish_interval_ms m.sampling) in
      elim (Bool-cases
        (w.is_poll && (publish_interval_is_dirty m.sampling && is_connected m.mqtt_state))) [
          | inl applied ↦
              let at : m.mqtt_state ≡ connected = connected_up m (ground arith) in
              let (still, silent) = up_stays w m in
              rw (applied, etimers.is_expired-set ticks m.pub_timer, at) (sym still, sym silent)
          | inr skipped ↦ elim (Bool-cases (etimers.is_expired m.pub_timer)) [
            | inl e ↦ rw (skipped, e) (on_expired-Follows c clock_second w m h)
            | inr e ↦ rw (skipped, e) (refl, refl)
          ]
        ]

  pub event-Follows :
      (leds : Leds) (e : MqttEvent) (m : Mqtt timers random etimers)
      (r : Mqtt timers random etimers × List Call)
      → mqtt_event_handler leds e m ≡ some r
      → link r.0 ≡ next_link (news_of_event e) (link m)
  unfolding mqtt_event_handler next_link news_of_event
  event-Follows leds connected_event m r e = ap (λ t. link t.0) (sym (some-injective _ _ e))
  event-Follows leds disconnected_event m r e = ap (λ t. link t.0) (sym (some-injective _ _ e))
  event-Follows leds suback_event m r e = ap (λ t. link t.0) (sym (some-injective _ _ e))
  event-Follows leds puback_event m r e = ap (λ t. link t.0) (sym (some-injective _ _ e))
  event-Follows leds other_event m r e = ap (λ t. link t.0) (sym (some-injective _ _ e))
  event-Follows leds (publish_event chunk) m r e =
      let (calls, made, rest) = >>=-eq-some (mqtt_led_command leds chunk) _ e in
      ap (λ t. link t.0) (sym (some-injective _ _ rest))
