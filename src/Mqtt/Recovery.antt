-- ===== src/Mqtt/Recovery.antt =====
-- A node that is not connected asks for a connection again within a bounded number of timer
-- expirations, from any state that it can be in.
use io_t_project.Prelude.{
  ℕ, ◌-◌, ◌≤◌, ◌<◌, ◌≡◌, refl, ◌∙◌, ◌≢◌, ◌⊎◌, inl, inr, true, List, [], ◌∷◌, ◌++◌, length, All,
  arith,
}
use io_t_project.Calls.{Call, mqtt_connect}
use io_t_project.Config.{Config}
use io_t_project.Device.{Ctimer}
use io_t_project.Node.{have_connectivity}
use io_t_project.Telemetry.{Random}
use io_t_project.Mqtt.{
  Etimer, MqttState, init, connecting, connected, disconnected, Mqtt, Wake, connect, wait_connack,
  on_expired,
}
use io_t_project.Mqtt.Connection.{
  IsCounted, expirations, wait_step, connect_step, wait_connack_effect,
}

-- Some call of the list asks the broker for a connection.
abbrev pub Connects : List Call → Type 0
Connects [] = ⊥
Connects (mqtt_connect keepalive ∷ calls) = Unit
Connects (_ ∷ calls) = Connects calls

Connects-append : (calls more : List Call) → Connects more → Connects (calls ++ more)
Connects-append [] more h = h
Connects-append (mqtt_connect keepalive ∷ calls) more h = tt
Connects-append (call ∷ calls) more h = Connects-append calls more h

-- The expirations that a node waits at most, the one that connects included.
abbrev waits : MqttState → (attempts : ℕ) → ℕ
waits connecting attempts = 5 - attempts
waits _ attempts = 1

module _ {timers : Ctimer} {random : Random} {etimers : Etimer} where
  connect_first :
      (c : Config) (clock_second : ℕ) (w : Wake) (m : Mqtt timers random etimers)
      → have_connectivity w.network ≡ true
      → m.mqtt_state ≡ init
      → on_expired c clock_second w m ≡ connect clock_second m
  unfolding on_expired
  connect_first c clock_second w m up st = rw (up, st)

  connect-Connects :
      (clock_second : ℕ) (m : Mqtt timers random etimers) (more : List Call)
      → Connects ((connect clock_second m).1 ++ more)
  unfolding connect
  connect-Connects clock_second m more = tt

  reconnects_from :
      (c : Config) (clock_second : ℕ) (ws : List Wake) (m : Mqtt timers random etimers)
      (st : MqttState)
      → m.mqtt_state ≡ st
      → st ≢ connected
      → (st ≡ connecting → m.connect_attempts < 4)
      → All (λ w. have_connectivity w.network ≡ true) ws
      → waits st m.connect_attempts ≤ length ws
      → Connects (expirations c clock_second ws m).1
  unfolding expirations
  reconnects_from c clock_second ws m connected e other counted up long = absurd (other refl)
  reconnects_from c clock_second [] m init e other counted up long = absurd (omega arith)
  reconnects_from c clock_second [] m disconnected e other counted up long = absurd (omega arith)
  reconnects_from c clock_second [] m connecting e other counted up long =
      let few = counted refl in absurd (omega arith)
  reconnects_from c clock_second (w ∷ ws) m init e other counted up long =
      rw (connect_first c clock_second w m up.0 e) (connect-Connects clock_second m _)
  reconnects_from c clock_second (w ∷ ws) m disconnected e other counted up long =
      rw (connect_step c clock_second w m up.0 e) (connect-Connects clock_second m _)
  reconnects_from c clock_second (w ∷ ws) m connecting e other counted up long =
      let few = counted refl in
      let m' = (wait_connack clock_second m).0 in
      let (more, _, stays, stops) = wait_connack_effect clock_second m few in
      rw (wait_step c clock_second w m up.0 e) (
        Connects-append (wait_connack clock_second m).1 _ (elim (last_or_not few) [
          | inl early ↦
              reconnects_from c clock_second ws m' connecting ((stays early).0 ∙ e) other
                (λ _. omega arith) up.1 (omega arith)
          | inr late ↦
              reconnects_from c clock_second ws m' disconnected (stops late).0 (λ f. cc)
                (λ f. absurd (not_connecting f)) up.1 (omega arith)
        ]))
    where
      last_or_not : {n : ℕ} → n < 4 → n < 3 ⊎ n ≡ 3
      last_or_not few = omega arith

      not_connecting : disconnected ≡ connecting → ⊥
      not_connecting f = cc

  -- While the network stays, a node that is not connected and hears nothing of the broker, in any state
  -- with its attempts counted, asks for a connection within five expirations of its timer.
  pub reconnects :
      (c : Config) (clock_second : ℕ) (ws : List Wake) (m : Mqtt timers random etimers)
      → m.mqtt_state ≢ connected
      → IsCounted m
      → All (λ w. have_connectivity w.network ≡ true) ws
      → 5 ≤ length ws
      → Connects (expirations c clock_second ws m).1
  reconnects c clock_second ws m other counted up long =
      reconnects_from c clock_second ws m m.mqtt_state refl other counted up
        (at_most m.mqtt_state long)
    where
      at_most : (st : MqttState) → 5 ≤ length ws → waits st m.connect_attempts ≤ length ws
      at_most init h = omega arith
      at_most connecting h = omega arith
      at_most connected h = omega arith
      at_most disconnected h = omega arith
