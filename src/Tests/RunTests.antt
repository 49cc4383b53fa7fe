-- ===== src/Tests/RunTests.antt =====
-- Runs of a diesel node that connects and publishes, and what its messages say.
use io_t_project.Prelude.{◌⊎◌, ◌≡◌, refl, true, false, some, [], ◌∷◌, Bytes, codes, length, arith}
use io_t_project.Mqtt.Linked.{link, news_of_wake}
use io_t_project.Link.{next_link, dial, asks}
use io_t_project.System.Session.{link_after, asks_after, asked_in, news_of, Reach-connects}
use io_t_project.Calls.{mqtt_publish, process_poll, changed_2_04}
use io_t_project.Coap.{reply}
use io_t_project.Telemetry.Fits.{IsMoment}
use io_t_project.Mqtt.Published.{messages}
use io_t_project.Config.{diesel, diesel-IsConfig, solar, solar-IsConfig}
use io_t_project.Sampling.{publish_interval_is_dirty}
use io_t_project.Device.{countdown, startup_complete}
use io_t_project.Mqtt.{
  Mqtt, connected, start, stopwatch, connected_event, mqtt_event_handler, round,
}
use io_t_project.Mqtt.Connection.{expirations}
use io_t_project.Mqtt.Recovery.{Connects, reconnects}
use io_t_project.Node.{get_node_ip, have_connectivity}
use io_t_project.Power.{powered_on, powered_off, view}
use io_t_project.System.{Reach, here, next, event, elapse, wake, put_status, startup}
use io_t_project.System.Pending.{HasApplied, Reach-pending}
use io_t_project.System.Sent.{IsTidy, sent}
use io_t_project.System.Refinement.{power_after, Reach-refines}
use io_t_project.Resources.Status.{res_put_handler}
use io_t_project.Telemetry.{publish_telemetry, status_text, to_ms}
use io_t_project.Telemetry.Decode.{decode, fields_of, decode-publish_telemetry}
use io_t_project.Telemetry.Shutdown.{reading_of}
use io_t_project.Tests.Samples.{
  normal_interval, lcg, node_leds, cold_sensor, warming, cold_node, warming_node, connecting_node,
  polled, noon, running_sensor,
}

abbrev acknowledged : Mqtt countdown lcg stopwatch
acknowledged = record cold_node { mqtt_state = connected; mqtt_subscribed = true }

abbrev expired : Mqtt countdown lcg stopwatch
expired = record acknowledged { pub_timer = (640, true) }

-- The broker acknowledges the connection, the timer expires, and the node publishes.
abbrev publishing_run :
    Reach diesel 128 node_leds
      (start {timers = countdown} {random = lcg} {etimers = stopwatch} diesel 128 (0, false) 7)
      (round diesel 128 polled expired).0
unfolding start mqtt_event_handler
publishing_run =
    next
      (next (next here (event connected_event (acknowledged, process_poll ∷ []) refl))
        (elapse (640, true)))
      (wake polled)

polled-IsTidy : IsTidy polled
unfolding get_node_ip
polled-IsTidy = record {
  id_short = omega arith;
  id_plain = omega arith;
  network_ok = omega arith;
  address_plain = omega arith;
}

abbrev late : Mqtt countdown lcg stopwatch
late = record cold_node { pub_timer = (640, true) }

-- The timer expires, and the node asks for a connection.
abbrev dialling_run :
    Reach diesel 128 node_leds
      (start {timers = countdown} {random = lcg} {etimers = stopwatch} diesel 128 (0, false) 7)
      (round diesel 128 polled late).0
unfolding start
dialling_run = next (next here (elapse (640, true))) (wake polled)

Reach-connects_example :
    (link (round diesel 128 polled late).0 ≡ link_after dialling_run)
    × (asked_in dialling_run ≡ asks_after dialling_run)
unfolding dialling_run
Reach-connects_example = Reach-connects (0, false) 7 dialling_run diesel-IsConfig

dials_once : asks_after dialling_run ≡ dial ∷ []
unfolding asks_after link_after news_of next_link asks news_of_wake have_connectivity dialling_run
dials_once = refl

one_message : length (sent publishing_run) ≡ 1
unfolding sent round publish_telemetry messages publishing_run
one_message = refl

-- A PUT of on, and the startup timer.
abbrev starting_run :
    Reach diesel 128 node_leds
      (start {timers = countdown} {random = lcg} {etimers = stopwatch} diesel 128 (0, false) 7)
      (record warming_node {
        sensor = record cold_sensor { device = startup_complete {timers = countdown} warming };
      })
unfolding start res_put_handler
starting_run =
    next
      (next here (put_status (some (codes "on")) (warming, reply changed_2_04 "starting" 8) refl))
      (startup refl)

Reach-refines_example : powered_on ≡ power_after starting_run powered_off
unfolding startup_complete view
Reach-refines_example = Reach-refines (0, false) 7 starting_run diesel-IsConfig

reconnects_example :
    Connects
      (expirations diesel 128 (polled ∷ polled ∷ polled ∷ polled ∷ polled ∷ []) connecting_node).1
unfolding have_connectivity
reconnects_example =
    reconnects diesel 128 (polled ∷ polled ∷ polled ∷ polled ∷ polled ∷ []) connecting_node
      (λ e. cc) (λ e. omega arith) (refl, (refl, (refl, (refl, (refl, tt))))) (omega arith)

noon-IsMoment : IsMoment solar noon
noon-IsMoment = omega arith

decode-publish_telemetry_example :
    (payload : Bytes) × ((publish_telemetry solar noon running_sensor).1
      ≡ mqtt_publish payload ∷ [])
    × (decode payload
        ≡ some (
            fields_of solar noon.id
              (get_node_ip noon.network)
              41
              (reading_of solar running_sensor)
              5000
              (to_ms 43200)
              (status_text true false)))
unfolding get_node_ip
decode-publish_telemetry_example =
    decode-publish_telemetry noon running_sensor solar-IsConfig noon-IsMoment (omega arith)
      (omega arith) (omega arith) (omega arith)

abbrev unconnected_dirty : Mqtt countdown lcg stopwatch
unconnected_dirty = record connecting_node {
  sampling = record normal_interval { publish_interval_dirty = true };
}

abbrev connected_dirty : Mqtt countdown lcg stopwatch
connected_dirty = record unconnected_dirty { mqtt_state = connected; mqtt_subscribed = true }

-- A changed interval that is applied when the broker has acknowledged the connection.
abbrev applying_run :
    Reach diesel 128 node_leds unconnected_dirty (round diesel 128 polled connected_dirty).0
unfolding mqtt_event_handler
applying_run =
    next (next here (event connected_event (connected_dirty, process_poll ∷ []) refl)) (wake polled)

Reach-pending_example :
    (publish_interval_is_dirty (round diesel 128 polled connected_dirty).0.sampling ≡ true)
    ⊎ HasApplied applying_run
unfolding publish_interval_is_dirty
Reach-pending_example = Reach-pending applying_run refl
