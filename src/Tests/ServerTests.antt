-- ===== src/Tests/ServerTests.antt =====
-- Requests to the CoAP servers.
use io_t_project.Prelude.{◌≤◌, ◌≡◌, ◌↔◌, refl, true, false, some, List, [], ◌∷◌, codes}
use io_t_project.Battery.Floats.{hundredths}
use io_t_project.Battery.State.{initial, res_put_battery_handler}
use io_t_project.Calls.{Call, AllInBounds, AllLasting, changed_2_04}
use io_t_project.Coap.{reply}
use io_t_project.Config.{diesel, diesel-IsConfig}
use io_t_project.Device.{countdown}
use io_t_project.Mqtt.{start, stopwatch}
use io_t_project.Resources.Leds.{has_nul}
use io_t_project.Resources.Status
use io_t_project.Server.{Request, first_match, first_route, same_bytes}
use io_t_project.Server.BatteryNode
use io_t_project.Server.BatteryNode.{serve_all}
use io_t_project.Server.BatteryRuns.{serve_all-override}
use io_t_project.Server.Lifetimes.{PassesLocal}
use io_t_project.Server.Producer
use io_t_project.Server.Producer.{Producer, serve, server_event}
use io_t_project.Server.ProducerRuns.{none_yet, then_turn, request, Turns-IsAnswered}
use io_t_project.System.{IsSound}
use io_t_project.Tests.Samples.{put_battery, lcg, node_leds, warming_node}

abbrev put_override : Request
put_override = record put_battery {
  path = codes "actuators/battery/override";
  payload = some (codes "0");
}

serve_all-override_example : false ≡ false
unfolding serve_all first_route same_bytes BatteryNode.activated res_put_battery_handler initial
serve_all-override_example =
    serve_all-override hundredths first_match (put_override ∷ []) (initial hundredths)
      (initial hundredths, []) refl

abbrev put_status : Request
put_status = record put_battery { path = codes "actuators/status"; payload = some (codes "on") }

-- A PUT of the interval, which is taken and echoed from an array of its handler.
abbrev put_interval : Request
put_interval = record put_battery {
  path = codes "actuators/sampling";
  payload = some (codes "5000");
}

Turns-IsAnswered_example :
    (r : Producer countdown lcg stopwatch × List Call) × (serve diesel 128 node_leds first_match
        true put_interval
        (record { mqtt = warming_node; event_counter = 0 })
      ≡ some r)
    × IsSound diesel r.0.mqtt
    × (27 ≤ 64 → AllInBounds r.1)
    × (AllLasting r.1 ↔ ¬ PassesLocal (some Producer.sampling_put) put_interval.payload)
unfolding has_nul serve start Status.res_put_handler first_route same_bytes Producer.activated
Turns-IsAnswered_example =
    Turns-IsAnswered diesel 128 node_leds first_match true (0, false) 7 put_interval (λ _. refl)
      diesel-IsConfig
      (then_turn none_yet (
        request put_status
          (record { mqtt = warming_node; event_counter = 0 }, reply changed_2_04 "starting" 8)
          refl))
