-- ===== src/Tests/SwitchTests.antt =====
-- The LEDs of a node with its server.
use io_t_project.Prelude.{◌≡◌, refl, true, none, [], ◌∷◌, codes}
use io_t_project.Board.{Board, Life, unmoved, then_move, device, device_calls, register_calls}
use io_t_project.Board.Switches.{switched_by_life, Life-switches}
use io_t_project.Calls.{leds_on, leds_off}
use io_t_project.Config.{diesel}
use io_t_project.Device.{countdown}
use io_t_project.Mqtt.{stopwatch, publish_event, mqtt_event_handler}
use io_t_project.Node.{node_id}
use io_t_project.Registration.Process.{waiting}
use io_t_project.Resources.Leds.{mqtt_led_command, res_post_put_handler}
use io_t_project.Resources.Leds.Table.{asked}
use io_t_project.Server.{Request, first_match, first_route, same_bytes}
use io_t_project.Server.Producer.{Producer, activated, serve}
use io_t_project.Server.ProducerRuns.{request, inner}
use io_t_project.System.{event}
use io_t_project.System.Switches.{switches, switched_by_message}
use io_t_project.Tests.Samples.{lcg, node_leds, cold_node, put_battery}

abbrev put_leds : Request
put_leds = record put_battery {
  path = codes "actuators/leds";
  payload = none;
  color = codes "g";
  mode = codes "on";
  behind_mode = 0 ∷ [];
}

abbrev cold_producer : Producer countdown lcg stopwatch
cold_producer = record { mqtt = cold_node; event_counter = 0 }

abbrev dark : Board countdown lcg stopwatch
dark = record { producer = cold_producer; registering = waiting; id = node_id diesel 2 2 }

-- The green LED is switched on by a request, and the red one off by a message.
abbrev lit_life : Life diesel 128 node_leds first_match true dark dark
unfolding serve first_route same_bytes activated res_post_put_handler mqtt_event_handler
    mqtt_led_command
lit_life =
    then_move
      (then_move unmoved (device (request put_leds (cold_producer, leds_on 2 ∷ []) refl) tt))
      (device
        (inner cold_node
          (event (publish_event (codes "led:r:off")) (cold_node, leds_off 1 ∷ []) refl))
        tt)

Life-switches_example :
    (switches (device_calls diesel 128 node_leds first_match true lit_life)
      ≡ switched_by_life lit_life)
    × (switches (register_calls diesel 128 node_leds first_match true lit_life) ≡ [])
Life-switches_example = Life-switches lit_life

lit : switched_by_life lit_life ≡ leds_on 2 ∷ leds_off 1 ∷ []
unfolding switched_by_life lit_life asked switched_by_message mqtt_led_command first_route
    same_bytes activated
lit = refl
