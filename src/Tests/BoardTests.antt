-- ===== src/Tests/BoardTests.antt =====
-- The registrations of the nodes, and a node with all its processes.
use io_t_project.Prelude.{
  ◌%◌, ◌^◌, ◌≡◌, ◌↔◌, refl, length, List, true, false, some, none, [], ◌∷◌, ◌++◌, Bytes, All, codes,
  map, arith,
}
use io_t_project.Prelude.Int.{◌+ℤ◌}
use io_t_project.Battery.Registration.{battery_id, battery_registration_at}
use io_t_project.Battery.Registered.{
  battery_register_run, decode_battery_registration, battery_register_run-decode,
}
use io_t_project.Board.{
  Board, Life, unmoved, then_move, device, register, boot, device_calls, register_calls,
}
use io_t_project.Board.Reports.{power_of_life, reports_of_life, Life-reports}
use io_t_project.Coap.{reply}
use io_t_project.Power.{powered_off, warming_up, view}
use io_t_project.Resources.Status
use io_t_project.Server.{Request, same_bytes}
use io_t_project.Server.Producer
use io_t_project.Server.Producer.{serve}
use io_t_project.Server.ProducerRuns
use io_t_project.Telemetry.Decode.{decode}
use io_t_project.Tests.Samples.{warming_node}
use io_t_project.Board.Identity.{Registers, moment_of_life, Life-Identity}
use io_t_project.Board.Tells.{Tells}
use io_t_project.Node.Plain.{IsTidyNetwork}
use io_t_project.Registration.Once.{moment_of_run, IsRegistered}
use io_t_project.Battery.Floats.{hundredths, hundredths-IsIeee}
use io_t_project.Battery.Life.{BatteryRegisters, battery_life-IsSafe}
use io_t_project.Battery.Node.{
  BatteryTurn, request, register, requests, wakeups, BatteryBoard, battery_boot, battery_life,
}
use io_t_project.Battery.Answers.{Shows, battery_life-Shows}
use io_t_project.Battery.Lifetimes.{IsNoGet, battery_life-lasting}
use io_t_project.Battery.Poison.{battery_life-nan}
use io_t_project.Battery.State.{initial, read_delta, res_put_battery_handler}
use io_t_project.CLib.Strtoul.{strtoul}
use io_t_project.Server.BatteryNode.{battery_get, activated, handle}
use io_t_project.Server.BatteryRuns.{IsSafe}
use io_t_project.Tests.Samples.{put_battery, get_battery}
use io_t_project.Calls.{
  Call, AllLasting, coap_post, process_poll, changed_2_04, set_header_content_format,
  set_local_payload, application_json,
}
use io_t_project.Config.{wind, wind-IsConfig, diesel, diesel-IsConfig}
use io_t_project.Device.{countdown}
use io_t_project.Mqtt.{
  stopwatch, connected, connected_event, mqtt_event_handler, start, round, Mqtt, Wake,
}
use io_t_project.Mqtt.Published.{messages}
use io_t_project.Node.{get_node_ip, node_id, have_connectivity}
use io_t_project.Registration.{registration_at}
use io_t_project.Registration.Decode.{decode_registration, register_run-decode}
use io_t_project.Registration.Process.{
  waiting, requesting, finished, delay_over, response, request_over, delays, handle_all,
  register_run, register_step, posts,
}
use io_t_project.Server.{first_match, first_route}
use io_t_project.Server.ProducerRuns.{inner}
use io_t_project.System.{event, elapse, wake}
use io_t_project.Telemetry.{to_ms}
use io_t_project.Tests.Samples.{lcg, node_leds, online, offline, polled, cold_node}

register_run-decode_example :
    (register_run
        (registration_at wind (codes "prod_wind_0202"))
        waiting
        (delays ((offline, 15) ∷ []))
      ≡ (waiting, []))
    × ((payload : Bytes) × (register_run (registration_at wind (codes "prod_wind_0202")) waiting (
            delays ((offline, 15) ∷ [])
            ++ (delay_over online 30 ∷ (map response (none ∷ []) ++ (request_over ∷ []))))
          ≡ (finished, coap_post payload ∷ handle_all (none ∷ [])))
        × (decode_registration payload
            ≡ some (record {
              id = codes "prod_wind_0202";
              ip = get_node_ip online;
              node_type = wind.node_type;
              sent_ms = to_ms 30;
            })))
unfolding have_connectivity get_node_ip
register_run-decode_example =
    register_run-decode (codes "prod_wind_0202") ((offline, 15) ∷ []) online 30 (none ∷ []) []
      wind-IsConfig (omega arith) (omega arith) (refl, tt) refl (omega arith) (omega arith)
      (omega arith)

battery_register_run-decode_example :
    (battery_register_run 2 2 (delays ((offline, 15) ∷ [])) ≡ (waiting, []))
    × ((payload : Bytes) × (battery_register_run 2 2 (
            delays ((offline, 15) ∷ [])
            ++ (delay_over online 30 ∷ (map response (none ∷ []) ++ (request_over ∷ []))))
          ≡ (finished, coap_post payload ∷ handle_all (none ∷ [])))
        × (decode_battery_registration payload
            ≡ some (record { id = battery_id 2 2; ip = get_node_ip online })))
unfolding have_connectivity get_node_ip
battery_register_run-decode_example =
    battery_register_run-decode 2 2 ((offline, 15) ∷ []) online 30 (none ∷ []) [] (omega arith)
      (refl, tt) refl (omega arith)

abbrev own_wake : Wake
own_wake = record polled { id = node_id diesel 2 2 }

abbrev acknowledged : Mqtt countdown lcg stopwatch
acknowledged = record cold_node { mqtt_state = connected; mqtt_subscribed = true }

abbrev expired : Mqtt countdown lcg stopwatch
expired = record acknowledged { pub_timer = (640, true) }

abbrev off_on : Board countdown lcg stopwatch
off_on = record {
  producer = record { mqtt = (round diesel 128 own_wake expired).0; event_counter = 0 };
  registering = requesting;
  id = node_id diesel 2 2;
}

-- A node posts its registration, is connected, and publishes.
abbrev working_life :
    Life diesel 128 node_leds first_match true
      (boot {timers = countdown} {random = lcg} {etimers = stopwatch} diesel 128 node_leds
        first_match true 2 2
        (0, false)
        7)
      off_on
unfolding start mqtt_event_handler boot register_step first_route
working_life =
    then_move
      (then_move
        (then_move (then_move unmoved (register (delay_over online 15))) (
          device (inner acknowledged (event connected_event (acknowledged, process_poll ∷ []) refl))
            tt))
        (device (inner expired (elapse (640, true))) tt))
      (device (inner (round diesel 128 own_wake expired).0 (wake own_wake)) refl)

online-IsTidyNetwork : IsTidyNetwork online
unfolding get_node_ip
online-IsTidyNetwork = record { in_range = omega arith; plain = omega arith }

Life-Identity_example :
    All
      (Tells (node_id diesel 2 2) diesel.node_type)
      (messages (device_calls diesel 128 node_leds first_match true working_life))
    × IsRegistered
        (Registers diesel (node_id diesel 2 2))
        (some (online, 15))
        requesting
        (posts (register_calls diesel 128 node_leds first_match true working_life))
unfolding working_life moment_of_life have_connectivity
Life-Identity_example =
    Life-Identity 2 2 (0, false) 7 working_life diesel-IsConfig (omega arith)
      ((((tt, online-IsTidyNetwork), tt), tt), online-IsTidyNetwork)

abbrev put_status : Request
put_status = record put_battery { path = codes "actuators/status"; payload = some (codes "on") }

abbrev warmed : Board countdown lcg stopwatch
warmed = record {
  producer = record { mqtt = warming_node; event_counter = 0 };
  registering = waiting;
  id = node_id diesel 2 2;
}

-- A request switches the node on, and it warms up.
abbrev switched_life :
    Life diesel 128 node_leds first_match true
      (boot {timers = countdown} {random = lcg} {etimers = stopwatch} diesel 128 node_leds
        first_match true 2 2
        (0, false)
        7)
      warmed
unfolding start boot serve Status.res_put_handler first_route same_bytes Producer.activated
switched_life = then_move unmoved (
    device
      (ProducerRuns.request put_status
        (record { mqtt = warming_node; event_counter = 0 }, reply changed_2_04 "starting" 8) refl)
      tt)

Life-reports_example :
    let fields = reports_of_life switched_life powered_off in
    (warming_up ≡ power_of_life switched_life powered_off)
    × (map decode (messages (device_calls diesel 128 node_leds first_match true switched_life))
        ≡ map some fields)
    × (0 ≡ length fields % 2 ^ 32)
unfolding switched_life view
Life-reports_example =
    Life-reports 2 2 (0, false) 7 switched_life diesel-IsConfig (omega arith) (tt, tt)

-- A wait ends, a charge is put, the reply to the registration comes, and the charge is read.
abbrev busy : List BatteryTurn
busy =
    register (delay_over online 15)
    ∷ (request put_battery
        ∷ (register (response none) ∷ (request get_battery ∷ (register request_over ∷ []))))

battery_life-IsSafe_example :
    (b : BatteryBoard hundredths) × (served : List Call) × (posted : List Call) × (battery_life
        hundredths first_match busy
        (battery_boot hundredths 2 2)
      ≡ some (b, served, posted))
    × IsSafe hundredths hundredths-IsIeee b.battery
    × IsRegistered
        (BatteryRegisters (battery_id 2 2))
        (some (online, 15))
        b.registering
        (posts posted)
unfolding read_delta strtoul requests wakeups moment_of_run have_connectivity
battery_life-IsSafe_example =
    battery_life-IsSafe hundredths hundredths-IsIeee first_match 2 2 busy
      ((refl, refl), ((refl, refl), tt)) (online-IsTidyNetwork, (tt, (tt, tt)))

abbrev put_nan : Request
put_nan = record put_battery { payload = some (codes "nan") }

battery_life-nan_example :
    battery_life hundredths first_match
      (busy ++ request put_nan ∷ busy)
      (battery_boot hundredths 2 2)
    ≡ none
unfolding first_route same_bytes activated
battery_life-nan_example =
    battery_life-nan hundredths hundredths-IsIeee first_match put_nan busy busy
      (battery_boot hundredths 2 2) refl refl

abbrev silent_turns : List BatteryTurn
silent_turns = register (delay_over online 15) ∷ request put_battery ∷ []

battery_life-lasting_example :
    AllLasting (res_put_battery_handler hundredths put_battery.payload (initial hundredths)).1
    ↔ All (IsNoGet first_match) (requests silent_turns)
unfolding first_route same_bytes activated strtoul requests read_delta battery_life battery_boot
    ◌+ℤ◌
battery_life-lasting_example =
    battery_life-lasting hundredths first_match silent_turns (battery_boot hundredths 2 2)
      (record (battery_boot hundredths 2 2) {
        battery = (res_put_battery_handler hundredths put_battery.payload (initial hundredths)).0;
        registering = requesting;
      })
      (res_put_battery_handler hundredths put_battery.payload (initial hundredths)).1
      (coap_post (battery_registration_at (battery_id 2 2) online 15) ∷ []) refl

battery_life-Shows_example :
    (b : BatteryBoard hundredths) × (served : List Call) × (posted : List Call) × (battery_life
        hundredths first_match busy
        (battery_boot hundredths 2 2)
      ≡ some (b, served, posted))
    × (text : Bytes) × (handle hundredths battery_get none b.battery
        ≡ some (
          b.battery,
          set_header_content_format application_json ∷ set_local_payload text (length text) ∷ [],
        ))
    × Shows hundredths hundredths-IsIeee b text
unfolding read_delta strtoul requests wakeups
battery_life-Shows_example =
    battery_life-Shows hundredths hundredths-IsIeee first_match 2 2 busy none
      ((refl, refl), ((refl, refl), tt)) (online-IsTidyNetwork, (tt, (tt, tt)))
