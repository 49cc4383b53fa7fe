-- ===== src/Lib.antt =====
-- The firmware of the sensor nodes, which is C for Contiki-NG, in sensors/.
--
-- The program. A producer node (wind, solar, diesel) runs three processes that share static variables
-- and are never preempted: a CoAP server, whose handlers let the cloud switch the device, its LEDs and
-- its publish interval; a client that posts the node's address to the cloud once; and an MQTT process
-- that connects to a broker and publishes simulated readings, which it has judged by a decision tree.
-- A battery node runs a CoAP server for its charge and its charge lock, and the same client.
-- The solar and diesel nodes include the wind node's sources with macros of their own.
--
-- The files.
--   Prelude, Prelude/*: the libraries' names, passed on; Boolean tests, byte strings and integers over
--     the native numbers.
--   CLib/*: what the code uses of the C library: `%lu` and the cut of `snprintf`, `strtoul`,
--     `strncmp(..) == 0` with its reads. `unsigned long` has 32 bits, as on the nRF52840; `print_lu`
--     runs on a fuel of ten digits, which a 32-bit number never exceeds.
--   Reader: `scanf`-like readers of what `snprintf` has written, which the round trips stand on.
--   Calls: the calls of Contiki-NG, as values that the handlers return in their order. An array of a
--     handler that it hands to `coap_set_payload` is told from what outlives the handler.
--   Coap, Command: a request's body, and the words `on` and `off`, as the handlers compare them.
--   Config: the macros of sensors/coap-mqtt-sensor/project-conf.h, of its solar and diesel siblings,
--     and their defaults. `IsConfig` says what the theorems need of them; the three nodes have it.
--   Sampling, Sampling/Bounds: sensors/coap-mqtt-sensor/sampling_control.c, and
--     `mqtt_keepalive_seconds` of sensors/coap-mqtt-sensor/coap-mqtt-sensor.c.
--   Device: `device_on`, `device_starting`, `startup_timer` and `startup_complete` of
--     coap-mqtt-sensor.c.
--   Node, Node/Plain: `have_connectivity`, `get_node_ip` and the node id of coap-mqtt-sensor.c, and
--     the quotes in them.
--   Power: an automaton of three states, off, warming up and on. It models no code; it is what the
--     status resource, the startup timer and the publications have to implement together.
--   Link: an automaton of the connection to the broker, down, asked for and up. It models no code; it
--     is what `mqtt_state` and `connect_attempts` have to implement together.
--   Resources/Sampling, Resources/Status, Resources/Leds, Resources/Push and their children:
--     res-sampling.c, res-status.c, res-leds.c with res-toggle.c, and res-push.c of
--     sensors/coap-mqtt-sensor/resources/. Each handler is a function from the body and the shared
--     state to the new state and the calls made. Where it may read outside a message, it returns an
--     option, and `none` is such a read; for the LEDs, one of a log line too, which prints `mode`. Resources/Leds/Table says in words of its own what the LED
--     handler does, and Resources/Leds/Commands what an MQTT message asks for, in the same words.
--   Anomaly: sensors/coap-mqtt-sensor/detect_anomaly.h, with exact decimals for floats.
--   Telemetry, Telemetry/*: `publish_telemetry` of coap-mqtt-sensor.c. Telemetry/Decode reads its
--     messages back; Telemetry/Packet measures the PUBLISH packet, by the MQTT 3.1.1 standard, against
--     the segment size of `mqtt_register`.
--   Mqtt, Mqtt/*: `mqtt_event_handler` and `mqtt_sensor_process` of coap-mqtt-sensor.c. `round` is
--     one pass of the process's endless loop, from one yield to the next.
--   Server: RESOURCE, requests, and the CoAP engine as a parameter. Server/Producer, Server/BatteryNode:
--     the resources that `coap_server_process` of coap-mqtt-sensor.c and of
--     coap-mqtt-battery-sensor.c activate, with their handlers. Server/ProducerRuns,
--     Server/BatteryRuns: requests in sequence, among the other turns of a node.
--   Server/Reports, Board/Reports: what a turn of a producer node with its server means for Power, and
--     what it reports; and a node over its whole life, with its requests through the engine.
--   Server/Lifetimes, Battery/Lifetimes: which replies point to arrays of their handlers.
--   Server/Quiet: the messages among the calls of requests and notifications.
--   Registration, Registration/Process: `coap_register_process` of coap-mqtt-sensor.c. Its loop, its
--     blocking request and its end are three phases; `register_step` is what the process does when it
--     wakes up, and `coap_reg_response_handler` what it does with a response. Registration/Decode reads
--     the registration back; Registration/Once is what it has posted, by the first wait that ends with
--     connectivity, for both kinds of nodes.
--   System, System/Safety: the node as a whole. `Step` is one turn of a process, a handler or a timer,
--     with whatever request, event or answer of the network it meets; `Reach` is a sequence of them.
--   System/Refinement: the power of a node over its runs, against Power.
--   Mqtt/Linked, System/Session: the connection of a node over its runs, against Link.
--   System/Answers: what a PUT and a GET of the status show, against Power.
--   System/Sent, System/Reports, System/Numbering, System/Quiet: the messages of a node over its runs.
--     `reports` is what a run has to report, by the turns that are due and by Power.
--   System/Switches, Board/Switches: the calls that switch LEDs, turn by turn and over a node's life.
--   System/Interval, System/Pending: a new publish interval from its PUT to the publish timer, and one
--     that waits for it over a run.
--   Board, Board/Tells, Board/Identity: a node with its three processes and the id that they share.
--     `Life` is a sequence of turns of any of them.
--   Battery/State, Battery/Lock, Battery/Nan, Battery/Override:
--     sensors/coap-mqtt-battery-sensor/resources/res-battery.c, its capacities from
--     coap-mqtt-battery-sensor.c and project-conf.h beside it.
--   Battery/Hysteresis: the charge lock as a function of the states of charge so far.
--   Battery/Logs: the texts that `res_put_battery_handler` converts for its log lines. The conversions
--     have to be defined whether or not the lines are printed, so `handle` of Server/BatteryNode makes
--     them. The bound of 10000 kWh on bodies is one for which they are.
--   Battery/Fixed, Battery/Json, Battery/Decode: `format_fixed_1`, `format_fixed_4` and
--     `res_get_battery_handler` of res-battery.c.
--   Battery/Floats: the operations on `float`, and what the code relies on of them.
--   Battery/Registration, Battery/Registered: `coap_register_process` of coap-mqtt-battery-sensor.c,
--     which takes the steps of Registration/Process with a payload of its own.
--   Battery/Node, Battery/Life, Battery/Answers, Battery/Poison: a battery node with its two processes.
--     `battery_life` runs a list of turns of them.
--   Tests/*: runs at concrete inputs.
--
-- Parameters, for code that is not in the repository: Contiki-NG's timers (`Ctimer`, `Etimer`, with
-- laws on what leaves a timer pending or expired), its random numbers (`Random`), what its network
-- stack answers (`Network`, with addresses of at most 39 characters in `IsNetwork`), CLOCK_SECOND, the
-- LED masks, the CoAP engine's choice of a handler (`Engine`, which calls only handlers of activated
-- resources, by path and method), what stands in a message behind a variable (`behind_mode`; `EndsMode`
-- says that the engine has ended the payload with a NUL), and the battery's floats with `atof`
-- (`FloatOps`, with the facts on IEEE 754 arithmetic in `IsIeee`). Each record of laws is filled by a
-- concrete instance.
--
-- Not modelled: log lines, but for the conversions of Battery/Logs and what the log line of `mode` in
-- res-leds.c reads, and the subscription topic, which is only logged; what `res_push.trigger` does,
-- which is Contiki-NG's; when the CoAP engine gives up a request, which is its own, so that responses
-- come as they may; and sensors/rpl-border-router, which is Contiki-NG's example program.
-- The cloud's Python programs, the notebook and the deployment files are not firmware.
pub mod Prelude
pub mod CLib
pub mod Calls
pub mod Reader
pub mod Config
pub mod Sampling
pub mod Coap
pub mod Command
pub mod Device
pub mod Resources
pub mod Battery
pub mod Anomaly
pub mod Node
pub mod Power
pub mod Link
pub mod Telemetry
pub mod Mqtt
pub mod Registration
pub mod Server
pub mod System
pub mod Board
pub mod Tests
