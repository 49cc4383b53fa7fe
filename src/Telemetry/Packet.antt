-- ===== src/Telemetry/Packet.antt =====
-- The size of what is published: SENSOR_PUB_TOPIC and the segment size that `mqtt_sensor_process` of
-- coap-mqtt-sensor.c registers, against the PUBLISH packet of the MQTT standard.
use io_t_project.Prelude.{
  ℕ, ◌+◌, ◌≤◌, ◌<◌, ◌≡◌, refl, Bool, true, false, Bool-cases, inl, inr, [], ◌∷◌, Bytes, codes,
  length, length-append, ltb, if◌then◌else◌, arith,
}
use io_t_project.CLib.Decimal.{print_lu, length-print_lu, length-print_lu_lt}
use io_t_project.Calls.{mqtt_publish}
use io_t_project.Config.{Config, IsConfig}
use io_t_project.Device.{Ctimer}
use io_t_project.Node.{get_node_ip, length-get_node_ip}
use io_t_project.Telemetry.{
  Random, Reading, silence, message, Moment, Sensor, read_sensor, status_text, to_ms,
  publish_telemetry,
}
use io_t_project.Telemetry.Fits.{IsShort, IsMoment, read_sensor-IsShort, publish_telemetry_whole}
use io_t_project.Telemetry.Shutdown.{reading_of}

abbrev pub sensor_pub_topic : Bytes
sensor_pub_topic = codes "iot/telemetry"

abbrev pub max_segment_size : ℕ
max_segment_size = 256

-- MQTT 3.1.1, 2.2.3: seven bits of the remaining length to a byte.
unfoldable pub remaining_length_size : ℕ → ℕ
remaining_length_size n =
    if ltb n 128 then 1 else if ltb n 16384 then 2 else if ltb n 2097152 then 3 else 4

-- MQTT 3.1.1, 3.3: the type and the flags, the remaining length, the topic behind its length of two
-- bytes, no packet identifier at QoS level 0, and the payload.
unfoldable pub publish_packet_size : (topic payload : Bytes) → ℕ
unfolding remaining_length_size
publish_packet_size topic payload =
    let remaining = 2 + length topic + length payload in
    1 + remaining_length_size remaining + remaining

length-message_parts :
    (c : Config) (id ip : Bytes) (seq : ℕ) (r : Reading) (interval_ms sent_ms : ℕ) (status : Bytes)
    → length (message c id ip seq r interval_ms sent_ms status)
      ≤ (if r.anomaly then 141 else 140)
        + length id
        + length c.node_type
        + length ip
        + length (print_lu seq)
        + length (print_lu r.v_int)
        + length (print_lu r.v_frac)
        + length (print_lu r.i_int)
        + length (print_lu r.i_frac)
        + length (print_lu interval_ms)
        + length (print_lu sent_ms)
        + length status
unfolding message
length-message_parts c id ip seq r interval_ms sent_ms status = elim (Bool-cases r.anomaly) [
  | inl e ↦ simp (e, length-append) (omega arith)
  | inr e ↦ simp (e, length-append) (omega arith)
]

-- A message of a device that is on, or of silence, by the lengths of its parts.
length-message_on :
    {c : Config} (id ip : Bytes) (seq : ℕ) (r : Reading) (interval_ms sent_ms : ℕ)
    → IsConfig c
    → IsShort r
    → length id ≤ 16
    → length ip ≤ 39
    → interval_ms < 100000
    → length (message c id ip seq r interval_ms sent_ms (codes "ON")) ≤ 237
length-message_on {c} id ip seq r interval_ms sent_ms h hr hid hip hi =
    let all = length-message_parts c id ip seq r interval_ms sent_ms (codes "ON") in
    let v = length-print_lu_lt 2 r.v_int (omega arith) in
    let vf = length-print_lu_lt 0 r.v_frac (omega arith) in
    let i = length-print_lu_lt 2 r.i_int (omega arith) in
    let f = length-print_lu_lt 0 r.i_frac (omega arith) in
    let ms = length-print_lu_lt 4 interval_ms (omega arith) in
    let n = length-print_lu seq in let t = length-print_lu sent_ms in ground arith

length-message_silent :
    {c : Config} (id ip : Bytes) (seq interval_ms sent_ms : ℕ) (starting : Bool)
    → IsConfig c
    → length id ≤ 16
    → length ip ≤ 39
    → interval_ms < 100000
    → length (message c id ip seq silence interval_ms sent_ms (status_text false starting)) ≤ 238
length-message_silent {c} id ip seq interval_ms sent_ms starting h hid hip hi =
    let status = status_text false starting in
    let all = length-message_parts c id ip seq silence interval_ms sent_ms status in
    let z = length-print_lu_lt 0 0 (omega arith) in
    let ms = length-print_lu_lt 4 interval_ms (omega arith) in
    let n = length-print_lu seq in
    let t = length-print_lu sent_ms in
    let s : length status ≤ 8 = elim (Bool-cases starting) [
      | inl e ↦ rw e (omega arith)
      | inr e ↦ rw e (omega arith)
    ] in
    omega (arith, all, z, ms, n, t, s, h.type_short)

publish_packet_size-le :
    (payload : Bytes)
    → length payload ≤ 238
    → publish_packet_size sensor_pub_topic payload ≤ max_segment_size
unfolding publish_packet_size
publish_packet_size-le payload h = ground arith

module _ {timers : Ctimer} {random : Random} where
  -- The message of a configured node, by what it is read from.
  abbrev pub message_of : Config → Moment → Sensor timers random → Bytes
  message_of c m s =
      message c m.id (get_node_ip m.network) s.mqtt_seq (reading_of c s) m.interval_ms
        (to_ms m.clock_seconds) (status_text s.device.device_on s.device.device_starting)

  length-message_of :
      {c : Config} (m : Moment) (s : Sensor timers random) (on : Bool)
      → s.device.device_on ≡ on
      → IsConfig c
      → IsMoment c m
      → length (message_of c m s) ≤ 238
  unfolding read_sensor
  length-message_of {c} m s true e h hm =
      let short = read_sensor-IsShort random true s.rand h in
      let ip = length-get_node_ip hm.network_ok in
      let all =
        length-message_on m.id (get_node_ip m.network) s.mqtt_seq
          (read_sensor random c true s.rand).0 m.interval_ms (to_ms m.clock_seconds) h short
          hm.id_short ip (omega arith) in
      rw e (omega (arith, all))
  length-message_of {c} m s false e h hm = rw e (
      length-message_silent m.id (get_node_ip m.network) s.mqtt_seq m.interval_ms
        (to_ms m.clock_seconds) s.device.device_starting h hm.id_short
        (length-get_node_ip hm.network_ok) (omega arith))

  -- A configured node whose id, address and interval are in range publishes its message whole, in
  -- every state and with every reading, and the PUBLISH packet that carries it to the topic
  -- iot/telemetry fits the segment size that the process has registered.
  pub publish_telemetry_fits :
      {c : Config} (m : Moment) (s : Sensor timers random)
      → IsConfig c
      → IsMoment c m
      → ((publish_telemetry c m s).1 ≡ mqtt_publish (message_of c m s) ∷ [])
        × (publish_packet_size sensor_pub_topic (message_of c m s) ≤ max_segment_size)
  publish_telemetry_fits {c} m s h hm = (
    publish_telemetry_whole m s h hm,
    publish_packet_size-le (message_of c m s) (length-message_of m s s.device.device_on refl h hm),
  )
