-- ===== src/Tests/TelemetryTests.antt =====
-- Publications of a solar node.
use io_t_project.Prelude.{ℕ, ◌^◌, ◌<◌, ◌≤◌, ◌-◌, ◌≡◌, refl, true, false, [], ◌∷◌, codes, arith}
use io_t_project.Calls.{mqtt_publish}
use io_t_project.CLib.Decimal.{print_lu, digits}
use io_t_project.Config.{solar, solar-IsConfig, diesel}
use io_t_project.Telemetry.{Random, silence, judge, read_sensor, message, publish_telemetry}
use io_t_project.Telemetry.Readings.{IsFault, IsQuiet, anomaly_only_injected}
use io_t_project.Telemetry.Fits.{IsMoment}
use io_t_project.Telemetry.Packet.{
  sensor_pub_topic, max_segment_size, publish_packet_size, message_of, publish_telemetry_fits,
}
use io_t_project.Tests.Samples.{noon, running_sensor}

solar-IsQuiet : IsQuiet solar
solar-IsQuiet = omega arith

noon-IsMoment : IsMoment solar noon
noon-IsMoment = omega arith

-- A generator that draws its state, 3, again and again: below the percentage of 5.
abbrev stuck : Random
stuck = record { State = ℕ; random_rand = λ s. (s, s) }

publish_telemetry_fits_example :
    ((publish_telemetry solar noon running_sensor).1
      ≡ mqtt_publish (message_of solar noon running_sensor) ∷ [])
    × (publish_packet_size sensor_pub_topic (message_of solar noon running_sensor)
        ≤ max_segment_size)
publish_telemetry_fits_example =
    publish_telemetry_fits noon running_sensor solar-IsConfig noon-IsMoment

-- The longest message, of a diesel node, fills the segment to the last byte.
full_segment :
    publish_packet_size sensor_pub_topic (
      message diesel
        (codes "prod_diesel_a1b2")
        (codes "fd12:3456:789a:1234:5678:9abc:def1:2345")
        (2 ^ 32 - 1)
        silence
        15000
        (2 ^ 32 - 1)
        (codes "STARTING"))
    ≡ 256
unfolding publish_packet_size message print_lu digits
full_segment = refl

anomaly_only_injected_example :
    IsFault solar (read_sensor stuck solar true 3).0
    × (0 < solar.anomaly_inject_percent)
    × ((judge (read_sensor stuck solar true 3).0).anomaly ≡ false)
unfolding read_sensor
anomaly_only_injected_example = anomaly_only_injected stuck 3 solar-IsConfig solar-IsQuiet refl
