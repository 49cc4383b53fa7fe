-- ===== src/Tests/MqttTests.antt =====
-- Rounds of the MQTT process of a diesel node.
use io_t_project.Prelude.{◌≡◌, false}
use io_t_project.Config.{diesel}
use io_t_project.Mqtt.{stopwatch, round}
use io_t_project.Mqtt.Rounds.{round_rearms}
use io_t_project.Tests.Samples.{polled, connecting_node}

round_rearms_example :
    stopwatch.is_expired (round diesel 128 polled connecting_node).0.pub_timer ≡ false
round_rearms_example = round_rearms diesel 128 polled connecting_node
