-- ===== src/Tests/Samples.antt =====
-- Values that the tests share.
use io_t_project.Server.{Request, method_get, method_put}
use io_t_project.Prelude.{ℕ, ◌+◌, ◌*◌, ◌%◌, true, false, none, some, [], ◌∷◌, codes}
use io_t_project.Device.{countdown, Device}
use io_t_project.Node.{Network}
use io_t_project.Mqtt.{stopwatch, Mqtt, Wake, init, connecting, connected}
use io_t_project.Resources.Leds.{Leds}
use io_t_project.Sampling.{Sampling}
use io_t_project.Telemetry.{Random, Sensor, Moment}

-- A generator of pseudo-random 16-bit numbers.
abbrev pub lcg : Random
lcg = record { State = ℕ; random_rand = λ s. (s, (s * 25173 + 13849) % 65536) }

abbrev pub node_leds : Leds
node_leds = record { red = 1; green = 2; blue = 4 }

abbrev pub online : Network
online = record {
  global_addr = some (codes "fd00::202:2:2:2");
  link_local_addr = none;
  has_default_route = true;
}

abbrev pub offline : Network
offline = record { global_addr = none; link_local_addr = none; has_default_route = false }

abbrev pub normal_interval : Sampling
normal_interval = record { current_publish_interval_ms = 5000; publish_interval_dirty = false }

abbrev pub cold : Device countdown
cold = record { device_on = false; device_starting = false; startup_timer = none }

abbrev pub warming : Device countdown
warming = record { device_on = false; device_starting = true; startup_timer = some 5120 }

abbrev pub running : Device countdown
running = record { device_on = true; device_starting = false; startup_timer = none }

abbrev pub noon : Moment
noon = record {
  id = codes "prod_solar_0202";
  network = online;
  clock_seconds = 43200;
  interval_ms = 5000;
}

abbrev pub cold_sensor : Sensor countdown lcg
cold_sensor = record { device = cold; mqtt_seq = 0; rand = 7 }

abbrev pub running_sensor : Sensor countdown lcg
running_sensor = record { device = running; mqtt_seq = 41; rand = 7 }

abbrev pub cold_node : Mqtt countdown lcg stopwatch
cold_node = record {
  mqtt_state = init;
  mqtt_subscribed = false;
  connect_attempts = 0;
  pub_timer = (640, false);
  sampling = normal_interval;
  sensor = cold_sensor;
}

abbrev pub warming_node : Mqtt countdown lcg stopwatch
warming_node = record cold_node { sensor = record cold_sensor { device = warming } }

abbrev pub connecting_node : Mqtt countdown lcg stopwatch
connecting_node = record cold_node { mqtt_state = connecting; pub_timer = (640, true) }

abbrev pub dirty_node : Mqtt countdown lcg stopwatch
dirty_node = record cold_node {
  mqtt_state = connected;
  pub_timer = (640, true);
  sampling = record normal_interval { publish_interval_dirty = true };
}

abbrev pub ready_node : Mqtt countdown lcg stopwatch
ready_node = record cold_node { mqtt_state = connected; pub_timer = (640, true) }

abbrev pub polled : Wake
polled = record {
  is_poll = true;
  network = online;
  is_ready = true;
  id = codes "prod_diesel_0202";
  clock_seconds = 60;
}

abbrev pub put_battery : Request
put_battery = record {
  path = codes "actuators/battery";
  method = method_put;
  payload = some (codes "3");
  color = [];
  mode = [];
  behind_mode = 0 ∷ [];
  preferred_size = 64;
}

abbrev pub get_battery : Request
get_battery = record put_battery { method = method_get; payload = none }
