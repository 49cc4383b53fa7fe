-- ===== src/Config.antt =====
-- The macros of sensors/*/project-conf.h, with the defaults of coap-mqtt-sensor.c, res-status.c and
-- sampling_control.c where a node does not define one.
use io_t_project.Prelude.{ℕ, ◌+◌, ◌*◌, ◌≤◌, ◌<◌, Bool, true, false, Bytes, codes, length, arith}

pub record Config : Type 0 where
  pub node_type : Bytes
  pub default_on : Bool
  pub startup_delay_s : ℕ
  pub v_base : ℕ
  pub v_range : ℕ
  pub i_base : ℕ
  pub i_range : ℕ
  pub publish_interval_ms : ℕ
  pub publish_interval_stressed_ms : ℕ
  pub anomaly_inject_percent : ℕ

-- sensors/coap-mqtt-sensor/project-conf.h
abbrev pub wind : Config
wind = record {
  node_type = codes "wind";
  default_on = true;
  startup_delay_s = 0;
  v_base = 22;
  v_range = 3;
  i_base = 15;
  i_range = 3;
  publish_interval_ms = 5000;
  publish_interval_stressed_ms = 15000;
  anomaly_inject_percent = 0;
}

-- sensors/coap-mqtt-solar-sensor/project-conf.h
abbrev pub solar : Config
solar = record {
  node_type = codes "solar";
  default_on = true;
  startup_delay_s = 0;
  v_base = 32;
  v_range = 5;
  i_base = 15;
  i_range = 3;
  publish_interval_ms = 800;
  publish_interval_stressed_ms = 15000;
  anomaly_inject_percent = 5;
}

-- sensors/coap-mqtt-diesel-sensor/project-conf.h
abbrev pub diesel : Config
diesel = record {
  node_type = codes "diesel";
  default_on = false;
  startup_delay_s = 40;
  v_base = 220;
  v_range = 11;
  i_base = 5;
  i_range = 11;
  publish_interval_ms = 5000;
  publish_interval_stressed_ms = 15000;
  anomaly_inject_percent = 0;
}

-- What the firmware needs of a configuration.
pub record IsConfig (c : Config) : Type 0 where
  pub interval_pos : 0 < c.publish_interval_ms
  pub interval_le_stressed : c.publish_interval_ms ≤ c.publish_interval_stressed_ms
  pub stressed_le : c.publish_interval_stressed_ms ≤ 60000
  pub type_short : length c.node_type ≤ 6
  -- the ranges of the random parts are not empty, and the readings have at most three digits
  pub v_some : 0 < c.v_range
  pub i_some : 0 < c.i_range
  pub v_short : c.v_base + c.v_range ≤ 1000
  pub i_short : c.i_base * 3 + c.i_range ≤ 1000

pub wind-IsConfig : IsConfig wind
wind-IsConfig = omega arith

pub solar-IsConfig : IsConfig solar
solar-IsConfig = omega arith

pub diesel-IsConfig : IsConfig diesel
diesel-IsConfig = omega arith
