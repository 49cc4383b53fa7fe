-- ===== src/Telemetry.antt =====
-- `publish_telemetry` of coap-mqtt-sensor.c. Its log lines are left out, and so is the status that
-- `mqtt_publish` returns, which is only logged.
use io_t_project.Prelude.{
  ℕ, ◌+◌, ◌*◌, ◌/◌, ◌%◌, ◌^◌, ◌&&◌, Bool, true, false, List, [], ◌∷◌, ◌++◌, Bytes, codes, ltb,
  if◌then◌else◌,
}
use io_t_project.CLib.Decimal.{print_lu}
use io_t_project.CLib.Snprintf.{snprintf}
use io_t_project.Calls.{Call, mqtt_publish}
use io_t_project.Config.{Config}
use io_t_project.Device.{Ctimer, Device}
use io_t_project.Node.{Network, get_node_ip}
use io_t_project.Anomaly.{detect_anomaly, tenths}
pub mod Readings
pub mod Shutdown
pub mod Fits
pub mod Decode
pub mod Packet

-- Contiki-NG's `random_rand`, with the generator's state passed on.
pub record Random : Type 1 where
  pub State : Type 0
  pub random_rand : State → ℕ × State

pub record Reading : Type 0 where
  pub v_int : ℕ
  pub v_frac : ℕ
  pub i_int : ℕ
  pub i_frac : ℕ
  pub anomaly : Bool

-- The readings of a device that is off or starting.
abbrev pub silence : Reading
silence = record { v_int = 0; v_frac = 0; i_int = 0; i_frac = 0; anomaly = false }

-- The reading in tenths, as the decision tree takes it.
unfoldable pub judge : Reading → Reading
unfolding detect_anomaly
judge r = record r {
  anomaly = detect_anomaly (tenths (r.v_int * 10 + r.v_frac)) (tenths (r.i_int * 10 + r.i_frac));
}

module _ (random : Random) where
  open random use {State, random_rand}

  unfoldable pub simulate : Config → State → Reading × State
  simulate c s0 =
      let (v, s1) = random_rand s0 in
      let (vf, s2) = random_rand s1 in
      let (i, s3) = random_rand s2 in
      let (f, s4) = random_rand s3 in
      (
        record {
          v_int = c.v_base + v % c.v_range;
          v_frac = vf % 10;
          i_int = c.i_base + i % c.i_range;
          i_frac = f % 10;
          anomaly = false;
        },
        s4,
      )

  unfoldable pub inject_fault : Config → State → Reading × State
  inject_fault c s0 =
      let (vf, s1) = random_rand s0 in
      let (i, s2) = random_rand s1 in
      let (f, s3) = random_rand s2 in
      (
        record {
          v_int = c.v_base / 4;
          v_frac = vf % 10;
          i_int = c.i_base * 3 + i % c.i_range;
          i_frac = f % 10;
          anomaly = true;
        },
        s3,
      )

  -- The injection test at the number drawn for it.
  unfoldable pub inject_or_judge : Config → (draw : ℕ) → Reading → State → Reading × State
  unfolding inject_fault judge
  inject_or_judge c draw normal s =
      if ltb (draw % 100) c.anomaly_inject_percent then inject_fault c s else (judge normal, s)

  -- A device that is off draws no random number and is never judged.
  unfoldable pub read_sensor : Config → (device_on : Bool) → State → Reading × State
  unfolding simulate inject_or_judge
  read_sensor c false s = (silence, s)
  read_sensor c true s =
      let (normal, s1) = simulate c s in
      let (draw, s2) = random_rand s1 in inject_or_judge c draw normal s2

abbrev pub status_text : (device_on device_starting : Bool) → Bytes
status_text true starting = codes "ON"
status_text false true = codes "STARTING"
status_text false false = codes "OFF"

-- `clock_seconds() * 1000UL`
abbrev pub to_ms : ℕ → ℕ
to_ms seconds = seconds * 1000 % 2 ^ 32

-- What `snprintf` is asked to write.
unfoldable pub message :
    Config
    → (id ip : Bytes) → (seq : ℕ) → Reading
    → (interval_ms sent_ms : ℕ) → (status : Bytes) → Bytes
message c id ip seq r interval_ms sent_ms status =
    codes "{\"node_id\":\""
    ++ (id
        ++ (codes "\",\"type\":\""
            ++ (c.node_type
                ++ (codes "\",\"proto\":\"MQTT\",\"ip\":\""
                    ++ (ip
                        ++ (codes "\",\"seq\":"
                            ++ (print_lu seq
                                ++ (codes ",\"v\":"
                                    ++ (print_lu r.v_int
                                        ++ (codes "."
                                            ++ (print_lu r.v_frac
                                                ++ (codes ",\"i\":"
                                                    ++ (print_lu r.i_int
                                                        ++ (codes "."
                                                            ++ (print_lu r.i_frac
                                                            ++ (codes ",\"anomaly\":"
                                                            ++ ((if r.anomaly
                                                            then codes "1"
                                                            else codes "0")
                                                            ++ (codes ",\"publish_interval_ms\":"
                                                            ++ (print_lu interval_ms
                                                            ++ (codes ",\"sent_ms\":"
                                                            ++ (print_lu sent_ms
                                                            ++ (codes ",\"mode\":\""
                                                            ++ ((if r.anomaly
                                                            then codes "anomaly"
                                                            else codes "normal")
                                                            ++ (codes "\",\"status\":\""
                                                            ++ (status
                                                            ++ codes "\"}")))))))))))))))))))))))))

-- What a publication reads besides the state.
pub record Moment : Type 0 where
  pub id : Bytes
  pub network : Network
  pub clock_seconds : ℕ
  pub interval_ms : ℕ

pub record Sensor (timers : Ctimer) (random : Random) : Type 0 where
  pub device : Device timers
  pub mqtt_seq : ℕ  -- unsigned long
  pub rand : random.State

module _ {timers : Ctimer} {random : Random} where
  -- `mqtt_app_buf` has 256 bytes.
  unfoldable pub app_buf : Config → Moment → Reading → Sensor timers random → Bytes
  app_buf c m r s = snprintf 256 (
      message c m.id (get_node_ip m.network) s.mqtt_seq r m.interval_ms (to_ms m.clock_seconds)
        (status_text s.device.device_on s.device.device_starting))

  -- The device is switched off behind the publication of an anomaly.
  unfoldable pub publish_reading :
      Config
      → Moment
      → Reading × random.State
      → Sensor timers random
      → Sensor timers random × List Call
  publish_reading c m (r, rand') s =
      let d = s.device in
      (
        record s {
          device = if r.anomaly then record d { device_on = false } else d;
          mqtt_seq = (s.mqtt_seq + 1) % 2 ^ 32;
          rand = rand';
        },
        mqtt_publish (app_buf c m r s) ∷ [],
      )

  unfoldable pub publish_telemetry :
      Config → Moment → Sensor timers random → Sensor timers random × List Call
  unfolding read_sensor publish_reading
  publish_telemetry c m s = publish_reading c m (read_sensor random c s.device.device_on s.rand) s
