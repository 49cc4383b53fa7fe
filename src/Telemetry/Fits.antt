-- ===== src/Telemetry/Fits.antt =====
-- The telemetry message fits the buffer of 256 bytes, so `snprintf` never cuts it.
use io_t_project.Prelude.{
  ℕ, ◌≤◌, ◌<◌, ◌≡◌, ap, inl, inr, Bool-cases, Bool, true, false, [], ◌∷◌, Bytes, length,
  length-append, arith,
}
use io_t_project.CLib.Decimal.{length-print_lu_lt, length-print_lu}
use io_t_project.Calls.{mqtt_publish}
use io_t_project.Config.{Config, IsConfig}
use io_t_project.CLib.Snprintf.{snprintf_whole}
use io_t_project.Device.{Ctimer}
use io_t_project.Node.{get_node_ip, IsNetwork, length-get_node_ip}
use io_t_project.Telemetry.{
  Random, Reading, silence, judge, message, Moment, Sensor, read_sensor, status_text, to_ms,
  app_buf, publish_telemetry,
}
use io_t_project.Telemetry.Readings.{IsNormal, IsFault, read_sensor_cases}
use io_t_project.Telemetry.Shutdown.{reading_of}

-- The readings have at most three digits before the point, and one behind it.
pub record IsShort (r : Reading) : Type 0 where
  pub v_short : r.v_int < 1000
  pub v_digit : r.v_frac < 10
  pub i_short : r.i_int < 1000
  pub i_digit : r.i_frac < 10

pub length-message :
    {c : Config} (id ip : Bytes) (seq : ℕ) {r : Reading} (interval_ms sent_ms : ℕ) (status : Bytes)
    → IsConfig c
    → IsShort r
    → length id ≤ 16
    → length ip ≤ 39
    → interval_ms < 100000
    → length status ≤ 8
    → length (message c id ip seq r interval_ms sent_ms status) ≤ 255
unfolding message
length-message {c} id ip seq {r} interval_ms sent_ms status h hr hid hip hi hs =
    let v = length-print_lu_lt 2 r.v_int (omega arith) in
    let vf = length-print_lu_lt 0 r.v_frac (omega arith) in
    let i = length-print_lu_lt 2 r.i_int (omega arith) in
    let f = length-print_lu_lt 0 r.i_frac (omega arith) in
    let ms = length-print_lu_lt 4 interval_ms (omega arith) in
    let n = length-print_lu seq in
    let t = length-print_lu sent_ms in
    elim (Bool-cases r.anomaly) [
      | inl e ↦ simp (e, length-append) (omega arith)
      | inr e ↦ simp (e, length-append) (omega arith)
    ]

IsNormal-IsShort : {c : Config} {r : Reading} → IsConfig c → IsNormal c r → IsShort r
IsNormal-IsShort h n = omega arith

judge_int : (r : Reading) → IsShort r → IsShort (judge r)
unfolding judge
judge_int r h = omega arith

IsFault-IsShort : {c : Config} {r : Reading} → IsConfig c → IsFault c r → IsShort r
IsFault-IsShort {c} {r} h f = omega arith

silence-IsShort : IsShort silence
silence-IsShort = omega arith

length-status_text : (on starting : Bool) → length (status_text on starting) ≤ 8
length-status_text true starting = omega arith
length-status_text false true = omega arith
length-status_text false false = omega arith

module _ (random : Random) where
  open random use {State}

  -- Every reading that a configured node takes is short.
  pub read_sensor-IsShort :
      {c : Config} (on : Bool) (s : State) → IsConfig c → IsShort (read_sensor random c on s).0
  read_sensor-IsShort false s h = rw ((read_sensor_cases random s h).0) silence-IsShort
  read_sensor-IsShort {c} true s h =
      let (normal, n, source) = (read_sensor_cases random s h).1 in
      elim source [
        | inl e ↦ rw e (judge_int normal (IsNormal-IsShort h n))
        | inr f ↦ IsFault-IsShort h f.0
      ]

-- A moment of a configured node: its id is the node id, an address has at most 39 characters, and the
-- interval is in range.
pub record IsMoment (c : Config) (m : Moment) : Type 0 where
  pub id_short : length m.id ≤ 16
  pub network_ok : IsNetwork m.network
  pub interval_le : m.interval_ms ≤ c.publish_interval_stressed_ms

module _ {timers : Ctimer} {random : Random} where
  -- A configured node whose id, address and interval are in range publishes its message whole, in
  -- every state, with the reading that it has taken: the buffer of 256 bytes holds it.
  pub publish_telemetry_whole :
      {c : Config} (m : Moment) (s : Sensor timers random)
      → IsConfig c
      → IsMoment c m
      → (publish_telemetry c m s).1
        ≡ mqtt_publish (
            message c m.id
              (get_node_ip m.network)
              s.mqtt_seq
              (reading_of c s)
              m.interval_ms
              (to_ms m.clock_seconds)
              (status_text s.device.device_on s.device.device_starting))
          ∷ []
  unfolding publish_telemetry app_buf
  publish_telemetry_whole {c} m s h hm =
      let status = status_text s.device.device_on s.device.device_starting in
      let text =
        message c m.id (get_node_ip m.network) s.mqtt_seq (reading_of c s) m.interval_ms
          (to_ms m.clock_seconds) status in
      let fits : length text ≤ 255 =
        length-message m.id (get_node_ip m.network) s.mqtt_seq m.interval_ms (to_ms m.clock_seconds)
          status h (read_sensor-IsShort random s.device.device_on s.rand h) hm.id_short
          (length-get_node_ip hm.network_ok) (omega (arith, hm.interval_le, h.stressed_le))
          (length-status_text s.device.device_on s.device.device_starting) in
      ap (λ b. mqtt_publish b ∷ []) (snprintf_whole 256 text (omega (arith, fits)))
