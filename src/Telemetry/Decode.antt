-- ===== src/Telemetry/Decode.antt =====
-- A reader of the telemetry messages, field by field, and the round trip with `publish_telemetry`.
use io_t_project.Prelude.{
  ℕ, ◌≤◌, ◌≡◌, refl, Bool, true, false, Option, some, [], ◌∷◌, ◌++◌, Bytes, codes, arith, ◌>>=◌,
  if◌then◌else◌,
}
use io_t_project.Reader.{
  expect, until_quote, read_number, HasNoQuote, until_quote-append, read_number-print_lu,
}
use io_t_project.CLib.Decimal.{ulong_max}
use io_t_project.CLib.Strtoul.{scan_digits}
use io_t_project.Calls.{mqtt_publish}
use io_t_project.Config.{Config, IsConfig}
use io_t_project.Device.{Ctimer}
use io_t_project.Node.{get_node_ip}
use io_t_project.Telemetry.{
  Random, Reading, message, Moment, Sensor, status_text, to_ms, publish_telemetry,
}
use io_t_project.Telemetry.Fits.{IsMoment, IsShort, read_sensor-IsShort, publish_telemetry_whole}
use io_t_project.Telemetry.Shutdown.{reading_of}

-- What a message says.
pub record Fields : Type 0 where
  pub id : Bytes
  pub node_type : Bytes
  pub ip : Bytes
  pub seq : ℕ
  pub v_int : ℕ
  pub v_frac : ℕ
  pub i_int : ℕ
  pub i_frac : ℕ
  pub anomaly : ℕ
  pub interval_ms : ℕ
  pub sent_ms : ℕ
  pub mode : Bytes
  pub status : Bytes

unfoldable pub decode : Bytes → Option Fields
unfolding expect until_quote read_number
decode s0 = do
  s1 ← expect (codes "{\"node_id\":\"") s0
  (id, s2) ← until_quote s1
  s3 ← expect (codes ",\"type\":\"") s2
  (node_type, s4) ← until_quote s3
  s5 ← expect (codes ",\"proto\":\"MQTT\",\"ip\":\"") s4
  (ip, s6) ← until_quote s5
  s7 ← expect (codes ",\"seq\":") s6
  (seq, s8) ← read_number s7
  s9 ← expect (codes ",\"v\":") s8
  (v_int, s10) ← read_number s9
  s11 ← expect (codes ".") s10
  (v_frac, s12) ← read_number s11
  s13 ← expect (codes ",\"i\":") s12
  (i_int, s14) ← read_number s13
  s15 ← expect (codes ".") s14
  (i_frac, s16) ← read_number s15
  s17 ← expect (codes ",\"anomaly\":") s16
  (anomaly, s18) ← read_number s17
  s19 ← expect (codes ",\"publish_interval_ms\":") s18
  (interval_ms, s20) ← read_number s19
  s21 ← expect (codes ",\"sent_ms\":") s20
  (sent_ms, s22) ← read_number s21
  s23 ← expect (codes ",\"mode\":\"") s22
  (mode, s24) ← until_quote s23
  s25 ← expect (codes ",\"status\":\"") s24
  (status, s26) ← until_quote s25
  s27 ← expect (codes "}") s26
  some (record {
    id = id;
    node_type = node_type;
    ip = ip;
    seq = seq;
    v_int = v_int;
    v_frac = v_frac;
    i_int = i_int;
    i_frac = i_frac;
    anomaly = anomaly;
    interval_ms = interval_ms;
    sent_ms = sent_ms;
    mode = mode;
    status = status;
  })

abbrev pub flag : Bool → ℕ
flag anomaly = if anomaly then 1 else 0

abbrev pub mode_text : Bool → Bytes
mode_text anomaly = if anomaly then codes "anomaly" else codes "normal"

-- What the message of a reading has to say.
abbrev pub fields_of :
    Config
    → (id ip : Bytes) → (seq : ℕ) → Reading
    → (interval_ms sent_ms : ℕ) → (status : Bytes) → Fields
fields_of c id ip seq r interval_ms sent_ms status = record {
  id = id;
  node_type = c.node_type;
  ip = ip;
  seq = seq;
  v_int = r.v_int;
  v_frac = r.v_frac;
  i_int = r.i_int;
  i_frac = r.i_frac;
  anomaly = flag r.anomaly;
  interval_ms = interval_ms;
  sent_ms = sent_ms;
  mode = mode_text r.anomaly;
  status = status;
}

read_flag :
    (anomaly : Bool) (behind : Bytes)
    → read_number ((if anomaly then codes "1" else codes "0") ++ (b',' ∷ behind))
      ≡ some (flag anomaly, b',' ∷ behind)
unfolding read_number scan_digits
read_flag true behind = refl
read_flag false behind = refl

mode_text-HasNoQuote : (anomaly : Bool) → HasNoQuote (mode_text anomaly)
mode_text-HasNoQuote true = omega arith
mode_text-HasNoQuote false = omega arith

status_text-HasNoQuote : (on starting : Bool) → HasNoQuote (status_text on starting)
status_text-HasNoQuote true starting = omega arith
status_text-HasNoQuote false true = omega arith
status_text-HasNoQuote false false = omega arith

pub decode-message :
    (c : Config) (id ip : Bytes) (seq : ℕ) (r : Reading) (interval_ms sent_ms : ℕ) (status : Bytes)
    → HasNoQuote id
    → HasNoQuote c.node_type
    → HasNoQuote ip
    → HasNoQuote status
    → IsShort r
    → seq ≤ ulong_max
    → interval_ms ≤ ulong_max
    → sent_ms ≤ ulong_max
    → decode (message c id ip seq r interval_ms sent_ms status)
      ≡ some (fields_of c id ip seq r interval_ms sent_ms status)
unfolding decode message expect
decode-message c id ip seq r interval_ms sent_ms status hid htype hip hstatus hr hseq hms hsent =
    rw
      (
        until_quote-append id _ hid,
        until_quote-append c.node_type _ htype,
        until_quote-append ip _ hip,
        read_number-print_lu seq b',' _ hseq refl,
        read_number-print_lu r.v_int b'.' _ (omega arith) refl,
        read_number-print_lu r.v_frac b',' _ (omega arith) refl,
        read_number-print_lu r.i_int b'.' _ (omega arith) refl,
        read_number-print_lu r.i_frac b',' _ (omega arith) refl,
        read_flag r.anomaly _,
        read_number-print_lu interval_ms b',' _ hms refl,
        read_number-print_lu sent_ms b',' _ hsent refl,
        until_quote-append (mode_text r.anomaly) _ (mode_text-HasNoQuote r.anomaly),
        until_quote-append status _ hstatus,
      )
      refl

module _ {timers : Ctimer} {random : Random} where
  -- The message that a configured node publishes reads back, field by field, as the reading that it
  -- has taken, with its node id, type and address, its sequence number, interval, time and status of
  -- before the publication. Ids, type and address are without quotes, the sequence number is an
  -- unsigned long, and id, address and interval are in range.
  pub decode-publish_telemetry :
      {c : Config} (m : Moment) (s : Sensor timers random)
      → IsConfig c
      → IsMoment c m
      → HasNoQuote m.id
      → HasNoQuote c.node_type
      → HasNoQuote (get_node_ip m.network)
      → s.mqtt_seq ≤ ulong_max
      → (payload : Bytes) × ((publish_telemetry c m s).1 ≡ mqtt_publish payload ∷ [])
        × (decode payload
            ≡ some (
                fields_of c m.id
                  (get_node_ip m.network)
                  s.mqtt_seq
                  (reading_of c s)
                  m.interval_ms
                  (to_ms m.clock_seconds)
                  (status_text s.device.device_on s.device.device_starting)))
  decode-publish_telemetry {c} m s hc hm hid htype hip hseq =
      let on = s.device.device_on in
      let status = status_text on s.device.device_starting in
      (
        _,
        publish_telemetry_whole m s hc hm,
        decode-message c m.id (get_node_ip m.network) s.mqtt_seq (reading_of c s) m.interval_ms
            (to_ms m.clock_seconds) status hid htype hip
            (status_text-HasNoQuote on s.device.device_starting)
            (read_sensor-IsShort random on s.rand hc) hseq
            (omega (arith, hm.interval_le, hc.stressed_le)) (omega arith),
      )
