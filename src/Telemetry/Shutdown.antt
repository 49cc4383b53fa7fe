-- ===== src/Telemetry/Shutdown.antt =====
-- What a publication does to the device, and what it says of it.
use io_t_project.Prelude.{
  ◌+◌, ◌%◌, ◌^◌, ◌≡◌, refl, inl, inr, Bool-cases, Bool, true, false, not, [], ◌∷◌, codes, arith,
  if◌then◌else◌,
}
use io_t_project.CLib.Snprintf.{snprintf}
use io_t_project.Calls.{mqtt_publish}
use io_t_project.Config.{Config}
use io_t_project.Device.{Ctimer, Device}
use io_t_project.Node.{get_node_ip}
use io_t_project.Resources.Status.Startup.{IsConsistent}
use io_t_project.Telemetry.{
  Random, Reading, silence, read_sensor, status_text, to_ms, message, Moment, Sensor, app_buf,
  publish_reading, publish_telemetry,
}

module _ {timers : Ctimer} where
  switch_off_lem :
      (d : Device timers) (anomaly : Bool)
      → d.device_on ≡ true
      → let d' = if anomaly then record d { device_on = false } else d in
        (d'.device_on ≡ not anomaly)
        × (d'.device_starting ≡ d.device_starting)
        × (d'.startup_timer ≡ d.startup_timer)
  switch_off_lem d true on = (refl, refl, refl)
  switch_off_lem d false on = (on, refl, refl)

module _ {timers : Ctimer} {random : Random} where
  publish_reading_keeps :
      {c : Config} (m : Moment) (r : Reading) (rand' : random.State) (s : Sensor timers random)
      → IsConsistent c s.device
      → IsConsistent c (publish_reading c m (r, rand') s).0.device
  unfolding publish_reading
  publish_reading_keeps m r rand' s h = elim (Bool-cases r.anomaly) [
    | inl e ↦ simp e (ground arith)
    | inr e ↦ simp e h
  ]

  -- A publication keeps the invariant of the power state.
  pub publish_telemetry-IsConsistent :
      {c : Config} (m : Moment) (s : Sensor timers random)
      → IsConsistent c s.device
      → IsConsistent c (publish_telemetry c m s).0.device
  unfolding publish_telemetry
  publish_telemetry-IsConsistent {c} m s h =
      let r = read_sensor random c s.device.device_on s.rand in publish_reading_keeps m r.0 r.1 s h

  -- The reading that a publication carries.
  abbrev pub reading_of : Config → Sensor timers random → Reading
  reading_of c s = (read_sensor random c s.device.device_on s.rand).0

  -- A publication of a device that is off leaves the device and the random numbers as they are,
  -- counts the sequence number up, and sends one message, of zeros, with the status of before.
  pub publish_off :
      (c : Config) (m : Moment) (s : Sensor timers random)
      → s.device.device_on ≡ false
      → publish_telemetry c m s ≡ (
        record s { mqtt_seq = (s.mqtt_seq + 1) % 2 ^ 32 },
        mqtt_publish (
              snprintf 256 (
                message c m.id
                  (get_node_ip m.network)
                  s.mqtt_seq
                  silence
                  m.interval_ms
                  (to_ms m.clock_seconds)
                  (status_text false s.device.device_starting)))
            ∷ [],
      )
  unfolding publish_telemetry app_buf
  publish_off c m s off = simp off

  -- After a publication of a device that is on, the device is off exactly if the reading is an
  -- anomaly, and nothing else of it has changed; the one message that is sent carries the reading
  -- and the status ON.
  pub publish_on :
      (c : Config) (m : Moment) (s : Sensor timers random)
      → s.device.device_on ≡ true
      → let (t, calls) = publish_telemetry c m s in
        let r = reading_of c s in
        (t.device.device_on ≡ not r.anomaly)
        × (t.device.device_starting ≡ s.device.device_starting)
        × (t.device.startup_timer ≡ s.device.startup_timer)
        × (t.mqtt_seq ≡ (s.mqtt_seq + 1) % 2 ^ 32)
        × (calls
            ≡ mqtt_publish (
                snprintf 256 (
                  message c m.id
                    (get_node_ip m.network)
                    s.mqtt_seq
                    r
                    m.interval_ms
                    (to_ms m.clock_seconds)
                    (codes "ON")))
              ∷ [])
  unfolding publish_telemetry app_buf
  publish_on c m s on =
      let (power, starting, timer) = switch_off_lem s.device (reading_of c s).anomaly on in
      let status : status_text s.device.device_on s.device.device_starting ≡ codes "ON" = simp on in
      (power, starting, timer, refl, rw status)

  -- A publication switches nothing on.
  pub publish_telemetry-on :
      (c : Config) (m : Moment) (s : Sensor timers random)
      → (publish_telemetry c m s).0.device.device_on ≡ true
      → s.device.device_on ≡ true
  unfolding publish_telemetry
  publish_telemetry-on c m s h = kept (reading_of c s).anomaly h
    where
      kept :
          (anomaly : Bool)
          → (if anomaly then record s.device { device_on = false } else s.device).device_on ≡ true
          → s.device.device_on ≡ true
      kept true e = cc
      kept false e = e
