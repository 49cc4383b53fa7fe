-- ===== src/Resources/Status/Words.antt =====
-- What a PUT of actuators/status does for each body.
use io_t_project.Prelude.{
  ℕ, ◌*◌, ◌<◌, ◌≡◌, refl, ap, ◌≢◌, Bool, true, false, none, some, List, [], ◌∷◌, ◌++◌, Bytes, codes,
  arith,
}
use io_t_project.Calls.{Call, changed_2_04, IsRefusal}
use io_t_project.Coap.{Payload, payload_bytes, reply, bad_request}
use io_t_project.Command.{has_word, has_word_total, has_word-prefix, turn_on, turn_off}
use io_t_project.Config.{Config}
use io_t_project.Device.{Ctimer, Device, startup_complete}
use io_t_project.Resources.Status.{put_off, put_on, read_command, res_put_handler}
use io_t_project.Resources.Status.Startup.{IsConsistent}

read-off : (rest : Bytes) → read_command (codes "off" ++ rest) ≡ some turn_off
unfolding read_command
read-off rest = ground arith

read-on : (rest : Bytes) → read_command (codes "on" ++ rest) ≡ some turn_on
unfolding read_command
read-on rest = ground arith

module _ {timers : Ctimer} where
  -- A body that begins with `off` leaves the device off, not starting and with no startup timer
  -- pending, from any consistent state, and is answered 2.04 `off`.
  pub put-off :
      (c : Config) (clock_second : ℕ) (rest : Bytes) {d : Device timers}
      → IsConsistent c d
      → (r : Device timers) × (res_put_handler c clock_second (some (codes "off" ++ rest)) d
          ≡ some (r, reply changed_2_04 "off" 3))
        × (r.device_on ≡ false)
        × (r.device_starting ≡ false)
        × (timers.is_pending r.startup_timer ≡ false)
  unfolding res_put_handler
  put-off c clock_second rest {d} h = (
    (put_off c d).0,
    rw (read-off rest),
    ground (arith, timers.is_pending-stop d.startup_timer),
    ground (arith, timers.is_pending-stop d.startup_timer),
    ground (arith, timers.is_pending-stop d.startup_timer),
  )

  -- With a startup delay, a body that begins with `on` puts a device that is off and not starting
  -- into its warm-up: off, starting, its timer pending, answered 2.04 `starting`. When the timer
  -- fires, the device is on and no longer starting.
  pub put-on_warm_up :
      (c : Config) (clock_second : ℕ) (rest : Bytes) (d : Device timers)
      → 0 < c.startup_delay_s
      → d.device_on ≡ false
      → d.device_starting ≡ false
      → (r : Device timers) × (res_put_handler c clock_second (some (codes "on" ++ rest)) d
          ≡ some (r, reply changed_2_04 "starting" 8))
        × (r.device_on ≡ false)
        × (r.device_starting ≡ true)
        × (timers.is_pending r.startup_timer ≡ true)
        × ((startup_complete r).device_on ≡ true)
        × ((startup_complete r).device_starting ≡ false)
  unfolding res_put_handler startup_complete
  put-on_warm_up c clock_second rest d delay off idle =
      let r : Device timers = record d {
        device_starting = true;
        startup_timer = timers.set (c.startup_delay_s * clock_second) d.startup_timer;
      } in
      let done : put_on c clock_second d ≡ (r, reply changed_2_04 "starting" 8) = ground arith in
      (r, rw (read-on rest) (ap some done), off, refl, timers.is_pending-set _ _, refl, refl)

  -- A PUT with no body, or with one that begins with neither `on` nor `off`, changes nothing and is
  -- answered 4.00.
  pub put_other :
      (c : Config) (clock_second : ℕ) (payload : Payload) (d : Device timers)
      → ((rest : Bytes) → payload_bytes payload ≢ codes "off" ++ rest)
      → ((rest : Bytes) → payload_bytes payload ≢ codes "on" ++ rest)
      → (calls : List Call) × (res_put_handler c clock_second payload d ≡ some (d, calls))
        × IsRefusal calls
  unfolding res_put_handler read_command
  put_other c clock_second none d not_off not_on = (_, refl, refl)
  put_other c clock_second (some []) d not_off not_on = (_, refl, refl)
  put_other c clock_second (some (b ∷ bytes)) d not_off not_on =
      answer (has_word_total (b ∷ bytes) (codes "off") 3)
        (has_word_total (b ∷ bytes) (codes "on") 2)
    where
      answer :
          (t : Bool) × (has_word (b ∷ bytes) (codes "off") 3 ≡ some t)
          → (t : Bool) × (has_word (b ∷ bytes) (codes "on") 2 ≡ some t)
          → (calls : List Call) × (res_put_handler c clock_second (some (b ∷ bytes)) d
              ≡ some (d, calls))
            × IsRefusal calls
      answer (true, e) on =
          let (rest, f) = has_word-prefix (b ∷ bytes) (codes "off") e in absurd (not_off rest f)
      answer (false, e) (true, f) =
          let (rest, g) = has_word-prefix (b ∷ bytes) (codes "on") f in absurd (not_on rest g)
      answer (false, e) (false, f) = (bad_request "Invalid body: use on|off" 24, rw (e, f), refl)
