-- ===== src/Resources/Status.antt =====
-- resources/res-status.c: GET and PUT of actuators/status.
use io_t_project.Prelude.{
  ℕ, ◌*◌, ◌&&◌, not, Bool, true, false, Option, none, some, List, [], ◌∷◌, Bytes, String, codes,
  length, ltb, if◌then◌else◌, ◌>>=◌,
}
use io_t_project.Calls.{Call, set_payload, set_header_content_format, text_plain, changed_2_04}
use io_t_project.Coap.{Payload, reply, bad_request}
use io_t_project.Command.{Command, turn_on, turn_off, invalid, has_word}
use io_t_project.Config.{Config}
use io_t_project.Device.{Ctimer, Device}
pub mod Startup
pub mod Words

module _ {timers : Ctimer} where
  unfoldable pub res_get_handler : Device timers → List Call
  res_get_handler d =
      let payload =
        codes (if d.device_on then "on" else if d.device_starting then "starting" else "off") in
      set_header_content_format text_plain ∷ set_payload payload (length payload) ∷ []

  unfoldable pub put_off : Config → Device timers → Device timers × List Call
  put_off c d =
      let calm =
        if ltb 0 c.startup_delay_s
        then record d { startup_timer = timers.stop d.startup_timer; device_starting = false }
        else d in
      (record calm { device_on = false }, reply changed_2_04 "off" 3)

  unfoldable pub put_on : Config → (clock_second : ℕ) → Device timers → Device timers × List Call
  put_on c clock_second d =
      if ltb 0 c.startup_delay_s
      then if not d.device_on && not d.device_starting
        then (
          record d {
            device_starting = true;
            startup_timer = timers.set (c.startup_delay_s * clock_second) d.startup_timer;
          },
          reply changed_2_04 "starting" 8,
        )
        else (
          d,
          reply changed_2_04 (if d.device_on then "on" else "starting")
              (if d.device_on then 2 else 8),
        )
      else (record d { device_on = true }, reply changed_2_04 "on" 2)

  unfoldable pub put_command :
      Config → (clock_second : ℕ) → Command → Device timers → Device timers × List Call
  unfolding put_off put_on
  put_command c clock_second turn_off d = put_off c d
  put_command c clock_second turn_on d = put_on c clock_second d
  put_command c clock_second invalid d = (d, bad_request "Invalid body: use on|off" 24)

-- `off` is looked for before `on`.
unfoldable pub read_command : Bytes → Option Command
unfolding has_word
read_command body = has_word body (codes "off") 3 >>= λ off.
    if off
    then some turn_off
    else has_word body (codes "on") 2 >>= λ on. some (if on then turn_on else invalid)

module _ {timers : Ctimer} where
  -- `none` is a read outside the body.
  unfoldable pub res_put_handler :
      Config → (clock_second : ℕ) → Payload → Device timers → Option (Device timers × List Call)
  unfolding put_command read_command
  res_put_handler c clock_second none d = some (d, bad_request "Missing body: on|off" 20)
  res_put_handler c clock_second (some []) d = some (d, bad_request "Missing body: on|off" 20)
  res_put_handler c clock_second (some (b ∷ bytes)) d = do
    command ← read_command (b ∷ bytes)
    some (put_command c clock_second command d)
