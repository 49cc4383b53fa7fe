-- ===== src/Battery/State.antt =====
-- resources/res-battery.c, with the capacities of coap-mqtt-battery-sensor.c and project-conf.h. The
-- texts that are only logged are left out here; Battery/Logs has them, with their conversions.
use io_t_project.Prelude.{
  ◌&&◌, not, Bool, true, false, none, some, List, [], ◌∷◌, Bytes, codes, length, take, ltb,
  if◌then◌else◌, Option, ◌>>=◌,
}
use io_t_project.CLib.Strtoul.{c_string}
use io_t_project.Calls.{
  Call, set_status_code, set_payload, set_header_content_format, text_plain, changed_2_04,
  bad_request_4_00, forbidden_4_03,
}
use io_t_project.Coap.{Payload, payload_bytes, reply, bad_request}
use io_t_project.Command.{Command, turn_on, turn_off, invalid, has_word}
use io_t_project.Battery.Floats.{FloatOps}

module _ (floats : FloatOps) where
  open floats use {Float, add, div, le, lt, lit, atof}

  pub record Battery : Type 0 where
    pub max_capacity : Float
    pub charged_capacity : Float
    pub charging_locked : Bool
    pub override_active : Bool

  -- BATTERY_MAX_CAPACITY 10.0 and BATTERY_START_CAPACITY 5.0
  unfoldable pub initial : Battery
  initial = record {
    max_capacity = lit 1000;
    charged_capacity = lit 500;
    charging_locked = false;
    override_active = false;
  }

  abbrev pub soc_lock_threshold : Float
  soc_lock_threshold = lit 95

  abbrev pub soc_unlock_threshold : Float
  soc_unlock_threshold = lit 75

  unfoldable pub state_of_charge : Battery → Float
  state_of_charge b = div b.charged_capacity b.max_capacity

  unfoldable pub update_lock_state : Battery → Battery
  update_lock_state b =
      let soc = state_of_charge b in
      if le soc_lock_threshold soc && not b.charging_locked
      then record b { charging_locked = true }
      else if le soc soc_unlock_threshold && b.charging_locked
      then record b { charging_locked = false }
      else b

  -- `charged_capacity += delta` and the two clamps.
  unfoldable pub charge : Float → Battery → Battery
  charge delta b =
      let sum = add b.charged_capacity delta in
      let low = if lt sum (lit 0) then lit 0 else sum in
      record b { charged_capacity = if lt b.max_capacity low then b.max_capacity else low }

  -- What follows the call of `atof`.
  unfoldable pub put_delta : Float → Battery → Battery × List Call
  unfolding charge update_lock_state
  put_delta delta b =
      if lt (lit 0) delta && (b.charging_locked && not b.override_active)
      then (b, reply forbidden_4_03 "charging_locked" 15)
      else (update_lock_state (charge delta b), reply changed_2_04 "updated" 7)

  -- At most 31 bytes of the body are copied, and `atof` reads up to the first NUL.
  unfoldable pub read_delta : Bytes → Float
  unfolding c_string
  read_delta bytes =
      let len = length bytes in
      let cp_len = if ltb len 31 then len else 31 in atof (c_string (take cp_len bytes))

  unfoldable pub res_put_battery_handler : Payload → Battery → Battery × List Call
  unfolding put_delta read_delta
  res_put_battery_handler none b = (b, set_status_code bad_request_4_00 ∷ [])
  res_put_battery_handler (some []) b = (b, set_status_code bad_request_4_00 ∷ [])
  res_put_battery_handler (some (c ∷ bytes)) b = put_delta (read_delta (c ∷ bytes)) b

  unfoldable pub res_get_override_handler : Battery → List Call
  res_get_override_handler b =
      let payload = if b.override_active then codes "on" else codes "off" in
      set_header_content_format text_plain ∷ set_payload payload (length payload) ∷ []

  unfoldable pub put_override_command : Command → Battery → Battery × List Call
  put_override_command turn_on b = (record b { override_active = true }, reply changed_2_04 "on" 2)
  put_override_command turn_off b =
      (record b { override_active = false }, reply changed_2_04 "off" 3)
  put_override_command invalid b = (b, bad_request "Invalid body: use on|off" 24)

  -- Here `on` is looked for before `off`. `none` is a read outside the body.
  unfoldable pub res_put_override_handler : Payload → Battery → Option (Battery × List Call)
  unfolding put_override_command has_word
  res_put_override_handler payload b = has_word (payload_bytes payload) (codes "on") 2 >>= λ on.
      if on
      then some (put_override_command turn_on b)
      else has_word (payload_bytes payload) (codes "off") 3 >>= λ off.
          some (put_override_command (if off then turn_off else invalid) b)
