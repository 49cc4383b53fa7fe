-- ===== src/Calls.antt =====
-- The calls that the firmware makes of Contiki-NG. A handler of the model returns them in order, with
-- the arguments that the source passes; what they do is Contiki-NG's.
use io_t_project.Prelude.{ℕ, ◌≤◌, ◌≡◌, Bytes, List, [], ◌∷◌, length, All}

pub data Code : Type 0 where
  changed_2_04 bad_request_4_00 forbidden_4_03 : Code

pub data Format : Type 0 where
  text_plain application_json : Format

pub data Call : Type 0 where
  -- `coap_set_status_code(response, code)`
  set_status_code : Code → Call
  -- `coap_set_payload(response, bytes, n)`, with the bytes that may be read there
  set_payload : Bytes → ℕ → Call
  -- the same of an array of the handler, which is gone once the handler has returned, while the engine
  -- sends the response behind it
  set_local_payload : Bytes → ℕ → Call
  set_header_content_format : Format → Call
  set_header_max_age : ℕ → Call
  notify_observers : Call
  -- `res_push.trigger()`
  trigger_push : Call
  -- the LED mask
  leds_on : ℕ → Call
  leds_off : ℕ → Call
  leds_toggle : ℕ → Call
  -- `process_poll(&mqtt_sensor_process)`
  process_poll : Call
  -- the keep-alive time in seconds; the broker, its port and `clean_session` are constants
  mqtt_connect : ℕ → Call
  mqtt_disconnect : Call
  -- the payload; the topic, QoS level 0 and no retain are constants
  mqtt_publish : Bytes → Call
  -- `COAP_BLOCKING_REQUEST` of a POST to the cloud's /register, with its payload
  coap_post : Bytes → Call
  -- what the callback of that request logs: a time-out, or the bytes of the reply
  log_timeout : Call
  log_reply : Bytes → Call

-- A reply is cut from the bytes that are there, as long as its length says.
abbrev pub IsInBounds : Call → Type 0
IsInBounds (set_payload b n) = n ≤ length b
IsInBounds (set_local_payload b n) = n ≤ length b
IsInBounds _ = Unit

abbrev pub AllInBounds : List Call → Type 0
AllInBounds = All IsInBounds

-- What a reply points to is still there when the engine sends it.
abbrev pub IsLasting : Call → Type 0
IsLasting (set_local_payload b n) = ⊥
IsLasting _ = Unit

abbrev pub AllLasting : List Call → Type 0
AllLasting = All IsLasting

-- The reply begins with 4.00.
abbrev pub IsRefusal : List Call → Type 0
IsRefusal [] = ⊥
IsRefusal (call ∷ calls) = call ≡ set_status_code bad_request_4_00
