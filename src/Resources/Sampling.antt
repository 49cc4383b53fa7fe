-- ===== src/Resources/Sampling.antt =====
-- resources/res-sampling.c: GET and PUT of actuators/sampling.
use io_t_project.Prelude.{
  ℕ, ◌||◌, Bool, true, false, Option, none, some, List, [], ◌∷◌, ◌++◌, Bytes, length, take, ltb,
  leb, if◌then◌else◌,
}
use io_t_project.CLib.Decimal.{print_lu}
use io_t_project.CLib.Strtoul.{c_string, strtoul}
use io_t_project.Calls.{
  Call, set_status_code, set_local_payload, set_payload, set_header_content_format, text_plain,
  changed_2_04,
}
use io_t_project.Coap.{Payload, bad_request}
use io_t_project.Config.{Config}
use io_t_project.Sampling.{Sampling, get_publish_interval_ms, set_publish_interval_ms}
pub mod Put

-- At most ten digits: the buffer of 32 bytes holds them.
unfoldable pub res_get_handler : Sampling → List Call
unfolding get_publish_interval_ms
res_get_handler s =
    let payload = print_lu (get_publish_interval_ms s) in
    set_header_content_format text_plain ∷ set_local_payload payload (length payload) ∷ []

-- `tmp` holds 32 bytes, the last one for the NUL.
unfoldable pub copy_to_tmp : Bytes → Bytes
unfolding c_string
copy_to_tmp payload =
    let len = length payload in
    let copy_len = if leb 32 len then 31 else len in c_string (take copy_len payload)

-- What follows the call of `strtoul`: `none` is `endptr == tmp`.
unfoldable pub put_number : Config → Bytes → Option (ℕ × Bytes) → Sampling → Sampling × List Call
put_number c tmp none s = (s, bad_request "Invalid interval: use 1..60000" 30)
put_number c tmp (some (interval_ms, [])) s =
    if ltb interval_ms 1 || ltb 60000 interval_ms
    then (s, bad_request "Invalid interval: use 1..60000" 30)
    else let (t, calls) = set_publish_interval_ms c interval_ms s in
      (t, calls ++ (set_status_code changed_2_04 ∷ set_local_payload tmp (length tmp) ∷ []))
put_number c tmp (some (interval_ms, d ∷ rest)) s =
    (s, bad_request "Invalid interval: use 1..60000" 30)

unfoldable pub res_put_handler : Config → Payload → Sampling → Sampling × List Call
unfolding put_number copy_to_tmp strtoul
res_put_handler c none s = (s, bad_request "Missing body: interval_ms" 25)
res_put_handler c (some []) s = (s, bad_request "Missing body: interval_ms" 25)
res_put_handler c (some (b ∷ bytes)) s =
    let tmp = copy_to_tmp (b ∷ bytes) in put_number c tmp (strtoul tmp) s
