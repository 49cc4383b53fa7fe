-- ===== src/Tests/JsonTests.antt =====
-- The texts of the battery node, with charges in whole hundredths of a kWh.
use io_t_project.Prelude.{ℕ, Bytes, ◌≡◌, refl, false, some, [], ◌∷◌, codes, length}
use io_t_project.Prelude.Int.{pos, ◌+ℤ◌}
use io_t_project.CLib.Decimal.{print_lu, digits}
use io_t_project.Calls.{set_local_payload, set_header_content_format, application_json}
use io_t_project.Battery.Fixed.{scaled_by, fixed_1, fixed_4}
use io_t_project.Battery.Floats.{hundredths, hundredths-IsIeee}
use io_t_project.Battery.State.{Battery, initial, state_of_charge, charge}
use io_t_project.Battery.Lock.{initial-IsWithin}
use io_t_project.Battery.Logs.{res_put_battery_logs}
use io_t_project.CLib.Strtoul.{strtoul}
use io_t_project.CLib.Snprintf.{snprintf}
use io_t_project.Battery.Json.{battery_json, res_get_battery_handler}
use io_t_project.Battery.Decode.{decode_battery, decode-res_get_battery_handler}

abbrev half : Battery hundredths
half = record {
  max_capacity = some (pos 1000);
  charged_capacity = some (pos 500);
  charging_locked = false;
  override_active = false;
}

json_of_half :
    battery_json (fixed_1 (pos 100)) (fixed_1 (pos 50)) false false
    ≡ codes
        "{\"max_capacity\":10.0,\"charged_capacity\":5.0,\"charging_locked\":false,\"override\":false}"
unfolding battery_json fixed_1 print_lu digits
json_of_half = refl

decode-res_get_battery_handler_example :
    (max charged : ℕ) × (scaled_by hundredths (some (pos 1000)) half.max_capacity ≡ some (pos max))
    × (scaled_by hundredths (some (pos 1000)) half.charged_capacity ≡ some (pos charged))
    × ((text : Bytes) × (res_get_battery_handler hundredths half
          ≡ some (
              set_header_content_format application_json
              ∷ set_local_payload text (length text)
              ∷ []))
        × (decode_battery text
            ≡ some (record {
              max_capacity = max;
              charged_capacity = charged;
              charging_locked = false;
              override_active = false;
            })))
unfolding initial
decode-res_get_battery_handler_example =
    decode-res_get_battery_handler hundredths hundredths-IsIeee
      (initial-IsWithin hundredths hundredths-IsIeee) refl

-- What the log lines of a PUT say: the state of charge, the change, the charge and the capacity.
logged :
    res_put_battery_logs hundredths (some (codes "-2")) half
    ≡ some (codes "30" ∷ codes "-2.0000" ∷ codes "3.0000" ∷ codes "10.0" ∷ [])
unfolding res_put_battery_logs strtoul state_of_charge ◌+ℤ◌ charge fixed_1 fixed_4 print_lu digits
    snprintf
logged = refl
