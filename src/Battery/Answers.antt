-- ===== src/Battery/Answers.antt =====
-- What a battery node shows of its charge, at any time of its life.
use io_t_project.Prelude.{ℕ, ◌≡◌, refl, false, some, List, [], ◌∷◌, Bytes, All, length, arith}
use io_t_project.Prelude.Int.{pos}
use io_t_project.Battery.Decode.{decode_battery, decode-res_get_battery_handler}
use io_t_project.Battery.Fixed.{scaled_by}
use io_t_project.Battery.Floats.{FloatOps, IsIeee}
use io_t_project.Battery.Json.{res_get_battery_handler}
use io_t_project.Battery.Life.{battery_life-IsSafe}
use io_t_project.Battery.Lock.{lit_le}
use io_t_project.Battery.Node.{
  BatteryTurn, requests, wakeups, BatteryBoard, battery_boot, battery_life,
}
use io_t_project.Calls.{Call, set_header_content_format, set_local_payload, application_json}
use io_t_project.Coap.{Payload}
use io_t_project.Node.Plain.{IsTidyNetwork}
use io_t_project.Registration.Once.{Wakes}
use io_t_project.Server.{Engine}
use io_t_project.Server.BatteryNode.{Handler, battery_get, handle}
use io_t_project.Server.BatteryRuns.{IsSafe, SendsModest}

module _ (floats : FloatOps) (ieee : IsIeee floats) where
  open floats use {Float, le, lit}

  -- The text of a reply shows a capacity of 10 kWh and this charge, in tenths as they are rounded, this
  -- lock, and no override.
  pub record Shows (b : BatteryBoard floats) (text : Bytes) : Type 0 where
    pub max : ℕ
    pub charged : ℕ
    pub max_is : scaled_by floats (lit 1000) (lit 1000) ≡ some (pos max)
    pub charged_is : scaled_by floats (lit 1000) b.battery.charged_capacity ≡ some (pos charged)
    pub reads :
        decode_battery text
        ≡ some (record {
          max_capacity = max;
          charged_capacity = charged;
          charging_locked = b.battery.charging_locked;
          override_active = false;
        })

  handle_get :
      (payload : Payload) (b : BatteryBoard floats) (calls : List Call)
      → res_get_battery_handler floats b.battery ≡ some calls
      → handle floats battery_get payload b.battery ≡ some (b.battery, calls)
  unfolding handle
  handle_get payload b calls e = rw e refl

  safe-Shows :
      (payload : Payload) (b : BatteryBoard floats)
      → IsSafe floats ieee b.battery
      → (text : Bytes) × (handle floats battery_get payload b.battery
          ≡ some (
            b.battery,
            set_header_content_format application_json ∷ set_local_payload text (length text) ∷ [],
          ))
        × Shows b text
  safe-Shows payload b safe =
      let small = lit_le floats ieee 1000 100000 (omega arith) (omega arith) in
      let (max, charged, em, ec, (text, answer, read)) =
        decode-res_get_battery_handler floats ieee safe.within (rw safe.max_kept small) in
      (
        text,
        handle_get payload b _ answer,
        record {
          max = max;
          charged = charged;
          max_is = rw safe.max_kept at em;
          charged_is = ec;
          reads = rw safe.no_override at read;
        },
      )

  -- At any time of the life of a battery node, after its start and whatever requests and wake-ups of
  -- the register process have come in whatever order, a GET of the battery is answered with JSON,
  -- whole and within its buffer, that reads back as a capacity of 10 kWh, the charge of that time, in
  -- tenths as they are rounded, the lock of that time, and no override. The bodies of the requests
  -- before are read as numbers from -10000 to 10000, and the networks it meets have addresses in range
  -- that hold no quote.
  pub battery_life-Shows :
      (engine : Engine Handler) (hi lo : ℕ) (turns : List BatteryTurn) (payload : Payload)
      → All (SendsModest floats ieee) (requests turns)
      → All (Wakes IsTidyNetwork) (wakeups turns)
      → (b : BatteryBoard floats) × (served : List Call) × (posted : List Call) × (battery_life
            floats engine turns
            (battery_boot floats hi lo)
          ≡ some (b, served, posted))
        × (text : Bytes) × (handle floats battery_get payload b.battery
            ≡ some (
              b.battery,
              set_header_content_format application_json
                  ∷ set_local_payload text (length text)
                  ∷ [],
            ))
        × Shows b text
  battery_life-Shows engine hi lo turns payload numbers met =
      let (b, served, posted, life, safe, _) =
        battery_life-IsSafe floats ieee engine hi lo turns numbers met in
      let (text, answer, shows) = safe-Shows payload b safe in
      (b, served, posted, life, text, answer, shows)
