-- ===== src/Tests/BatteryTests.antt =====
-- The battery node with charges in whole hundredths of a kWh.
use io_t_project.Prelude.{◌≡◌, refl, ◌⊎◌, true, false, some, List, [], ◌∷◌, ◌++◌, codes}
use io_t_project.Prelude.Int.{pos, ◌+ℤ◌}
use io_t_project.CLib.Strtoul.{strtoul}
use io_t_project.Calls.{changed_2_04, forbidden_4_03}
use io_t_project.Coap.{Payload, reply}
use io_t_project.Battery.Floats.{hundredths, hundredths-IsIeee}
use io_t_project.Battery.State.{
  Battery, initial, state_of_charge, read_delta, res_put_battery_handler, res_put_override_handler,
}
use io_t_project.Battery.Lock.{
  IsWithin, IsLockRight, res_put_battery_handler_keeps, locked_no_charge,
}
use io_t_project.Battery.Override.{capped, override-lifts_lock}
use io_t_project.Battery.Hysteresis.{latched, history, put_all-latched}
use io_t_project.Battery.Nan.{IsPoisoned, put_all, put_nan_forever}

-- 9.60 kWh of 10.00, locked.
abbrev full : Battery hundredths
full = record {
  max_capacity = some (pos 1000);
  charged_capacity = some (pos 960);
  charging_locked = true;
  override_active = false;
}

full-IsWithin : IsWithin hundredths hundredths-IsIeee full
full-IsWithin = record {
  max_finite = refl;
  max_nonneg = refl;
  charged_nonneg = refl;
  charged_le_max = refl;
}

full-IsLockRight : IsLockRight hundredths hundredths-IsIeee full
unfolding state_of_charge
full-IsLockRight = record { locked_high = λ h. refl; unlocked_low = λ h. cc }

-- A discharge to 7.60 kWh keeps the lock, one to 7.50 opens it.
hysteresis :
    let b = (res_put_battery_handler hundredths (some (codes "-2")) full).0 in
    b.charging_locked ≡ true
unfolding res_put_battery_handler strtoul ◌+ℤ◌ state_of_charge
hysteresis = refl

res_put_battery_handler_keeps_example :
    IsWithin hundredths hundredths-IsIeee
      (res_put_battery_handler hundredths (some (codes "-3")) full).0
    × IsLockRight hundredths hundredths-IsIeee
        (res_put_battery_handler hundredths (some (codes "-3")) full).0
unfolding read_delta strtoul
res_put_battery_handler_keeps_example =
    res_put_battery_handler_keeps hundredths hundredths-IsIeee (some (codes "-3")) refl
      full-IsWithin full-IsLockRight

locked_no_charge_example :
    let r = res_put_battery_handler hundredths (some (codes "2")) full in
    (hundredths.le r.0.charged_capacity full.charged_capacity ≡ true)
    × ((hundredths.lt (hundredths.lit 0) (read_delta hundredths (codes "2")) ≡ false)
        ⊎ (r ≡ (full, reply forbidden_4_03 "charging_locked" 15)))
unfolding read_delta strtoul
locked_no_charge_example =
    locked_no_charge hundredths hundredths-IsIeee b'2' [] refl full-IsWithin refl refl

put_nan_forever_example :
    ((res_put_battery_handler hundredths (some (codes "nan")) full).1
      ≡ reply changed_2_04 "updated" 7)
    × IsPoisoned hundredths (put_all hundredths (some (codes "nan") ∷ some (codes "-1") ∷ []) full)
put_nan_forever_example = put_nan_forever hundredths hundredths-IsIeee (some (codes "-1") ∷ []) full

abbrev charged_and_drawn : List Payload
charged_and_drawn = some (codes "5") ∷ some (codes "-2") ∷ []

override-lifts_lock_example :
    (r : Battery hundredths) × (res_put_override_handler hundredths (some (codes "on" ++ [])) full
      ≡ some (r, reply changed_2_04 "on" 2))
    × (r.override_active ≡ true)
    × (r.charged_capacity ≡ full.charged_capacity)
    × (r.charging_locked ≡ full.charging_locked)
    × (let before = put_all hundredths charged_and_drawn r in
        let (after, calls) = res_put_battery_handler hundredths (some (codes "2")) before in
        (calls ≡ reply changed_2_04 "updated" 7)
        × (after.charged_capacity
            ≡ capped hundredths full.max_capacity
                (hundredths.add before.charged_capacity (read_delta hundredths (codes "2"))))
        × (after.override_active ≡ true))
override-lifts_lock_example = override-lifts_lock hundredths [] full charged_and_drawn b'2' [] refl

put_all-latched_example :
    (put_all hundredths charged_and_drawn (initial hundredths)).charging_locked
    ≡ latched hundredths (history hundredths charged_and_drawn (initial hundredths) [])
put_all-latched_example = put_all-latched hundredths hundredths-IsIeee charged_and_drawn

-- Full at 10.00 kWh, and still locked at 8.00.
stays_latched :
    latched hundredths (history hundredths charged_and_drawn (initial hundredths) []) ≡ true
unfolding latched history res_put_battery_handler strtoul ◌+ℤ◌ state_of_charge initial
stays_latched = refl
