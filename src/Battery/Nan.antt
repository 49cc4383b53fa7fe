-- ===== src/Battery/Nan.antt =====
-- A body that `atof` reads as NaN is taken, also while the charge lock is on, and the charge is NaN
-- from then on.
use io_t_project.Prelude.{
  ◌≡◌, refl, Bool-cases, inl, inr, false, not, ◌&&◌, none, some, List, [], ◌∷◌, codes, arith,
}
use io_t_project.Calls.{changed_2_04}
use io_t_project.Coap.{Payload, reply}
use io_t_project.Battery.Floats.{FloatOps, IsIeee}
use io_t_project.Battery.State.{
  Battery, charge, update_lock_state, put_delta, read_delta, res_put_battery_handler,
}

module _ (floats : FloatOps) where
  -- The PUTs of the battery one after another.
  unfoldable pub put_all : List Payload → Battery floats → Battery floats
  put_all [] b = b
  put_all (payload ∷ payloads) b = put_all payloads (res_put_battery_handler floats payload b).0

  -- The charge is not a number.
  abbrev pub IsPoisoned : Battery floats → Type 0
  IsPoisoned b = floats.le b.charged_capacity b.charged_capacity ≡ false

module _ (floats : FloatOps) (ieee : IsIeee floats) where
  open floats use {Float, add, div, le, lt, lit, atof}

  pub nan_lt : (x y : Float) → le x x ≡ false → (lt x y ≡ false) × (lt y x ≡ false)
  nan_lt x y h =
      ground (arith, ieee.lt-eq x y, ieee.lt-eq y x, ieee.le_number x y, ieee.le_number y x)

  pub charge-IsPoisoned :
      (b : Battery floats) (delta : Float)
      → le (add b.charged_capacity delta) (add b.charged_capacity delta) ≡ false
      → IsPoisoned floats (charge floats delta b)
  unfolding charge
  charge-IsPoisoned b delta h =
      let sum = add b.charged_capacity delta in
      ground (arith, h, nan_lt sum (lit 0), nan_lt sum b.max_capacity)

  update_lock_state-IsPoisoned :
      (b : Battery floats) → IsPoisoned floats b → IsPoisoned floats (update_lock_state floats b)
  unfolding update_lock_state
  update_lock_state-IsPoisoned b h = ground arith

  -- A NaN passes the test of the lock, and the charge becomes NaN.
  put_nan :
      (b : Battery floats) (delta : Float)
      → le delta delta ≡ false
      → (IsPoisoned floats (put_delta floats delta b).0)
        × ((put_delta floats delta b).1 ≡ reply changed_2_04 "updated" 7)
  unfolding put_delta
  put_nan b delta h =
      let e : lt (lit 0) delta ≡ false = (nan_lt delta (lit 0) h).1 in
      rw e (
        update_lock_state-IsPoisoned _
            (charge-IsPoisoned b delta (ieee.add_nan_right b.charged_capacity delta h)),
        refl,
      )

  put_delta-IsPoisoned :
      (b : Battery floats) (delta : Float)
      → IsPoisoned floats b
      → IsPoisoned floats (put_delta floats delta b).0
  unfolding put_delta
  put_delta-IsPoisoned b delta h =
      elim (Bool-cases (lt (lit 0) delta && (b.charging_locked && not b.override_active))) [
        | inl e ↦ rw e h
        | inr e ↦
            let sum = charge-IsPoisoned b delta (ieee.add_nan b.charged_capacity delta h) in
            rw e (update_lock_state-IsPoisoned (charge floats delta b) sum)
      ]

  put-IsPoisoned :
      (payload : Payload) (b : Battery floats)
      → IsPoisoned floats b
      → IsPoisoned floats (res_put_battery_handler floats payload b).0
  unfolding res_put_battery_handler
  put-IsPoisoned none b h = h
  put-IsPoisoned (some []) b h = h
  put-IsPoisoned (some (c ∷ bytes)) b h = put_delta-IsPoisoned b (read_delta floats (c ∷ bytes)) h

  put_all-IsPoisoned :
      (payloads : List Payload) (b : Battery floats)
      → IsPoisoned floats b
      → IsPoisoned floats (put_all floats payloads b)
  unfolding put_all
  put_all-IsPoisoned [] b h = h
  put_all-IsPoisoned (payload ∷ payloads) b h =
      put_all-IsPoisoned payloads (res_put_battery_handler floats payload b).0
        (put-IsPoisoned payload b h)

  -- The conversions for the log lines aside: in any state, locked ones included, a PUT of the text
  -- `nan` is answered 2.04 `updated`, and after it the charge is not a number, whatever PUTs follow.
  pub put_nan_forever :
      (payloads : List Payload) (b : Battery floats)
      → ((res_put_battery_handler floats (some (codes "nan")) b).1 ≡ reply changed_2_04 "updated" 7)
        × IsPoisoned floats (put_all floats (some (codes "nan") ∷ payloads) b)
  unfolding put_all res_put_battery_handler read_delta
  put_nan_forever payloads b =
      let nan = put_nan b (atof (codes "nan")) ieee.atof_nan in
      (nan.1, put_all-IsPoisoned payloads _ nan.0)
