-- ===== src/Battery/Override.antt =====
-- The manual override of the charge lock.
use io_t_project.Prelude.{
  ℕ, ◌≡◌, refl, ap, ◌∙◌, Bool-cases, inl, inr, true, false, none, some, List, [], ◌∷◌, ◌++◌, Bytes,
  codes, if◌then◌else◌, arith,
}
use io_t_project.Calls.{changed_2_04}
use io_t_project.Coap.{Payload, reply}
use io_t_project.Battery.Floats.{FloatOps}
use io_t_project.Battery.Nan.{put_all}
use io_t_project.Battery.State.{
  Battery, charge, update_lock_state, put_delta, read_delta, res_put_battery_handler,
  res_put_override_handler,
}

module _ (floats : FloatOps) where
  open floats use {Float, add, lt, lit}

  put_delta-frame :
      (delta : floats.Float) (b : Battery floats)
      → let b' = (put_delta floats delta b).0 in
        (b'.override_active ≡ b.override_active) × (b'.max_capacity ≡ b.max_capacity)
  unfolding put_delta
  put_delta-frame delta b = ground arith

  -- No PUT changes the override or the capacity.
  pub put-frame :
      (payload : Payload) (b : Battery floats)
      → let b' = (res_put_battery_handler floats payload b).0 in
        (b'.override_active ≡ b.override_active) × (b'.max_capacity ≡ b.max_capacity)
  unfolding res_put_battery_handler
  put-frame none b = (refl, refl)
  put-frame (some []) b = (refl, refl)
  put-frame (some (c ∷ bytes)) b = put_delta-frame (read_delta floats (c ∷ bytes)) b

  put_all-frame :
      (payloads : List Payload) (b : Battery floats)
      → let b' = put_all floats payloads b in
        (b'.override_active ≡ b.override_active) × (b'.max_capacity ≡ b.max_capacity)
  unfolding put_all
  put_all-frame [] b = (refl, refl)
  put_all-frame (payload ∷ payloads) b =
      let (override, max) = put-frame payload b in
      let (override', max') = put_all-frame payloads (res_put_battery_handler floats payload b).0 in
      (override' ∙ override, max' ∙ max)

  -- A sum kept between 0 and a capacity.
  unfoldable pub capped : (max sum : Float) → Float
  capped max sum = if lt sum (lit 0) then lit 0 else if lt max sum then max else sum

  charge-capped :
      (delta : Float) (b : Battery floats)
      → lt b.max_capacity (lit 0) ≡ false
      → (update_lock_state floats (charge floats delta b)).charged_capacity
        ≡ capped b.max_capacity (add b.charged_capacity delta)
  unfolding charge capped update_lock_state
  charge-capped delta b h = elim (Bool-cases (lt (add b.charged_capacity delta) (lit 0))) [
    | inl e ↦ rw (e, h) (ground arith)
    | inr e ↦ rw e (ground arith)
  ]

  put_delta-overridden :
      (delta : Float) (b : Battery floats)
      → b.override_active ≡ true
      → lt b.max_capacity (lit 0) ≡ false
      → let (b', calls) = put_delta floats delta b in
        (calls ≡ reply changed_2_04 "updated" 7)
        × (b'.charged_capacity ≡ capped b.max_capacity (add b.charged_capacity delta))
  unfolding put_delta
  put_delta-overridden delta b on h =
      let charged = charge-capped delta b h in (ground arith, ground arith)

  -- The conversions for the log lines aside: a body that begins with `on` activates the override,
  -- changes neither the charge nor the lock and is answered 2.04 `on`. From then on, after any further
  -- PUTs of the battery and whatever the lock, a PUT with a body is answered 2.04 `updated` and changes
  -- the charge by the number that `atof` reads, to 0 where the sum is below it and to the capacity
  -- where it is above, and the override stays active. The capacity is not below 0.
  pub override-lifts_lock :
      (rest : Bytes) (b : Battery floats) (payloads : List Payload) (c : ℕ) (bytes : Bytes)
      → lt b.max_capacity (lit 0) ≡ false
      → (r : Battery floats) × (res_put_override_handler floats (some (codes "on" ++ rest)) b
          ≡ some (r, reply changed_2_04 "on" 2))
        × (r.override_active ≡ true)
        × (r.charged_capacity ≡ b.charged_capacity)
        × (r.charging_locked ≡ b.charging_locked)
        × (let before = put_all floats payloads r in
            let (after, calls) = res_put_battery_handler floats (some (c ∷ bytes)) before in
            (calls ≡ reply changed_2_04 "updated" 7)
            × (after.charged_capacity
                ≡ capped b.max_capacity
                    (add before.charged_capacity (read_delta floats (c ∷ bytes))))
            × (after.override_active ≡ true))
  unfolding res_put_override_handler res_put_battery_handler
  override-lifts_lock rest b payloads c bytes h =
      let r : Battery floats = record b { override_active = true } in
      let before = put_all floats payloads r in
      let delta = read_delta floats (c ∷ bytes) in
      let (on, max) = put_all-frame payloads r in
      let (calls, charged) = put_delta-overridden delta before on (rw max h) in
      (
        r,
        ground arith,
        refl,
        refl,
        refl,
        (
          calls,
          charged ∙ ap (λ m. capped m (add before.charged_capacity delta)) max,
          (put_delta-frame delta before).0 ∙ on,
        ),
      )
