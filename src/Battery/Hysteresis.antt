-- ===== src/Battery/Hysteresis.antt =====
-- The charge lock against the history of the state of charge.
use io_t_project.Prelude.{
  ◌≡◌, refl, ◌∙◌, ap, inl, inr, Bool-cases, Bool, true, false, not, ◌&&◌, none, some, List, [], ◌∷◌,
  if◌then◌else◌, arith,
}
use io_t_project.Coap.{Payload}
use io_t_project.Battery.Floats.{FloatOps, IsIeee}
use io_t_project.Battery.Lock.{
  IsLockRight, initial-IsLockRight, update_lock_state-IsLockRight, thresholds_apart,
}
use io_t_project.Battery.Nan.{put_all}
use io_t_project.Battery.State.{
  Battery, initial, state_of_charge, update_lock_state, charge, put_delta, read_delta,
  res_put_battery_handler,
}

module _ (floats : FloatOps) where
  open floats use {Float, le, lt, lit}

  -- The latest state of charge outside the band between the thresholds decides: at 95% and above for a
  -- lock, at 75% and below against one. The latest stands first, and before any there is none.
  unfoldable pub latched : List Float → Bool
  latched [] = false
  latched (soc ∷ earlier) =
      if le (lit 95) soc then true else if le soc (lit 75) then false else latched earlier

  -- The states of charge behind the PUTs, the latest first, before those that are there already.
  unfoldable pub history : List Payload → Battery floats → List Float → List Float
  unfolding state_of_charge res_put_battery_handler
  history [] b socs = socs
  history (payload ∷ payloads) b socs =
      let b' = (res_put_battery_handler floats payload b).0 in
      history payloads b' (state_of_charge floats b' ∷ socs)

module _ (floats : FloatOps) (ieee : IsIeee floats) where
  open floats use {Float, div, le, lt, lit}

  -- The lock that is right for a state of charge behind this lock.
  abbrev relatch : Float → Bool → Bool
  relatch soc locked = if le (lit 95) soc then true else if le soc (lit 75) then false else locked

  abbrev Relatches : Battery floats → Battery floats → Type 0
  Relatches b b' =
      IsLockRight floats ieee b'
      × (b'.charging_locked ≡ relatch (state_of_charge floats b') b.charging_locked)

  same-Relatches : (b : Battery floats) → IsLockRight floats ieee b → Relatches b b
  same-Relatches b h =
      let soc = state_of_charge floats b in
      (
        h,
        elim (Bool-cases (le (lit 95) soc)) [
          | inl high ↦ rw high (h.locked_high high)
          | inr below ↦ elim (Bool-cases (le soc (lit 75))) [
            | inl low ↦ rw (below, low) (h.unlocked_low low)
            | inr above ↦ rw (below, above) refl
          ]
        ],
      )

  update_lock_state-Relatches : (b : Battery floats) → Relatches b (update_lock_state floats b)
  unfolding update_lock_state state_of_charge
  update_lock_state-Relatches b = (
    update_lock_state-IsLockRight floats ieee b,
    ground (arith, thresholds_apart floats ieee (div b.charged_capacity b.max_capacity)),
  )

  put_delta-Relatches :
      (delta : Float) (b : Battery floats)
      → IsLockRight floats ieee b
      → Relatches b (put_delta floats delta b).0
  unfolding put_delta charge
  put_delta-Relatches delta b h =
      elim (Bool-cases (lt (lit 0) delta && (b.charging_locked && not b.override_active))) [
        | inl e ↦ rw e (same-Relatches b h)
        | inr e ↦ rw e (update_lock_state-Relatches (charge floats delta b))
      ]

  put-Relatches :
      (payload : Payload) (b : Battery floats)
      → IsLockRight floats ieee b
      → Relatches b (res_put_battery_handler floats payload b).0
  unfolding res_put_battery_handler
  put-Relatches none b h = same-Relatches b h
  put-Relatches (some []) b h = same-Relatches b h
  put-Relatches (some (c ∷ bytes)) b h = put_delta-Relatches (read_delta floats (c ∷ bytes)) b h

  put_all-latched_from :
      (payloads : List Payload) (b : Battery floats) (socs : List Float)
      → IsLockRight floats ieee b
      → b.charging_locked ≡ latched floats socs
      → (put_all floats payloads b).charging_locked
        ≡ latched floats (history floats payloads b socs)
  unfolding put_all history latched
  put_all-latched_from [] b socs h e = e
  put_all-latched_from (payload ∷ payloads) b socs h e =
      let b' = (res_put_battery_handler floats payload b).0 in
      let (right, locked) = put-Relatches payload b h in
      put_all-latched_from payloads b' (state_of_charge floats b' ∷ socs) right
        (locked ∙ ap (relatch (state_of_charge floats b')) e)

  -- The conversions for the log lines aside: after any PUTs since the start, whatever their bodies,
  -- those that are refused and those that are read as NaN included, the charge lock is on exactly if
  -- the latest state of charge outside the band between 75% and 95% was at 95% or above.
  pub put_all-latched :
      (payloads : List Payload)
      → (put_all floats payloads (initial floats)).charging_locked
        ≡ latched floats (history floats payloads (initial floats) [])
  put_all-latched payloads =
      put_all-latched_from payloads (initial floats) [] (initial-IsLockRight floats ieee)
        (unfold initial latched in refl)
