-- ===== src/Battery/Lock.antt =====
-- The charge stays between 0 and the capacity, the charge lock follows the state of charge with
-- hysteresis, and a locked battery takes no charge.
use io_t_project.Prelude.{
  ℕ, ◌<◌, ◌^◌, ◌≡◌, ◌⊎◌, inl, inr, Bool-cases, true, false, not, ◌&&◌, none, some, [], ◌∷◌, Bytes,
  arith, if◌then◌else◌,
}
use io_t_project.Calls.{forbidden_4_03}
use io_t_project.Coap.{Payload, reply, payload_bytes}
use io_t_project.Battery.Floats.{FloatOps, IsIeee, IsNumber}
use io_t_project.Battery.State.{
  Battery, initial, soc_lock_threshold, soc_unlock_threshold, state_of_charge, update_lock_state,
  charge, put_delta, read_delta, res_put_battery_handler,
}

module _ (floats : FloatOps) (ieee : IsIeee floats) where
  open floats use {Float, add, div, le, lt, is_finite, lit, atof}

  -- The charge is a number between 0 and the capacity.
  pub record IsWithin (b : Battery floats) : Type 0 where
    pub max_finite : is_finite b.max_capacity ≡ true
    pub max_nonneg : le (lit 0) b.max_capacity ≡ true
    pub charged_nonneg : le (lit 0) b.charged_capacity ≡ true
    pub charged_le_max : le b.charged_capacity b.max_capacity ≡ true

  -- At or above 95% the battery is locked, at or below 75% it is not.
  pub record IsLockRight (b : Battery floats) : Type 0 where
    pub locked_high :
        le (soc_lock_threshold floats) (state_of_charge floats b) ≡ true → b.charging_locked ≡ true
    pub unlocked_low :
        le (state_of_charge floats b) (soc_unlock_threshold floats) ≡ true
        → b.charging_locked ≡ false

  pub lit_le : (a b : ℕ) → a < b → b < 2 ^ 20 → le (lit a) (lit b) ≡ true
  lit_le a b h k = ground (arith, ieee.lit_lt a b h k, ieee.lt-eq (lit a) (lit b))

  pub initial-IsWithin : IsWithin (initial floats)
  unfolding initial
  initial-IsWithin = record {
    max_finite = ieee.lit_finite 1000 (omega arith);
    max_nonneg = lit_le 0 1000 (omega arith) (omega arith);
    charged_nonneg = lit_le 0 500 (omega arith) (omega arith);
    charged_le_max = lit_le 500 1000 (omega arith) (omega arith);
  }

  -- No value is both at least 0.95 and at most 0.75.
  pub thresholds_apart : (x : Float) → le (lit 95) x ≡ true → le x (lit 75) ≡ true → ⊥
  thresholds_apart x h k =
      let below : le (lit 95) (lit 75) ≡ true = ieee.le_trans (lit 95) x (lit 75) h k in
      ground
        (arith, below, ieee.lit_lt 75 95 (omega arith) (omega arith), ieee.lt-eq (lit 75) (lit 95))

  pub initial-IsLockRight : IsLockRight (initial floats)
  unfolding initial state_of_charge
  initial-IsLockRight = record {
    locked_high = λ h. absurd (half_low (rw ieee.div_half at h));
    unlocked_low = λ h. cc;
  }
    where
      half_low : le (lit 95) (lit 50) ≡ true → ⊥
      half_low h =
          ground
            (arith, h, ieee.lit_lt 50 95 (omega arith) (omega arith), ieee.lt-eq (lit 50) (lit 95))

  -- Whatever the state of charge, NaN included, the lock is right after its update.
  pub update_lock_state-IsLockRight :
      (b : Battery floats) → IsLockRight (update_lock_state floats b)
  unfolding update_lock_state state_of_charge
  update_lock_state-IsLockRight b =
      ground (arith, thresholds_apart (div b.charged_capacity b.max_capacity))

  lit-IsNumber : (a : ℕ) → a < 2 ^ 20 → IsNumber floats (lit a)
  lit-IsNumber a h = ieee.finite_number (lit a) (ieee.lit_finite a h)

  not_lt_le : (x y : Float) → IsNumber floats x → IsNumber floats y → lt x y ≡ false → le y x ≡ true
  not_lt_le x y hx hy h = ground (arith, ieee.lt-eq x y, ieee.le_total x y)

  lt_le : (x y : Float) → lt x y ≡ true → le x y ≡ true
  lt_le x y h = ground (arith, ieee.lt-eq x y)

  charged_finite : {b : Battery floats} → IsWithin b → is_finite b.charged_capacity ≡ true
  charged_finite {b} h =
      ieee.finite_between (lit 0) b.charged_capacity b.max_capacity
        (ieee.lit_finite 0 (omega arith)) h.max_finite h.charged_nonneg h.charged_le_max

  clamp_within :
      (sum m : Float)
      → IsNumber floats sum
      → le (lit 0) m ≡ true
      → let low = if lt sum (lit 0) then lit 0 else sum in
        let c = if lt m low then m else low in (le (lit 0) c ≡ true) × (le c m ≡ true)
  clamp_within sum m hs hm =
      let zero_number = lit-IsNumber 0 (omega arith) in
      let m_number = (ieee.le_number (lit 0) m hm).1 in
      ground (
        arith,
        zero_number,
        m_number,
        hs,
        hm,
        not_lt_le sum (lit 0) hs zero_number,
        not_lt_le m sum m_number hs,
        not_lt_le m (lit 0) m_number zero_number,
      )

  pub charge-IsWithin :
      {b : Battery floats} (delta : Float)
      → IsNumber floats delta
      → IsWithin b
      → IsWithin (charge floats delta b)
  unfolding charge
  charge-IsWithin {b} delta hd h =
      let sum_number = ieee.add_number b.charged_capacity delta (charged_finite h) hd in
      let within =
        clamp_within (add b.charged_capacity delta) b.max_capacity sum_number h.max_nonneg in
      record {
        max_finite = h.max_finite;
        max_nonneg = h.max_nonneg;
        charged_nonneg = within.0;
        charged_le_max = within.1;
      }

  update_lock_state-IsWithin :
      {b : Battery floats} → IsWithin b → IsWithin (update_lock_state floats b)
  unfolding update_lock_state
  update_lock_state-IsWithin h = ground arith

  -- A change by a number keeps the charge between 0 and the capacity, and the lock right, on every
  -- branch.
  pub put_delta_keeps :
      {b : Battery floats} (delta : Float)
      → IsNumber floats delta
      → IsWithin b
      → IsLockRight b
      → IsWithin (put_delta floats delta b).0 × IsLockRight (put_delta floats delta b).0
  unfolding put_delta
  put_delta_keeps {b} delta hd h k =
      elim (Bool-cases (lt (lit 0) delta && (b.charging_locked && not b.override_active))) [
        | inl e ↦ rw e (h, k)
        | inr e ↦ rw e (
          update_lock_state-IsWithin (charge-IsWithin delta hd h),
          update_lock_state-IsLockRight (charge floats delta b),
        )
      ]

  -- The conversions for the log lines aside: a PUT of the battery whose body, or the empty text where
  -- there is none, `atof` reads as a number keeps a charge between 0 and the capacity there, and a
  -- right lock right: locked at 95% and above, unlocked at 75% and below.
  pub res_put_battery_handler_keeps :
      {b : Battery floats} (payload : Payload)
      → IsNumber floats (read_delta floats (payload_bytes payload))
      → IsWithin b
      → IsLockRight b
      → IsWithin (res_put_battery_handler floats payload b).0
        × IsLockRight (res_put_battery_handler floats payload b).0
  unfolding res_put_battery_handler
  res_put_battery_handler_keeps none hd h k = (h, k)
  res_put_battery_handler_keeps (some []) hd h k = (h, k)
  res_put_battery_handler_keeps (some (c ∷ bytes)) hd h k =
      put_delta_keeps (read_delta floats (c ∷ bytes)) hd h k

  charge_nonpos-le :
      {b : Battery floats} (delta : Float)
      → le delta (lit 0) ≡ true
      → IsWithin b
      → le (charge floats delta b).charged_capacity b.charged_capacity ≡ true
  unfolding charge
  charge_nonpos-le {b} delta hd h =
      let down = ieee.add_nonpos b.charged_capacity delta (charged_finite h) hd in
      let sum = add b.charged_capacity delta in
      ground (
        arith,
        down,
        h.charged_nonneg,
        lt_le b.max_capacity sum,
        lt_le b.max_capacity (lit 0),
        ieee.le_trans b.max_capacity sum b.charged_capacity,
        ieee.le_trans b.max_capacity (lit 0) b.charged_capacity,
      )

  pub update_lock_state-charged :
      (b : Battery floats) → (update_lock_state floats b).charged_capacity ≡ b.charged_capacity
  unfolding update_lock_state
  update_lock_state-charged b = ground arith

  put_delta_refuses :
      (b : Battery floats) (delta : Float)
      → b.charging_locked ≡ true
      → b.override_active ≡ false
      → lt (lit 0) delta ≡ true
      → put_delta floats delta b ≡ (b, reply forbidden_4_03 "charging_locked" 15)
  unfolding put_delta
  put_delta_refuses b delta locked no_override h = ground arith

  put_delta_takes :
      (b : Battery floats) (delta : Float)
      → lt (lit 0) delta ≡ false
      → (put_delta floats delta b).0 ≡ update_lock_state floats (charge floats delta b)
  unfolding put_delta
  put_delta_takes b delta h = ground arith

  -- The conversions for the log lines aside: while the charge is between 0 and the capacity, the lock
  -- is on and no override is active, a PUT whose body, of at least one byte, `atof` reads as a number
  -- never raises the charge, and the number is not positive or is answered 4.03 and changes nothing.
  pub locked_no_charge :
      {b : Battery floats} (c : ℕ) (bytes : Bytes)
      → IsNumber floats (read_delta floats (c ∷ bytes))
      → IsWithin b
      → b.charging_locked ≡ true
      → b.override_active ≡ false
      → let r = res_put_battery_handler floats (some (c ∷ bytes)) b in
        (le r.0.charged_capacity b.charged_capacity ≡ true)
        × ((lt (lit 0) (read_delta floats (c ∷ bytes)) ≡ false)
            ⊎ (r ≡ (b, reply forbidden_4_03 "charging_locked" 15)))
  unfolding res_put_battery_handler
  locked_no_charge {b} c bytes hd h locked no_override =
      let delta = read_delta floats (c ∷ bytes) in
      let stays = ieee.finite_number b.charged_capacity (charged_finite h) in
      (
        elim (Bool-cases (lt (lit 0) delta)) [
          | inl e ↦ rw (put_delta_refuses b delta locked no_override e) stays
          | inr e ↦
              rw (put_delta_takes b delta e, update_lock_state-charged (charge floats delta b))
                (charge_nonpos-le delta
                  (not_lt_le (lit 0) delta (lit-IsNumber 0 (omega arith)) hd e) h)
        ],
        elim (Bool-cases (lt (lit 0) delta)) [
          | inl e ↦ inr (put_delta_refuses b delta locked no_override e)
          | inr e ↦ inl e
        ],
      )
