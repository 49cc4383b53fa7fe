-- ===== src/Battery/Logs.antt =====
-- The texts that `res_put_battery_handler` of resources/res-battery.c converts for its log lines.
-- They are made whether or not the lines are printed, and their conversions to `long` are undefined
-- where the number is not a `long`: `none` is such a conversion.
use io_t_project.Prelude.{
  ◌≡◌, refl, inl, inr, Bool-cases, true, false, not, ◌&&◌, Option, none, some, List, [], ◌∷◌, Bytes,
  codes, if◌then◌else◌, ◌>>=◌, arith,
}
use io_t_project.Prelude.Int.{pos}
use io_t_project.CLib.Snprintf.{snprintf}
use io_t_project.Coap.{Payload, payload_bytes}
use io_t_project.Battery.Fixed.{
  print_ld, fixed_1, fixed_4, scaled_by, format_fixed_1, format_fixed_4,
}
use io_t_project.Battery.Floats.{FloatOps, IsIeee, IsNumber}
use io_t_project.Battery.Json.{format_fixed_1_whole}
use io_t_project.Battery.Lock.{IsWithin, lit_le, charge-IsWithin}
use io_t_project.Battery.Nan.{nan_lt, charge-IsPoisoned}
use io_t_project.Battery.State.{Battery, state_of_charge, charge, read_delta}

module _ (floats : FloatOps) where
  open floats use {Float, add, mul, neg, le, lt, lit, to_long}

  -- The state of charge in percent.
  unfoldable pub soc_str : Battery floats → Option Bytes
  unfolding state_of_charge
  soc_str b = to_long (add (mul (state_of_charge floats b) (lit 10000)) (lit 50)) >>= λ percent.
      some (snprintf 16 (print_ld percent))

  -- A change that is taken: the state of charge behind it, the change, the charge and the capacity.
  unfoldable pub adjusted_logs : Float → Battery floats → Option (List Bytes)
  unfolding soc_str charge format_fixed_4 format_fixed_1
  adjusted_logs delta b = do
    let b' = charge floats delta b
    soc ← soc_str b'
    delta_str ← format_fixed_4 floats 16 delta
    charged_str ← format_fixed_4 floats 16 b'.charged_capacity
    max_str ← format_fixed_1 floats 16 b'.max_capacity
    some (soc ∷ delta_str ∷ charged_str ∷ max_str ∷ [])

  unfoldable pub put_delta_logs : Float → Battery floats → Option (List Bytes)
  unfolding soc_str adjusted_logs
  put_delta_logs delta b =
      if lt (lit 0) delta && (b.charging_locked && not b.override_active)
      then (soc_str b >>= λ soc. some (soc ∷ []))
      else adjusted_logs delta b

  unfoldable pub res_put_battery_logs : Payload → Battery floats → Option (List Bytes)
  unfolding put_delta_logs read_delta
  res_put_battery_logs none b = some []
  res_put_battery_logs (some []) b = some []
  res_put_battery_logs (some (c ∷ bytes)) b = put_delta_logs (read_delta floats (c ∷ bytes)) b

module _ (floats : FloatOps) (ieee : IsIeee floats) where
  open floats use {Float, add, mul, div, neg, le, lt, lit, atof, to_long}

  -- From -10000 to 10000.
  abbrev pub IsModest : Float → Type 0
  IsModest x = (le (neg (lit 1000000)) x ≡ true) × (le x (lit 1000000) ≡ true)

  pub IsModest-IsNumber : (x : Float) → IsModest x → IsNumber floats x
  IsModest-IsNumber x h = (ieee.le_number x (lit 1000000) h.1).0

  -- The capacity is positive and at most 1000 kWh.
  pub record IsSmall (b : Battery floats) : Type 0 where
    pub positive : lt (lit 0) b.max_capacity ≡ true
    pub small : le b.max_capacity (lit 100000) ≡ true

  soc_str-some :
      (b : Battery floats)
      → IsWithin floats ieee b
      → IsSmall b
      → (text : Bytes) × (soc_str floats b ≡ some text)
  unfolding soc_str state_of_charge
  soc_str-some b h k =
      let (low, high) =
        ieee.div_bounds b.charged_capacity b.max_capacity h.max_finite h.charged_nonneg
          h.charged_le_max k.positive in
      let (n, e, _) = ieee.to_long_percent (state_of_charge floats b) low high in
      (snprintf 16 (print_ld (pos n)), rw e refl)

  format_fixed_4-some :
      (x : Float) → IsModest x → (text : Bytes) × (format_fixed_4 floats 16 x ≡ some text)
  unfolding format_fixed_4 scaled_by
  format_fixed_4-some x (low, high) =
      let (z, e) = ieee.to_long_modest x low high in (snprintf 16 (fixed_4 z), rw e refl)

  charged-IsModest :
      (b : Battery floats) → IsWithin floats ieee b → IsSmall b → IsModest b.charged_capacity
  charged-IsModest b h k =
      let small =
        ieee.le_trans b.charged_capacity b.max_capacity (lit 100000) h.charged_le_max k.small in
      (
        ieee.le_trans (neg (lit 1000000)) (lit 0) b.charged_capacity ieee.neg_le_zero
            h.charged_nonneg,
        ieee.le_trans b.charged_capacity (lit 100000) (lit 1000000) small
            (lit_le floats ieee 100000 1000000 (omega arith) (omega arith)),
      )

  adjusted_logs-some :
      {b : Battery floats} (delta : Float)
      → IsModest delta
      → IsWithin floats ieee b
      → IsSmall b
      → (texts : List Bytes) × (adjusted_logs floats delta b ≡ some texts)
  unfolding adjusted_logs charge
  adjusted_logs-some {b} delta hd h k =
      let b' = charge floats delta b in
      let h' : IsWithin floats ieee b' =
        charge-IsWithin floats ieee delta (IsModest-IsNumber delta hd) h in
      let k' : IsSmall b' = record { positive = k.positive; small = k.small } in
      let (soc, es) = soc_str-some b' h' k' in
      let (delta_str, ed) = format_fixed_4-some delta hd in
      let (charged_str, ec) = format_fixed_4-some b'.charged_capacity (charged-IsModest b' h' k') in
      let (m, _, _, em) = format_fixed_1_whole floats ieee b'.max_capacity h'.max_nonneg k.small in
      (soc ∷ delta_str ∷ charged_str ∷ fixed_1 (pos m) ∷ [], rw (es, ed, ec, em) refl)

  -- While the charge is between 0 and a capacity of at most 1000 kWh, and the body is read as a number
  -- from -10000 to 10000, every conversion for the log lines is defined.
  pub res_put_battery_logs-some :
      {b : Battery floats} (payload : Payload)
      → IsModest (read_delta floats (payload_bytes payload))
      → IsWithin floats ieee b
      → IsSmall b
      → (texts : List Bytes) × (res_put_battery_logs floats payload b ≡ some texts)
  unfolding res_put_battery_logs put_delta_logs
  res_put_battery_logs-some none hd h k = ([], refl)
  res_put_battery_logs-some (some []) hd h k = ([], refl)
  res_put_battery_logs-some {b} (some (c ∷ bytes)) hd h k =
      let delta = read_delta floats (c ∷ bytes) in
      let (soc, es) = soc_str-some b h k in
      let (texts, e) = adjusted_logs-some delta hd h k in
      elim (Bool-cases (lt (lit 0) delta && (b.charging_locked && not b.override_active))) [
        | inl refused ↦ (soc ∷ [], rw (refused, es) refl)
        | inr taken ↦ (texts, rw taken e)
      ]

  soc_str-nan :
      (b : Battery floats)
      → le b.charged_capacity b.charged_capacity ≡ false
      → soc_str floats b ≡ none
  unfolding soc_str state_of_charge
  soc_str-nan b nan =
      let soc = div b.charged_capacity b.max_capacity in
      let percent = ieee.to_long_nan _ (
        ieee.add_nan (mul soc (lit 10000)) (lit 50)
          (ieee.mul_nan soc (lit 10000) (ieee.div_nan b.charged_capacity b.max_capacity nan))) in
      rw percent refl

  -- In any state, locked ones included, the log lines of a PUT of the text `nan` convert a NaN to
  -- `long`, which C leaves undefined: the text passes the test of the lock, and the state of charge is
  -- converted behind the change.
  pub res_put_battery_logs-nan :
      (b : Battery floats) → res_put_battery_logs floats (some (codes "nan")) b ≡ none
  unfolding res_put_battery_logs put_delta_logs adjusted_logs read_delta
  res_put_battery_logs-nan b =
      let delta = atof (codes "nan") in
      let low : lt (lit 0) delta ≡ false = (nan_lt floats ieee delta (lit 0) ieee.atof_nan).1 in
      let nan =
        charge-IsPoisoned floats ieee b delta
          (ieee.add_nan_right b.charged_capacity delta ieee.atof_nan) in
      rw (low, soc_str-nan (charge floats delta b) nan) refl
