-- ===== src/Battery/Json.antt =====
-- `res_get_battery_handler` of resources/res-battery.c.
use io_t_project.Prelude.{
  ℕ, ◌≤◌, ◌<◌, ◌≡◌, refl, ap, Bool, true, false, Option, none, some, List, [], ◌∷◌, ◌++◌, Bytes,
  codes, length, length-append, arith, ◌>>=◌, inl, inr, Option-cases,
}
use io_t_project.Prelude.Int.{pos}
use io_t_project.CLib.Snprintf.{snprintf, snprintf_whole}
use io_t_project.Calls.{Call, set_local_payload, set_header_content_format, application_json}
use io_t_project.Coap.{Payload}
use io_t_project.Battery.Fixed.{fixed_1, length-fixed_1, scaled_by, format_fixed_1}
use io_t_project.Battery.Floats.{FloatOps, IsIeee}
use io_t_project.Battery.State.{Battery}
use io_t_project.Battery.Lock.{IsWithin}
use io_t_project.Battery.Nan.{put_all, put_nan_forever}

abbrev pub bool_text : Bool → Bytes
bool_text true = codes "true"
bool_text false = codes "false"

unfoldable pub battery_json : (max_str charged_str : Bytes) → (locked override : Bool) → Bytes
battery_json max_str charged_str locked override =
    codes "{\"max_capacity\":"
    ++ (max_str
        ++ (codes ",\"charged_capacity\":"
            ++ (charged_str
                ++ (codes ",\"charging_locked\":"
                    ++ (bool_text locked
                        ++ (codes ",\"override\":" ++ (bool_text override ++ codes "}")))))))

length-bool_text : (b : Bool) → length (bool_text b) ≤ 5
length-bool_text true = omega arith
length-bool_text false = omega arith

length-battery_json :
    (max_str charged_str : Bytes) (locked override : Bool)
    → length max_str ≤ 6
    → length charged_str ≤ 6
    → length (battery_json max_str charged_str locked override) < 160
unfolding battery_json
length-battery_json max_str charged_str locked override h k =
    simp length-append (omega (arith, h, k, length-bool_text locked, length-bool_text override))

module _ (floats : FloatOps) where
  open floats use {Float, le, lit}

  -- The two numbers have buffers of 16 bytes, the payload one of 160. `none` is a conversion that C
  -- leaves undefined.
  unfoldable pub res_get_battery_handler : Battery floats → Option (List Call)
  unfolding format_fixed_1
  res_get_battery_handler b = do
    max_str ← format_fixed_1 floats 16 b.max_capacity
    charged_str ← format_fixed_1 floats 16 b.charged_capacity
    let payload =
        snprintf 160 (battery_json max_str charged_str b.charging_locked b.override_active)
    some (
        set_header_content_format application_json
        ∷ set_local_payload payload (length payload)
        ∷ [])

module _ (floats : FloatOps) (ieee : IsIeee floats) where
  open floats use {Float, le, lit, mul}

  pub scaled_by-tenths :
      (x : Float)
      → le (lit 0) x ≡ true
      → le x (lit 100000) ≡ true
      → (n : ℕ) × (scaled_by floats (lit 1000) x ≡ some (pos n)) × (n ≤ 10000)
  unfolding scaled_by
  scaled_by-tenths x low high =
      let (n, e, bound) = ieee.to_long_tenths x low high in (n, rw (low, scaled_by) e, bound)

  pub format_fixed_1_whole :
      (x : Float)
      → le (lit 0) x ≡ true
      → le x (lit 100000) ≡ true
      → (n : ℕ) × (scaled_by floats (lit 1000) x ≡ some (pos n))
        × (n ≤ 10000)
        × (format_fixed_1 floats 16 x ≡ some (fixed_1 (pos n)))
  unfolding format_fixed_1
  format_fixed_1_whole x low high =
      let (n, e, bound) = scaled_by-tenths x low high in
      let fits = length-fixed_1 n bound in
      let whole = snprintf_whole 16 (fixed_1 (pos n)) (omega (arith, fits)) in
      (n, e, bound, rw e (ap some whole))

  -- While the charge is between 0 and a capacity of at most 1000 kWh, GET answers with the whole JSON
  -- text of the capacity and the charge, in tenths, rounded, and of the two flags: no buffer cuts it.
  pub res_get_battery_handler_whole :
      {b : Battery floats}
      → IsWithin floats ieee b
      → le b.max_capacity (lit 100000) ≡ true
      → (max charged : ℕ) × (scaled_by floats (lit 1000) b.max_capacity ≡ some (pos max))
        × (scaled_by floats (lit 1000) b.charged_capacity ≡ some (pos charged))
        × (let text =
              battery_json
                (fixed_1 (pos max))
                (fixed_1 (pos charged))
                b.charging_locked
                b.override_active in
            res_get_battery_handler floats b
            ≡ some (
                set_header_content_format application_json
                ∷ set_local_payload text (length text)
                ∷ []))
  unfolding res_get_battery_handler
  res_get_battery_handler_whole {b} h small =
      let (m, em, bm, fm) = format_fixed_1_whole b.max_capacity h.max_nonneg small in
      let (n, en, bn, fn) =
        format_fixed_1_whole b.charged_capacity h.charged_nonneg
          (ieee.le_trans b.charged_capacity b.max_capacity (lit 100000) h.charged_le_max small) in
      let fits =
        length-battery_json (fixed_1 (pos m)) (fixed_1 (pos n)) b.charging_locked b.override_active
          (length-fixed_1 m bm) (length-fixed_1 n bn) in
      (m, n, em, en, rw (fm, fn, snprintf_whole 160 _ fits) refl)

  scaled_by_nan : (factor x : Float) → le x x ≡ false → scaled_by floats factor x ≡ none
  unfolding scaled_by
  scaled_by_nan factor x nan =
      ieee.to_long_nan _ (ieee.add_nan (mul x factor) _ (ieee.mul_nan x factor nan))

  format_fixed_1_nan : (x : Float) → le x x ≡ false → format_fixed_1 floats 16 x ≡ none
  unfolding format_fixed_1
  format_fixed_1_nan x nan = rw (scaled_by_nan (lit 1000) x nan) refl

  get_nan :
      (b : Battery floats)
      → le b.charged_capacity b.charged_capacity ≡ false
      → res_get_battery_handler floats b ≡ none
  unfolding res_get_battery_handler
  get_nan b nan = elim (Option-cases (format_fixed_1 floats 16 b.max_capacity)) [
    | inl e ↦ rw e refl
    | inr (max_str, e) ↦ rw (e, format_fixed_1_nan b.charged_capacity nan) refl
  ]

  -- After a PUT of `nan`, whatever PUTs follow, a GET converts a NaN to `long`, which is undefined.
  pub get-put_nan :
      (payloads : List Payload) (b : Battery floats)
      → res_get_battery_handler floats (put_all floats (some (codes "nan") ∷ payloads) b) ≡ none
  get-put_nan payloads b =
      get_nan (put_all floats (some (codes "nan") ∷ payloads) b)
        (put_nan_forever floats ieee payloads b).1
