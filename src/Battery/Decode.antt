-- ===== src/Battery/Decode.antt =====
-- A reader of the JSON text of a battery, and the round trip with `res_get_battery_handler` of
-- resources/res-battery.c.
use io_t_project.Prelude.{
  ℕ, ◌+◌, ◌*◌, ◌/◌, ◌%◌, ◌≤◌, ◌≡◌, refl, Bool, true, false, Option, none, some, [], ◌∷◌, ◌++◌,
  Bytes, codes, length, arith, append_assoc, ◌>>=◌,
}
use io_t_project.Prelude.Int.{pos}
use io_t_project.Reader.{expect, read_number, read_number-print_lu}
use io_t_project.CLib.Decimal.{print_lu}
use io_t_project.Calls.{set_local_payload, set_header_content_format, application_json}
use io_t_project.Battery.Fixed.{fixed_1, scaled_by}
use io_t_project.Battery.Floats.{FloatOps, IsIeee}
use io_t_project.Battery.Json.{
  bool_text, battery_json, res_get_battery_handler, res_get_battery_handler_whole, scaled_by-tenths,
}
use io_t_project.Battery.Lock.{IsWithin}
use io_t_project.Battery.State.{Battery}

-- What the text says, with the capacities in tenths.
pub record BatteryFields : Type 0 where
  pub max_capacity : ℕ
  pub charged_capacity : ℕ
  pub charging_locked : Bool
  pub override_active : Bool

unfoldable read_tenths : Bytes → Option (ℕ × Bytes)
unfolding expect read_number
read_tenths s0 = do
  (whole, s1) ← read_number s0
  s2 ← expect (codes ".") s1
  (tenths, s3) ← read_number s2
  some (whole * 10 + tenths, s3)

unfoldable read_bool : Bytes → Option (Bool × Bytes)
unfolding expect
read_bool text = elim (expect (codes "true") text) [
  | none ↦ expect (codes "false") text >>= λ rest. some (false, rest)
  | some rest ↦ some (true, rest)
]

unfoldable pub decode_battery : Bytes → Option BatteryFields
unfolding expect read_tenths read_bool
decode_battery s0 = do
  s1 ← expect (codes "{\"max_capacity\":") s0
  (max, s2) ← read_tenths s1
  s3 ← expect (codes ",\"charged_capacity\":") s2
  (charged, s4) ← read_tenths s3
  s5 ← expect (codes ",\"charging_locked\":") s4
  (locked, s6) ← read_bool s5
  s7 ← expect (codes ",\"override\":") s6
  (override, s8) ← read_bool s7
  s9 ← expect (codes "}") s8
  some (record {
    max_capacity = max;
    charged_capacity = charged;
    charging_locked = locked;
    override_active = override;
  })

read_tenths-fixed_1 :
    (n : ℕ) (behind : Bytes)
    → n ≤ 10000
    → read_tenths (fixed_1 (pos n) ++ (b',' ∷ behind)) ≡ some (n, b',' ∷ behind)
unfolding read_tenths fixed_1 expect
read_tenths-fixed_1 n behind h =
    let whole : n / 10 * 10 + n % 10 ≡ n = omega arith in
    rw
      (
        append_assoc (print_lu (n / 10)) (codes "." ++ print_lu (n % 10)) (b',' ∷ behind),
        read_number-print_lu (n / 10) b'.' (print_lu (n % 10) ++ (b',' ∷ behind)) (omega arith)
            refl,
        read_number-print_lu (n % 10) b',' behind (omega arith) refl,
        whole,
      )
      refl

read_bool-bool_text :
    (b : Bool) (behind : Bytes) → read_bool (bool_text b ++ behind) ≡ some (b, behind)
unfolding read_bool expect
read_bool-bool_text true behind = refl
read_bool-bool_text false behind = refl

decode-battery_json :
    (max charged : ℕ) (locked override : Bool)
    → max ≤ 10000
    → charged ≤ 10000
    → decode_battery (battery_json (fixed_1 (pos max)) (fixed_1 (pos charged)) locked override)
      ≡ some (record {
        max_capacity = max;
        charged_capacity = charged;
        charging_locked = locked;
        override_active = override;
      })
unfolding decode_battery battery_json expect
decode-battery_json max charged locked override hm hc =
    rw
      (
        read_tenths-fixed_1 max _ hm,
        read_tenths-fixed_1 charged _ hc,
        read_bool-bool_text locked _,
        read_bool-bool_text override _,
      )
      refl

module _ (floats : FloatOps) (ieee : IsIeee floats) where
  open floats use {Float, le, lit}

  tenths_bound :
      (x : Float) (n : ℕ)
      → scaled_by floats (lit 1000) x ≡ some (pos n)
      → le (lit 0) x ≡ true
      → le x (lit 100000) ≡ true
      → n ≤ 10000
  tenths_bound x n e low high =
      let (m, f, bound) = scaled_by-tenths floats ieee x low high in
      let same : m ≡ n = cc in omega (arith, bound, same)

  -- While the charge is between 0 and a capacity of at most 1000 kWh, the text that GET answers with
  -- reads back as the capacity and the charge in tenths of a kWh, as they are rounded, and as the two
  -- flags.
  pub decode-res_get_battery_handler :
      {b : Battery floats}
      → IsWithin floats ieee b
      → le b.max_capacity (lit 100000) ≡ true
      → (max charged : ℕ) × (scaled_by floats (lit 1000) b.max_capacity ≡ some (pos max))
        × (scaled_by floats (lit 1000) b.charged_capacity ≡ some (pos charged))
        × ((text : Bytes) × (res_get_battery_handler floats b
              ≡ some (
                  set_header_content_format application_json
                  ∷ set_local_payload text (length text)
                  ∷ []))
            × (decode_battery text
                ≡ some (record {
                  max_capacity = max;
                  charged_capacity = charged;
                  charging_locked = b.charging_locked;
                  override_active = b.override_active;
                })))
  decode-res_get_battery_handler {b} h small =
      let (max, charged, em, ec, answer) = res_get_battery_handler_whole floats ieee h small in
      let bm = tenths_bound b.max_capacity max em h.max_nonneg small in
      let bc =
        tenths_bound b.charged_capacity charged ec h.charged_nonneg
          (ieee.le_trans b.charged_capacity b.max_capacity (lit 100000) h.charged_le_max small) in
      (
        max,
        charged,
        em,
        ec,
        (_, answer, decode-battery_json max charged b.charging_locked b.override_active bm bc),
      )
