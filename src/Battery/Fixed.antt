-- ===== src/Battery/Fixed.antt =====
-- `format_fixed_1` and `format_fixed_4` of resources/res-battery.c: decimals with one and with four
-- digits behind the point. `none` is a conversion to `long` that C leaves undefined.
use io_t_project.Prelude.{
  ℕ, suc, ◌+◌, ◌/◌, ◌%◌, ◌≤◌, ◌<◌, ◌≡◌, Option, some, [], ◌∷◌, ◌++◌, Bytes, codes, length,
  length-append, if◌then◌else◌, arith, ◌>>=◌,
}
use io_t_project.Prelude.Int.{ℤ, pos, negsuc, sub_ℕ}
use io_t_project.CLib.Decimal.{print_lu, length-print_lu_lt}
use io_t_project.CLib.Snprintf.{snprintf}
use io_t_project.Battery.Floats.{FloatOps}

-- `%ld`
unfoldable pub print_ld : ℤ → Bytes
print_ld (pos n) = print_lu n
print_ld (negsuc n) = b'-' ∷ print_lu (suc n)

-- `scaled / d`, which rounds to 0.
unfoldable pub whole_of : ℤ → (d : ℕ) → ℤ
whole_of (pos n) d = pos (n / d)
whole_of (negsuc n) d = sub_ℕ 0 (suc n / d)

-- `scaled % d` without its sign.
unfoldable pub frac_of : ℤ → (d : ℕ) → ℕ
frac_of (pos n) d = n % d
frac_of (negsuc n) d = suc n % d

abbrev digit : ℕ → ℕ
digit n = b'0' + n % 10

-- `%04ld` below 10000
unfoldable pub four_digits : ℕ → Bytes
four_digits n = digit (n / 1000) ∷ digit (n / 100) ∷ digit (n / 10) ∷ digit n ∷ []

unfoldable pub fixed_1 : ℤ → Bytes
unfolding print_ld whole_of frac_of
fixed_1 scaled = print_ld (whole_of scaled 10) ++ (codes "." ++ print_lu (frac_of scaled 10))

unfoldable pub fixed_4 : ℤ → Bytes
unfolding print_ld whole_of frac_of four_digits
fixed_4 scaled =
    print_ld (whole_of scaled 10000) ++ (codes "." ++ four_digits (frac_of scaled 10000))

module _ (floats : FloatOps) where
  open floats use {Float, add, mul, neg, le, lit, to_long}

  -- `value * factor` rounded to a whole number, with the factor as a literal.
  unfoldable pub scaled_by : Float → Float → Option ℤ
  scaled_by factor value =
      to_long (add (mul value factor) (if le (lit 0) value then lit 50 else neg (lit 50)))

  unfoldable pub format_fixed_1 : (buf_len : ℕ) → Float → Option Bytes
  unfolding scaled_by fixed_1
  format_fixed_1 buf_len value =
      scaled_by (lit 1000) value >>= λ scaled. some (snprintf buf_len (fixed_1 scaled))

  unfoldable pub format_fixed_4 : (buf_len : ℕ) → Float → Option Bytes
  unfolding scaled_by fixed_4
  format_fixed_4 buf_len value =
      scaled_by (lit 1000000) value >>= λ scaled. some (snprintf buf_len (fixed_4 scaled))

-- In ten-thousandths, a number above -1 and below 0 is written as its opposite: the sign that is
-- written is that of the whole part, which is 0.
pub fixed_4-loses_sign : (n : ℕ) → n < 9999 → fixed_4 (negsuc n) ≡ fixed_4 (pos (suc n))
unfolding fixed_4
fixed_4-loses_sign n h = let zero_part : suc n / 10000 ≡ 0 = omega arith in rw zero_part

pub length-fixed_1 : (n : ℕ) → n ≤ 10000 → length (fixed_1 (pos n)) ≤ 6
unfolding fixed_1
length-fixed_1 n h = omega (
  arith,
  length-print_lu_lt 3 (n / 10) (omega arith),
  length-print_lu_lt 0 (n % 10) (omega arith),
  length-append (print_lu (n / 10)) (codes "." ++ print_lu (n % 10)),
)
