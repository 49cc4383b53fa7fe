-- ===== src/CLib/Decimal.antt =====
-- `%lu` and `%d` of `snprintf` for values that are not negative.
use io_t_project.Prelude.{
  ℕ, zero, suc, ◌+◌, ◌-◌, ◌*◌, ◌/◌, ◌%◌, ◌^◌, ◌≤◌, ◌<◌, ◌≡◌, refl, Bool, true, false, [], ◌∷◌, ◌++◌,
  Bytes, length, All, All-append, length-append, ltb, if◌then◌else◌, arith,
}

abbrev pub ulong_max : ℕ
ulong_max = 2 ^ 32 - 1

-- At most `fuel` decimal digits, the last one last.
unfoldable pub digits : ℕ → ℕ → Bytes
digits zero n = []
digits (suc fuel) n =
    let front = digits fuel (n / 10) in (if ltb n 10 then [] else front) ++ (b'0' + n % 10) ∷ []

-- `%lu`: an unsigned long has at most ten digits.
unfoldable pub print_lu : ℕ → Bytes
print_lu n = digits 10 n

abbrev pub IsDigit : ℕ → Type 0
IsDigit c = (b'0' ≤ c) × (c ≤ b'9')

-- The number that digits spell behind `acc`.
abbrev pub value : ℕ → Bytes → ℕ
value acc [] = acc
value acc (c ∷ s) = value (acc * 10 + (c - b'0')) s

pub All-if : (b : Bool) (s : Bytes) → All IsDigit s → All IsDigit (if b then [] else s)
All-if true s h = tt
All-if false s h = h

pub digits-All : (fuel n : ℕ) → All IsDigit (digits fuel n)
unfolding digits
digits-All zero n = tt
digits-All (suc fuel) n =
    All-append IsDigit _ _ (All-if (ltb n 10) _ (digits-All fuel (n / 10)))
      ((omega arith, omega arith), tt)

pub length-digits : (fuel n : ℕ) → length (digits fuel n) ≤ fuel
unfolding digits
length-digits zero n = omega arith
length-digits (suc fuel) n = ground (
  arith,
  length-digits fuel (n / 10),
  length-append (digits fuel (n / 10)) ((b'0' + n % 10) ∷ []),
)

value-append : (acc : ℕ) (s t : Bytes) → value acc (s ++ t) ≡ value (value acc s) t
value-append acc [] t = refl
value-append acc (c ∷ s) t = value-append (acc * 10 + (c - b'0')) s t

-- Reading the digits of a number that fits gives the number.
pub value-digits : (fuel n : ℕ) → n < 10 ^ fuel → value 0 (digits fuel n) ≡ n
unfolding digits
value-digits zero n h = omega arith
value-digits (suc fuel) n h = ground (
  arith,
  value-digits fuel (n / 10) (tenth n (10 ^ fuel) (omega (arith, h))),
  value-append 0 (digits fuel (n / 10)) ((b'0' + n % 10) ∷ []),
)
  where
    tenth : (m p : ℕ) → m < p * 10 → m / 10 < p
    tenth m p lt = omega arith

pub length-print_lu : (n : ℕ) → length (print_lu n) ≤ 10
unfolding print_lu
length-print_lu n = length-digits 10 n

length-digits_lt : (fuel k n : ℕ) → n < 10 ^ suc k → length (digits fuel n) ≤ suc k
unfolding digits
length-digits_lt zero k n h = omega arith
length-digits_lt (suc fuel) zero n h = ground arith
length-digits_lt (suc fuel) (suc k) n h = ground (
  arith,
  length-digits_lt fuel k (n / 10) (omega (arith, h)),
  length-append (digits fuel (n / 10)) ((b'0' + n % 10) ∷ []),
)

-- A number below a power of ten has at most as many digits as the power has zeros.
pub length-print_lu_lt : (k n : ℕ) → n < 10 ^ suc k → length (print_lu n) ≤ suc k
unfolding print_lu
length-print_lu_lt k n h = length-digits_lt 10 k n h
