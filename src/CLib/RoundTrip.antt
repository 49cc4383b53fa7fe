-- ===== src/CLib/RoundTrip.antt =====
-- `strtoul` reads back what `%lu` prints.
use io_t_project.Prelude.{
  ℕ, ◌+◌, ◌-◌, ◌*◌, ◌/◌, ◌%◌, ◌≤◌, ◌≡◌, refl, ◌≢◌, Bool, true, false, some, [], ◌∷◌, ◌++◌, Bytes,
  All, ltb, if◌then◌else◌, arith,
}
use io_t_project.CLib.Decimal.{
  ulong_max, digits, print_lu, IsDigit, value, digits-All, value-digits,
}
use io_t_project.CLib.Strtoul.{c_string, scan_digits, to_ulong, strtoul_digits, strtoul}

scan_digits-All : (acc : ℕ) (s : Bytes) → All IsDigit s → scan_digits acc s ≡ (value acc s, [])
unfolding scan_digits
scan_digits-All acc [] h = refl
scan_digits-All acc (c ∷ s) h = ground (arith, scan_digits-All (acc * 10 + (c - b'0')) s h.1)

pub c_string-digits : (s : Bytes) → All IsDigit s → c_string s ≡ s
unfolding c_string
c_string-digits [] h = refl
c_string-digits (c ∷ s) h = ground (arith, c_string-digits s h.1)

pub strtoul_digits-All :
    (negative : Bool) (s : Bytes)
    → s ≢ []
    → All IsDigit s
    → strtoul_digits negative s ≡ some (to_ulong negative (value 0 s), [])
unfolding strtoul_digits
strtoul_digits-All negative [] ne h = absurd (ne refl)
strtoul_digits-All negative (c ∷ s) ne h = ground (arith, scan_digits-All 0 (c ∷ s) h)

pub strtoul-All :
    (s : Bytes) → s ≢ [] → All IsDigit s → strtoul s ≡ some (to_ulong false (value 0 s), [])
unfolding strtoul
strtoul-All [] ne h = absurd (ne refl)
strtoul-All (c ∷ s) ne h = ground (arith, strtoul_digits-All false (c ∷ s) ne h)

pub strtoul-minus :
    (s : Bytes) → s ≢ [] → All IsDigit s → strtoul (b'-' ∷ s) ≡ some (to_ulong true (value 0 s), [])
unfolding strtoul
strtoul-minus s ne h = strtoul_digits-All true s ne h

append-ne-nil : (s : Bytes) (c : ℕ) → s ++ (c ∷ []) ≢ []
append-ne-nil [] c e = cc
append-ne-nil (d ∷ s) c e = cc

pub print_lu-ne-nil : (n : ℕ) → print_lu n ≢ []
unfolding print_lu digits
print_lu-ne-nil n = append-ne-nil (if ltb n 10 then [] else digits 9 (n / 10)) (b'0' + n % 10)

pub value-print_lu : (n : ℕ) → n ≤ ulong_max → value 0 (print_lu n) ≡ n
unfolding print_lu
value-print_lu n h = value-digits 10 n (omega arith)

pub print_lu-All : (n : ℕ) → All IsDigit (print_lu n)
unfolding print_lu
print_lu-All n = digits-All 10 n

-- Every unsigned long is read back from its print, to the last byte.
pub strtoul-print_lu : (n : ℕ) → n ≤ ulong_max → strtoul (print_lu n) ≡ some (n, [])
strtoul-print_lu n h =
    rw (strtoul-All (print_lu n) (print_lu-ne-nil n) (print_lu-All n), value-print_lu n h)
      (ground arith)
