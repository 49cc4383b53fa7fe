-- ===== src/CLib/Strtoul.antt =====
-- `strtoul(s, &end, 10)` on a NUL-terminated array: leading blanks, a sign, digits. A value above
-- ULONG_MAX gives ULONG_MAX; a minus sign negates modulo ULONG_MAX + 1.
use io_t_project.Prelude.{
  ℕ, ◌+◌, ◌-◌, ◌*◌, ◌%◌, Bool, true, false, ◌&&◌, ◌||◌, Option, none, some, [], ◌∷◌, Bytes, leb,
  ltb, ◌==◌, if◌then◌else◌,
}
use io_t_project.CLib.Decimal.{ulong_max}

-- The text of a `char` array: what stands before its first NUL.
unfoldable pub c_string : Bytes → Bytes
c_string [] = []
c_string (c ∷ s) = if c == 0 then [] else c ∷ c_string s

abbrev pub is_space : ℕ → Bool
is_space c = c == b' ' || leb 9 c && leb c 13

abbrev pub is_digit : ℕ → Bool
is_digit c = leb b'0' c && leb c b'9'

unfoldable pub skip_spaces : Bytes → Bytes
skip_spaces [] = []
skip_spaces (c ∷ s) = if is_space c then skip_spaces s else c ∷ s

-- The value of the digits in front, and what stands behind them.
unfoldable pub scan_digits : ℕ → Bytes → ℕ × Bytes
scan_digits acc [] = (acc, [])
scan_digits acc (c ∷ s) =
    let rest = scan_digits (acc * 10 + (c - b'0')) s in if is_digit c then rest else (acc, c ∷ s)

abbrev pub to_ulong : Bool → ℕ → ℕ
to_ulong negative n =
    if ltb ulong_max n
    then ulong_max
    else if negative
    then (ulong_max + 1 - n) % (ulong_max + 1)
    else n

-- `none` where there are no digits, and `end` is left at the start of the text.
unfoldable pub strtoul_digits : Bool → Bytes → Option (ℕ × Bytes)
unfolding scan_digits
strtoul_digits negative [] = none
strtoul_digits negative (c ∷ s) =
    if is_digit c
    then (let (n, rest) = scan_digits 0 (c ∷ s) in some (to_ulong negative n, rest))
    else none

unfoldable pub strtoul_signed : Bytes → Option (ℕ × Bytes)
unfolding strtoul_digits
strtoul_signed [] = none
strtoul_signed (c ∷ s) =
    if c == b'-'
    then strtoul_digits true s
    else if c == b'+'
    then strtoul_digits false s
    else strtoul_digits false (c ∷ s)

unfoldable pub strtoul : Bytes → Option (ℕ × Bytes)
unfolding skip_spaces strtoul_signed
strtoul s = strtoul_signed (skip_spaces s)
