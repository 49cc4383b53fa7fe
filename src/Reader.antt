-- ===== src/Reader.antt =====
-- A reader of the texts that the nodes send: literals, numbers, and texts in quotes. It describes the
-- texts apart from the code that prints them.
use io_t_project.Prelude.{
  ℕ, ◌+◌, ◌-◌, ◌*◌, ◌≤◌, ◌≡◌, refl, ◌∙◌, ◌≢◌, inl, inr, Bool-cases, true, false, Option, none, some,
  [], ◌∷◌, ◌++◌, Bytes, All, ◌==◌, if◌then◌else◌, arith, ◌>>=◌,
}
use io_t_project.CLib.Decimal.{ulong_max, print_lu, IsDigit, value}
use io_t_project.CLib.RoundTrip.{print_lu-All, print_lu-ne-nil, value-print_lu}
use io_t_project.CLib.Strtoul.{scan_digits, is_digit}

-- What stands behind a literal.
unfoldable pub expect : (literal text : Bytes) → Option Bytes
expect [] text = some text
expect (c ∷ literal) [] = none
expect (c ∷ literal) (d ∷ text) = if c == d then expect literal text else none

-- The text up to a quote, and what stands behind the quote.
unfoldable pub until_quote : Bytes → Option (Bytes × Bytes)
until_quote [] = none
until_quote (c ∷ text) =
    let rest = until_quote text >>= λ (found, behind). some (c ∷ found, behind) in
    if c == b'"' then some ([], text) else rest

unfoldable pub read_number : Bytes → Option (ℕ × Bytes)
read_number [] = none
read_number (c ∷ text) = if is_digit c then some (scan_digits 0 (c ∷ text)) else none

abbrev pub HasNoQuote : Bytes → Type 0
HasNoQuote = All (λ c. c ≢ b'"')

pub until_quote-append :
    (text behind : Bytes)
    → HasNoQuote text
    → until_quote (text ++ (b'"' ∷ behind)) ≡ some (text, behind)
unfolding until_quote
until_quote-append [] behind h = refl
until_quote-append (c ∷ text) behind h = elim (Bool-cases (c == b'"')) [
  | inl e ↦ absurd (h.0 (ground arith))
  | inr e ↦ rw (e, until_quote-append text behind h.1) refl
]

scan_digits-append :
    (acc : ℕ) (s : Bytes) (c : ℕ) (behind : Bytes)
    → All IsDigit s
    → is_digit c ≡ false
    → scan_digits acc (s ++ (c ∷ behind)) ≡ (value acc s, c ∷ behind)
unfolding scan_digits
scan_digits-append acc [] c behind h e = rw e refl
scan_digits-append acc (d ∷ s) c behind h e =
    let ih = scan_digits-append (acc * 10 + (d - b'0')) s c behind h.1 e in
    let digit : is_digit d ≡ true = ground arith in rw (digit, ih) refl

read_number-append :
    (s : Bytes) (c : ℕ) (behind : Bytes)
    → s ≢ []
    → All IsDigit s
    → is_digit c ≡ false
    → read_number (s ++ (c ∷ behind)) ≡ some (value 0 s, c ∷ behind)
unfolding read_number
read_number-append [] c behind ne h e = absurd (ne refl)
read_number-append (d ∷ s) c behind ne h e =
    let digit : is_digit d ≡ true = ground arith in
    rw (digit, scan_digits-append 0 (d ∷ s) c behind h e) refl

-- A printed unsigned long is read off the front of a text.
pub read_number-print_lu :
    (n c : ℕ) (behind : Bytes)
    → n ≤ ulong_max
    → is_digit c ≡ false
    → read_number (print_lu n ++ (c ∷ behind)) ≡ some (n, c ∷ behind)
read_number-print_lu n c behind h e =
    read_number-append (print_lu n) c behind (print_lu-ne-nil n) (print_lu-All n) e
    ∙ rw (value-print_lu n h) refl
