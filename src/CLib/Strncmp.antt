-- ===== src/CLib/Strncmp.antt =====
-- `strncmp(p, literal, n) == 0`, where `p` points to the bytes of a message. The bytes given are all
-- that may be read: `none` is a read past them.
use io_t_project.Prelude.{
  ℕ, ◌++◌, ◌≢◌, Bool-cases, inl, inr, zero, suc, ◌≤◌, ◌≡◌, refl, Bool, false, true, Option, none,
  some, [], ◌∷◌, Bytes, length, ◌==◌, if◌then◌else◌, arith,
}

-- The literal's NUL stands behind its last byte.
unfoldable pub strncmp_eq : Bytes → Bytes → ℕ → Option Bool
strncmp_eq p l zero = some true
strncmp_eq [] l (suc n) = none
strncmp_eq (c ∷ p) [] (suc n) = some (c == 0)
strncmp_eq (c ∷ p) (d ∷ l) (suc n) = if c == d then strncmp_eq p l n else some false

-- A comparison of no more bytes than there are reads none past them.
pub strncmp_eq_total :
    (p l : Bytes) (n : ℕ) → n ≤ length p → (b : Bool) × (strncmp_eq p l n ≡ some b)
unfolding strncmp_eq
strncmp_eq_total p l zero h = (true, refl)
strncmp_eq_total [] l (suc n) h = absurd (omega arith)
strncmp_eq_total (c ∷ p) [] (suc n) h = (c == 0, refl)
strncmp_eq_total (c ∷ p) (d ∷ l) (suc n) h =
    let (b, e) = strncmp_eq_total p l n (omega arith) in
    ((if c == d then b else false), ground arith)

-- Two equal texts of the literal's length: the bytes begin with the literal.
pub strncmp_eq-prefix :
    (p l : Bytes) → strncmp_eq p l (length l) ≡ some true → (rest : Bytes) × (p ≡ l ++ rest)
unfolding strncmp_eq
strncmp_eq-prefix p [] e = (p, refl)
strncmp_eq-prefix [] (d ∷ l) e = cc
strncmp_eq-prefix (c ∷ p) (d ∷ l) e = elim (Bool-cases (c == d)) [
  | inl same ↦
      let (rest, f) = strncmp_eq-prefix p l (rw same at e) in
      let head : c ≡ d = ground arith in (rest, cc)
  | inr other ↦ absurd (some_false (rw other at e))
]
  where
    some_false : ◌≡◌ {A = Option Bool} (some false) (some true) → ⊥
    some_false h = cc

-- A comparison with a literal reads past the bytes exactly where they are a part of its beginning.
pub strncmp_eq-none :
    (p l : Bytes)
    → strncmp_eq p l (length l) ≡ none
    → (rest : Bytes) × (rest ≢ []) × (p ++ rest ≡ l)
unfolding strncmp_eq
strncmp_eq-none p [] e = cc
strncmp_eq-none [] (d ∷ l) e = (d ∷ l, λ h. cc, refl)
strncmp_eq-none (c ∷ p) (d ∷ l) e = elim (Bool-cases (c == d)) [
  | inl same ↦
      let (rest, more, f) = strncmp_eq-none p l (rw same at e) in
      let head : c ≡ d = ground arith in (rest, more, cc)
  | inr other ↦ absurd (some_none (rw other at e))
]
  where
    some_none : ◌≡◌ {A = Option Bool} (some false) none → ⊥
    some_none h = cc

pub strncmp_eq_cut :
    (p rest l : Bytes) → rest ≢ [] → p ++ rest ≡ l → strncmp_eq p l (length l) ≡ none
unfolding strncmp_eq
strncmp_eq_cut p [] l h e = absurd (h refl)
strncmp_eq_cut [] (r ∷ rest) l h e = rw (← e) refl
strncmp_eq_cut (c ∷ p) (r ∷ rest) l h e =
    let same : (c == c) ≡ true = ground arith in
    rw (← e, same) (strncmp_eq_cut p (r ∷ rest) (p ++ (r ∷ rest)) h refl)
