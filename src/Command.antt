-- ===== src/Command.antt =====
-- The bodies `on` and `off`, read by `len >= n && strncmp(body, word, n) == 0`.
use io_t_project.Prelude.{
  ℕ, ◌++◌, inl, inr, Bool-cases, ◌≡◌, refl, Bool, true, false, Option, some, Bytes, length, leb,
  if◌then◌else◌, arith,
}
use io_t_project.CLib.Strncmp.{strncmp_eq, strncmp_eq_total, strncmp_eq-prefix}

pub data Command : Type 0 where
  turn_on turn_off invalid : Command

-- `&&` does not evaluate `strncmp` where the body is shorter than the word.
unfoldable pub has_word : Bytes → Bytes → ℕ → Option Bool
unfolding strncmp_eq
has_word body word n = if leb n (length body) then strncmp_eq body word n else some false

pub has_word_total : (body word : Bytes) (n : ℕ) → (b : Bool) × (has_word body word n ≡ some b)
unfolding has_word
has_word_total body word n = elim (Bool-cases (leb n (length body))) [
  | inl e ↦ rw e (strncmp_eq_total body word n (ground arith))
  | inr e ↦ rw e (false, refl)
]

-- The body begins with a word that it is found to have.
pub has_word-prefix :
    (body word : Bytes)
    → has_word body word (length word) ≡ some true
    → (rest : Bytes) × (body ≡ word ++ rest)
unfolding has_word
has_word-prefix body word e = elim (Bool-cases (leb (length word) (length body))) [
  | inl fits ↦ strncmp_eq-prefix body word (rw fits at e)
  | inr short ↦ absurd (not_some (rw short at e))
]
  where
    not_some : ◌≡◌ {A = Option Bool} (some false) (some true) → ⊥
    not_some h = cc
