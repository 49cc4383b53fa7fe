-- ===== src/Battery/Floats.antt =====
-- The `float` of the battery node: its operations, and the facts about IEEE 754 arithmetic and C's
-- `atof` that the code relies on. A number is a value that is not NaN: NaN compares with nothing.
use io_t_project.Prelude.{
  ℕ, ◌+◌, ◌≤◌, ◌*◌, ◌/◌, ◌^◌, ◌<◌, ◌≡◌, refl, ◌⊎◌, Bool, true, false, not, ◌&&◌, Option, none, some,
  Bytes, [], ◌∷◌, codes, ◌==◌, if◌then◌else◌, arith,
}
use native.Mathlib.Nat.{div-le_of_le-mul}
use io_t_project.Prelude.Int.{ℤ, pos, negsuc, pos_part, neg_part, ◌+ℤ◌, leb_ℤ, sub_ℕ}
use io_t_project.CLib.Strtoul.{strtoul}

pub record FloatOps : Type 1 where
  pub Float : Type 0
  pub add : Float → Float → Float
  pub div : Float → Float → Float
  pub mul : Float → Float → Float
  pub neg : Float → Float
  -- `<=` and `<`
  pub le : Float → Float → Bool
  pub lt : Float → Float → Bool
  pub is_finite : Float → Bool
  -- a literal, in hundredths: `lit 95` is 0.95f
  pub lit : ℕ → Float
  pub atof : Bytes → Float
  -- the conversion to `long`; `none` where C leaves it undefined
  pub to_long : Float → Option ℤ

module _ (floats : FloatOps) where
  abbrev pub IsNumber : floats.Float → Type 0
  IsNumber x = floats.le x x ≡ true

module _ (floats : FloatOps) where
  open floats use {Float, add, mul, div, neg, le, lt, is_finite, lit, atof, to_long}

  -- Facts of IEEE 754, at the literals with round-to-nearest.
  pub record IsIeee : Type 0 where
    pub le_number : (x y : Float) → le x y ≡ true → IsNumber floats x × IsNumber floats y
    pub le_trans : (x y z : Float) → le x y ≡ true → le y z ≡ true → le x z ≡ true
    pub le_total :
        (x y : Float) → IsNumber floats x → IsNumber floats y → (le x y ≡ true) ⊎ (le y x ≡ true)
    pub lt-eq : (x y : Float) → lt x y ≡ (le x y && not (le y x))
    pub lit_lt : (a b : ℕ) → a < b → b < 2 ^ 20 → lt (lit a) (lit b) ≡ true
    pub lit_finite : (a : ℕ) → a < 2 ^ 20 → is_finite (lit a) ≡ true
    pub finite_number : (x : Float) → is_finite x ≡ true → IsNumber floats x
    pub finite_between :
        (x y z : Float)
        → is_finite x ≡ true
        → is_finite z ≡ true
        → le x y ≡ true
        → le y z ≡ true
        → is_finite y ≡ true
    pub add_number :
        (x y : Float) → is_finite x ≡ true → IsNumber floats y → IsNumber floats (add x y)
    pub add_nonpos :
        (x y : Float) → is_finite x ≡ true → le y (lit 0) ≡ true → le (add x y) x ≡ true
    pub add_nan : (x y : Float) → le x x ≡ false → le (add x y) (add x y) ≡ false
    pub add_nan_right : (x y : Float) → le y y ≡ false → le (add x y) (add x y) ≡ false
    pub div_nan : (x y : Float) → le x x ≡ false → le (div x y) (div x y) ≡ false
    -- 5.0f / 10.0f is 0.5f
    pub div_half : div (lit 500) (lit 1000) ≡ lit 50
    pub mul_nan : (x y : Float) → le x x ≡ false → le (mul x y) (mul x y) ≡ false
    -- the conversion of a NaN is undefined
    pub to_long_nan : (x : Float) → le x x ≡ false → to_long x ≡ none
    -- ten times a number from 0 to 1000, rounded to a whole number
    pub to_long_tenths :
        (x : Float)
        → le (lit 0) x ≡ true
        → le x (lit 100000) ≡ true
        → (n : ℕ) × (to_long (add (mul x (lit 1000)) (lit 50)) ≡ some (pos n)) × (n ≤ 10000)
    -- a hundred times a number from 0 to 1, rounded to a whole number
    pub to_long_percent :
        (x : Float)
        → le (lit 0) x ≡ true
        → le x (lit 100) ≡ true
        → (n : ℕ) × (to_long (add (mul x (lit 10000)) (lit 50)) ≡ some (pos n)) × (n ≤ 100)
    -- ten thousand times a number from -10000 to 10000 is far below 2 ^ 31, on either side of 0
    pub to_long_modest :
        (x : Float)
        → le (neg (lit 1000000)) x ≡ true
        → le x (lit 1000000) ≡ true
        → (z : ℤ) × (to_long
              (add (mul x (lit 1000000)) (if le (lit 0) x then lit 50 else neg (lit 50)))
            ≡ some z)
    -- -10000 is below 0
    pub neg_le_zero : le (neg (lit 1000000)) (lit 0) ≡ true
    -- a part of a positive finite whole, of at most the whole, is from 0 to 1
    pub div_bounds :
        (x y : Float)
        → is_finite y ≡ true
        → le (lit 0) x ≡ true
        → le x y ≡ true
        → lt (lit 0) y ≡ true
        → (le (lit 0) (div x y) ≡ true) × (le (div x y) (lit 100) ≡ true)
    -- the C standard: the text `nan` is a NaN
    pub atof_nan : le (atof (codes "nan")) (atof (codes "nan")) ≡ false

-- The facts can be met: whole hundredths, with `none` for NaN.
abbrev pub Hundredths : Type 0
Hundredths = Option ℤ

abbrev lift : (ℤ → ℤ → ℤ) → Hundredths → Hundredths → Hundredths
lift f (some a) (some b) = some (f a b)
lift f _ _ = none

abbrev le_hundredths : Hundredths → Hundredths → Bool
le_hundredths (some a) (some b) = leb_ℤ a b
le_hundredths _ _ = false

abbrev is_some : Hundredths → Bool
is_some none = false
is_some (some a) = true

-- The quotient, of which nothing more is asked, for a divisor that is positive.
abbrev div_ℤ : ℤ → ℤ → ℤ
div_ℤ (pos a) b = pos (a * 100 / pos_part b)
div_ℤ (negsuc a) b = negsuc (a * 100 / pos_part b)

-- The product, rounded to 0.
abbrev mul_ℤ : ℤ → ℤ → ℤ
mul_ℤ a b =
    sub_ℕ ((pos_part a * pos_part b + neg_part a * neg_part b) / 100)
      ((pos_part a * neg_part b + neg_part a * pos_part b) / 100)

abbrev trunc : Hundredths → Option ℤ
trunc none = none
trunc (some a) = some (sub_ℕ (pos_part a / 100) (neg_part a / 100))

abbrev to_hundredths : Option (ℕ × Bytes) → Hundredths
to_hundredths none = some (pos 0)
to_hundredths (some (n, rest)) = some (pos (n * 100))

abbrev negate : Hundredths → Hundredths
negate none = none
negate (some a) = some (sub_ℕ (neg_part a) (pos_part a))

-- Whole numbers with a minus sign or none, and a text with an `n` in front for NaN; any other is 0.
abbrev atof_hundredths : Bytes → Hundredths
atof_hundredths [] = some (pos 0)
atof_hundredths (c ∷ s) =
    if c == b'n'
    then none
    else if c == b'-'
    then negate (to_hundredths (strtoul s))
    else to_hundredths (strtoul (c ∷ s))

abbrev pub hundredths : FloatOps
hundredths = record {
  Float = Hundredths;
  add = lift ◌+ℤ◌;
  div = lift div_ℤ;
  mul = lift mul_ℤ;
  neg = negate;
  le = le_hundredths;
  lt = λ x y. le_hundredths x y && not (le_hundredths y x);
  is_finite = is_some;
  lit = λ a. some (pos a);
  atof = atof_hundredths;
  to_long = trunc;
}

tenths_of :
    (x : Hundredths)
    → le_hundredths (some (pos 0)) x ≡ true
    → le_hundredths x (some (pos 100000)) ≡ true
    → (n : ℕ) × (trunc (lift ◌+ℤ◌ (lift mul_ℤ x (some (pos 1000))) (some (pos 50))) ≡ some (pos n))
      × (n ≤ 10000)
unfolding ◌+ℤ◌
tenths_of none h k = cc
tenths_of (some (pos m)) h k = ((m * 10 + 50) / 100, ground arith, ground arith)
tenths_of (some (negsuc m)) h k = absurd (ground arith)

percent_of :
    (x : Hundredths)
    → le_hundredths (some (pos 0)) x ≡ true
    → le_hundredths x (some (pos 100)) ≡ true
    → (n : ℕ) × (trunc (lift ◌+ℤ◌ (lift mul_ℤ x (some (pos 10000))) (some (pos 50))) ≡ some (pos n))
      × (n ≤ 100)
unfolding ◌+ℤ◌
percent_of none h k = cc
percent_of (some (pos m)) h k = ((m * 100 + 50) / 100, ground arith, ground arith)
percent_of (some (negsuc m)) h k = absurd (ground arith)

modest_of :
    (x round : Hundredths)
    → is_some x ≡ true
    → is_some round ≡ true
    → (z : ℤ) × (trunc (lift ◌+ℤ◌ (lift mul_ℤ x (some (pos 1000000))) round) ≡ some z)
modest_of none round h k = cc
modest_of (some a) none h k = cc
modest_of (some a) (some b) h k = (_, refl)

some_of_le : (x y : Hundredths) → le_hundredths x y ≡ true → is_some y ≡ true
some_of_le none y h = cc
some_of_le (some a) none h = cc
some_of_le (some a) (some b) h = refl

round_some : (b : Bool) → is_some (if b then some (pos 50) else negate (some (pos 50))) ≡ true
round_some true = refl
round_some false = refl

div_bounds_of :
    (x y : Hundredths)
    → le_hundredths (some (pos 0)) x ≡ true
    → le_hundredths x y ≡ true
    → (le_hundredths (some (pos 0)) y && not (le_hundredths y (some (pos 0)))) ≡ true
    → (le_hundredths (some (pos 0)) (lift div_ℤ x y) ≡ true)
      × (le_hundredths (lift div_ℤ x y) (some (pos 100)) ≡ true)
div_bounds_of none y h k l = cc
div_bounds_of (some a) none h k l = cc
div_bounds_of (some (pos a)) (some (pos b)) h k l =
    let whole : a * 100 / b ≤ 100 =
      div-le_of_le-mul b {m = a * 100} {n = 100} (part (ground arith)) in
    ground arith
  where
    part : a ≤ b → a * 100 ≤ b * 100
    part p = omega arith
div_bounds_of (some (pos a)) (some (negsuc b)) h k l = absurd (ground arith)
div_bounds_of (some (negsuc a)) (some b) h k l = absurd (ground arith)

pub hundredths-IsIeee : IsIeee hundredths
unfolding strtoul ◌+ℤ◌
hundredths-IsIeee = record {
  le_number = ground arith;
  le_trans = ground arith;
  le_total = ground arith;
  lt-eq = λ x y. refl;
  lit_lt = λ a b h k. ground arith;
  lit_finite = λ a h. refl;
  finite_number = ground arith;
  finite_between = ground arith;
  add_number = ground arith;
  add_nonpos = ground arith;
  add_nan = ground arith;
  add_nan_right = ground arith;
  div_nan = ground arith;
  div_half = refl;
  mul_nan = ground arith;
  to_long_nan = ground arith;
  to_long_tenths = tenths_of;
  to_long_percent = percent_of;
  to_long_modest = λ x h k. modest_of x _ (some_of_le (some (negsuc 999999)) x h) (round_some _);
  neg_le_zero = refl;
  div_bounds = λ x y f. div_bounds_of x y;
  atof_nan = refl;
}
