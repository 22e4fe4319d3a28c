-- ===== src/Sim/Float.antt =====
-- The `float` and `double` of the code. A float is its 32-bit pattern and a double its 64-bit pattern.
-- Comparisons are on the patterns; arithmetic and the functions of <cmath> are a parameter.
use untitled.Base.{ℕ, ◌+◌, ◌-◌, ◌%◌, ◌^◌, Bool, true, false, not, ◌&&◌}
use untitled.Base.{ltb, leb, if◌then◌else◌, ◌≡◌, arith}

-- `to_int32` is the cast to int32_t, as a 32-bit word.
pub record Fpu : Type 0 where
  pub add : ℕ → ℕ → ℕ
  pub sub : ℕ → ℕ → ℕ
  pub mul : ℕ → ℕ → ℕ
  pub div : ℕ → ℕ → ℕ
  pub neg : ℕ → ℕ
  pub sqrt : ℕ → ℕ
  pub sin : ℕ → ℕ
  pub cos : ℕ → ℕ
  pub floor : ℕ → ℕ
  pub exp2 : ℕ → ℕ
  pub of_nat : ℕ → ℕ
  pub to_int32 : ℕ → ℕ
  pub d_add : ℕ → ℕ → ℕ
  pub d_sub : ℕ → ℕ → ℕ
  pub d_mul : ℕ → ℕ → ℕ
  pub d_div : ℕ → ℕ → ℕ
  pub d_of_nat : ℕ → ℕ
  pub d_sin : ℕ → ℕ
  pub d_cos : ℕ → ℕ
  pub widen : ℕ → ℕ
  pub narrow : ℕ → ℕ

abbrev pub magnitude : ℕ → ℕ
magnitude f = f % 2 ^ 31

abbrev pub is_negative : ℕ → Bool
is_negative f = leb (2 ^ 31) f

abbrev pub infinity : ℕ
infinity = 0x7f800000

abbrev pub is_nan : ℕ → Bool
is_nan f = ltb infinity (magnitude f)

-- Where a pattern lies in the order of the numbers, NaN aside; both zeros lie at the middle.
abbrev pub rank : ℕ → ℕ
rank f = if is_negative f then 2 ^ 31 - magnitude f else 2 ^ 31 + magnitude f

unfoldable pub lt : ℕ → ℕ → Bool
lt a b = not (is_nan a) && not (is_nan b) && ltb (rank a) (rank b)

unfoldable pub le : ℕ → ℕ → Bool
le a b = not (is_nan a) && not (is_nan b) && leb (rank a) (rank b)

-- The comparisons of doubles.
abbrev pub d_magnitude : ℕ → ℕ
d_magnitude d = d % 2 ^ 63

abbrev pub d_is_nan : ℕ → Bool
d_is_nan d = ltb 0x7ff0000000000000 (d_magnitude d)

abbrev pub d_rank : ℕ → ℕ
d_rank d = if leb (2 ^ 63) d then 2 ^ 63 - d_magnitude d else 2 ^ 63 + d_magnitude d

unfoldable pub d_le : ℕ → ℕ → Bool
d_le a b = not (d_is_nan a) && not (d_is_nan b) && leb (d_rank a) (d_rank b)

unfoldable pub d_lt : ℕ → ℕ → Bool
d_lt a b = not (d_is_nan a) && not (d_is_nan b) && ltb (d_rank a) (d_rank b)

-- `std::clamp`
unfoldable pub clamp : ℕ → ℕ → ℕ → ℕ
unfolding lt
clamp v lo hi = if lt v lo then lo else (if lt hi v then hi else v)

abbrev pub zero_f : ℕ
zero_f = 0

abbrev pub one_f : ℕ
one_f = 0x3f800000

abbrev pub minus_one_f : ℕ
minus_one_f = 0xbf800000

abbrev pub half_f : ℕ
half_f = 0x3f000000

-- A number is clamped into the range.
pub clamp_bounds :
    (v lo hi : ℕ)
    → is_nan v ≡ false
    → le lo hi ≡ true
    → (le lo (clamp v lo hi) ≡ true) × (le (clamp v lo hi) hi ≡ true)
unfolding clamp lt le
clamp_bounds v lo hi h r = ground arith

-- NaN is not.
pub clamp_nan : (v lo hi : ℕ) → is_nan v ≡ true → clamp v lo hi ≡ v
unfolding clamp lt
clamp_nan v lo hi h = ground arith
