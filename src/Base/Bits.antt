-- ===== src/Base/Bits.antt =====
-- Words: a shift is a product or a quotient by a power of two, and `|` joins disjoint bits.
use Prim.Native.Nat.{ℕ, zero, suc, ◌+◌, ◌*◌, ◌/◌, ◌%◌, ◌^◌, ◌≤◌, ◌<◌, max}
use Prim.Native.Nat.{bit_or, bit_xor, digits, differ, bit_or-bitwise, bit_xor-bitwise}
use mathlib.Core.Path.{◌≡◌, refl, ap}
use native.Mathlib.Nat.{pow-suc}
use native.Mathlib.Omega.{arith}

-- `x << k` before it is cut to its type, and `x >> k`.
abbrev pub shl : ℕ → ℕ → ℕ
shl x k = x * 2 ^ k

abbrev pub shr : ℕ → ℕ → ℕ
shr x k = x / 2 ^ k

abbrev or_digits : ℕ → ℕ → ℕ → ℕ
or_digits = digits (λ y. y) max

-- The digits do not depend on the fuel, once that covers the left operand.
or_digits_fuel : (m n a b : ℕ) → a ≤ m → a ≤ n → or_digits m a b ≡ or_digits n a b
or_digits_fuel zero zero a b p q = refl
or_digits_fuel zero (suc n) zero b p q = refl
or_digits_fuel zero (suc n) (suc a) b p q = absurd (omega arith)
or_digits_fuel (suc m) zero zero b p q = refl
or_digits_fuel (suc m) zero (suc a) b p q = absurd (omega arith)
or_digits_fuel (suc m) (suc n) zero b p q = refl
or_digits_fuel (suc m) (suc n) (suc a) b p q =
    omega (arith, or_digits_fuel m n (suc a / 2) (b / 2) (omega arith) (omega arith))

zero-bit_or : (b : ℕ) → bit_or 0 b ≡ b
zero-bit_or b = bit_or-bitwise 0 b

bit_or_half : (a b : ℕ) → bit_or a b ≡ 2 * bit_or (a / 2) (b / 2) + max (a % 2) (b % 2)
bit_or_half zero b = omega (arith, zero-bit_or b, zero-bit_or (b / 2))
bit_or_half (suc a) b = omega (
  arith,
  bit_or-bitwise (suc a) b,
  bit_or-bitwise (suc a / 2) (b / 2),
  or_digits_fuel a (suc a / 2) (suc a / 2) (b / 2) (omega arith) (omega arith),
)

-- `acc | (x << k)` is a sum where `acc` has only the low `k` bits.
pub bit_or-shl : (k acc x : ℕ) → acc < 2 ^ k → bit_or acc (shl x k) ≡ acc + shl x k
bit_or-shl zero zero x h = omega (arith, zero-bit_or (shl x 0))
bit_or-shl zero (suc acc) x h = absurd (omega arith)
bit_or-shl (suc k) acc x h = omega (
  arith,
  bit_or_half acc (shl x (suc k)),
  twice,
  ap (λ (t : ℕ). bit_or (acc / 2) t) half,
  bit_or-shl k (acc / 2) x (omega (arith, pow-suc 2 k)),
)
  where
    twice : shl x (suc k) ≡ 2 * shl x k
    twice = omega (arith, ap (λ (t : ℕ). x * t) (pow-suc 2 k))

    half : shl x (suc k) / 2 ≡ shl x k
    half = omega (arith, twice)

abbrev xor_digits : ℕ → ℕ → ℕ → ℕ
xor_digits = digits (λ y. y) differ

differ_zero : (x y : ℕ) → differ x y ≡ 0 → x ≡ y
differ_zero zero y h = omega arith
differ_zero (suc x) zero h = absurd (omega arith)
differ_zero (suc x) (suc y) h = ap suc (differ_zero x y h)

differ_self : (x : ℕ) → differ x x ≡ 0
differ_self zero = refl
differ_self (suc x) = differ_self x

differ-le : (x y : ℕ) → x ≤ 1 → y ≤ 1 → differ x y ≤ 1
differ-le zero y h k = k
differ-le (suc x) zero h k = h
differ-le (suc zero) (suc y) h k = omega arith
differ-le (suc (suc x)) (suc y) h k = absurd (omega arith)

xor_digits_zero : (n a b : ℕ) → a ≤ n → xor_digits n a b ≡ 0 → a ≡ b
xor_digits_zero zero zero b p h = omega arith
xor_digits_zero zero (suc a) b p h = absurd (omega arith)
xor_digits_zero (suc n) zero b p h = omega arith
xor_digits_zero (suc n) (suc a) b p h =
    let low = differ_zero (suc a % 2) (b % 2) (omega arith) in
    let high = xor_digits_zero n (suc a / 2) (b / 2) (omega arith) (omega arith) in omega arith

xor_digits_self : (n a : ℕ) → a ≤ n → xor_digits n a a ≡ 0
xor_digits_self zero zero p = refl
xor_digits_self zero (suc a) p = absurd (omega arith)
xor_digits_self (suc n) zero p = refl
xor_digits_self (suc n) (suc a) p =
    omega (arith, differ_self (suc a % 2), xor_digits_self n (suc a / 2) (omega arith))

xor_digits_lt : (n k a b : ℕ) → a ≤ n → a < 2 ^ k → b < 2 ^ k → xor_digits n a b < 2 ^ k
xor_digits_lt zero k a b p h g = g
xor_digits_lt (suc n) k zero b p h g = g
xor_digits_lt (suc n) zero (suc a) b p h g = absurd (omega arith)
xor_digits_lt (suc n) (suc k) (suc a) b p h g =
    let twice = pow-suc 2 k in
    let high = xor_digits_lt n k (suc a / 2) (b / 2) (omega arith) (omega arith) (omega arith) in
    let low = differ-le (suc a % 2) (b % 2) (omega arith) (omega arith) in omega arith

or_digits_zero : (n a b : ℕ) → a ≤ n → or_digits n a b ≡ 0 → (a ≡ 0) × (b ≡ 0)
or_digits_zero zero zero b p h = (refl, h)
or_digits_zero zero (suc a) b p h = absurd (omega arith)
or_digits_zero (suc n) zero b p h = (refl, h)
or_digits_zero (suc n) (suc a) b p h =
    let (x, y) = or_digits_zero n (suc a / 2) (b / 2) (omega arith) (omega arith) in
    (omega arith, omega arith)

or_digits_lt : (n k a b : ℕ) → a ≤ n → a < 2 ^ k → b < 2 ^ k → or_digits n a b < 2 ^ k
or_digits_lt zero k a b p h g = g
or_digits_lt (suc n) k zero b p h g = g
or_digits_lt (suc n) zero (suc a) b p h g = absurd (omega arith)
or_digits_lt (suc n) (suc k) (suc a) b p h g =
    let twice = pow-suc 2 k in
    let high = or_digits_lt n k (suc a / 2) (b / 2) (omega arith) (omega arith) (omega arith) in
    omega arith

pub bit_xor_zero : (a b : ℕ) → bit_xor a b ≡ 0 → a ≡ b
bit_xor_zero a b h = xor_digits_zero a a b (omega arith) (omega (arith, bit_xor-bitwise a b))

pub bit_xor_self : (a : ℕ) → bit_xor a a ≡ 0
bit_xor_self a = omega (arith, bit_xor-bitwise a a, xor_digits_self a a (omega arith))

pub bit_xor-lt : (k a b : ℕ) → a < 2 ^ k → b < 2 ^ k → bit_xor a b < 2 ^ k
bit_xor-lt k a b h g = omega (arith, bit_xor-bitwise a b, xor_digits_lt a k a b (omega arith) h g)

pub bit_or_zero : (a b : ℕ) → bit_or a b ≡ 0 → (a ≡ 0) × (b ≡ 0)
bit_or_zero a b h = or_digits_zero a a b (omega arith) (omega (arith, bit_or-bitwise a b))

pub bit_or-lt : (k a b : ℕ) → a < 2 ^ k → b < 2 ^ k → bit_or a b < 2 ^ k
bit_or-lt k a b h g = omega (arith, bit_or-bitwise a b, or_digits_lt a k a b (omega arith) h g)
