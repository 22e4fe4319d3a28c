-- ===== src/Net/Bytes/Layout.antt =====
-- The loops of `little` and `take` against each other: little-endian digits in base 256.
use native.Mathlib.Nat.{pow-suc, pow-le-pow_right, mod-eq_of_lt, div-add-mod, mod-lt}
use native.Mathlib.Nat.{mul_comm, div-div-eq-div-mul}
use untitled.Base.{ℕ, zero, suc, ◌+◌, ◌*◌, ◌/◌, ◌%◌, ◌^◌, ◌≤◌, ◌<◌, ◌≡◌, refl, ap, arith, ◌∙◌}
use untitled.Base.{List, [], ◌∷◌, ◌++◌, length, drop, get_or, bit_or, shl, shr, bit_or-shl}
use untitled.Net.Bytes.Writer.{little_from}
use untitled.Net.Bytes.Reader.{take_loop}

pub length-little_from : (i k v : ℕ) → length (little_from i k v) ≡ k
unfolding little_from
length-little_from i zero v = refl
length-little_from i (suc k) v = ap suc (length-little_from (suc i) k v)

pub drop_cons :
    (xs : List ℕ) (j y : ℕ) (ys : List ℕ)
    → drop j xs ≡ y ∷ ys
    → (get_or xs j 0 ≡ y) × (drop (suc j) xs ≡ ys)
drop_cons [] zero y ys h = (cc, cc)
drop_cons [] (suc j) y ys h = (cc, cc)
drop_cons (x ∷ xs) zero y ys h = (cc, cc)
drop_cons (x ∷ xs) (suc j) y ys h = drop_cons xs j y ys h

-- The weight of byte `i`.
abbrev pub weight : ℕ → ℕ
weight i = 2 ^ (8 * i)

pub weight_pos : (i : ℕ) → 0 < weight i
weight_pos i = pow-le-pow_right {n = 2} (omega arith) {i = 0} {j = 8 * i} (omega arith)

pub weight-suc : (i : ℕ) → weight (suc i) ≡ 256 * weight i
weight-suc i = rw e (simp pow-suc (omega arith))
  where
    e : 8 * suc i ≡ suc (suc (suc (suc (suc (suc (suc (suc (8 * i))))))))
    e = omega arith

-- One more digit in base 256.
mod-next_digit : (v m : ℕ) → v % (256 * m) ≡ v % m + v / m % 256 * m
mod-next_digit v m = omega (
  arith,
  div-add-mod v m,
  div-add-mod v (m * 256),
  ap (λ (t : ℕ). v % t) (mul_comm 256 m),
  ap (λ (t : ℕ). m * 256 * t) (div-div-eq-div-mul v m 256),
  ap (λ (t : ℕ). m * t) (div-add-mod (v / m) 256),
)

mod-weight-suc : (v i : ℕ) → v % weight (suc i) ≡ v % weight i + shl (shr v (8 * i) % 256) (8 * i)
mod-weight-suc v i = rw (weight-suc i) (mod-next_digit v (weight i))

pub byte_fits : (b i n : ℕ) → b < 256 → i < n → shl b (8 * i) % weight n ≡ shl b (8 * i)
byte_fits b i n hb hi = mod-eq_of_lt fits
  where
    up : weight (suc i) ≤ weight n
    up = pow-le-pow_right (omega arith) (omega arith)

    fits : shl b (8 * i) < weight n
    fits = grind (arith, up, weight-suc i, weight_pos i)

-- The loop of `take` over the bytes that the loop of `little` wrote, from index `i`.
pub take_loop-little_from :
    (n k i v acc : ℕ) (bytes : List ℕ) (offset : ℕ) (rest : List ℕ)
    → i + k ≤ n
    → drop (offset + i) bytes ≡ little_from i k v ++ rest
    → acc ≡ v % weight i
    → take_loop n bytes offset i k acc ≡ v % weight (i + k)
unfolding take_loop little_from
take_loop-little_from n zero i v acc bytes offset rest hn hd ha =
    ha ∙ ap (λ (t : ℕ). v % weight t) (omega arith)
take_loop-little_from n (suc k) i v acc bytes offset rest hn hd ha =
    take_loop-little_from n k (suc i) v _ bytes offset rest (omega arith) later joined
    ∙ ap (λ (t : ℕ). v % weight t) (omega arith)
  where
    b : ℕ
    b = shr v (8 * i) % 256

    later : drop (offset + suc i) bytes ≡ little_from (suc i) k v ++ rest
    later =
        ap (λ (t : ℕ). drop t bytes) {y = suc (offset + i)} (omega arith)
        ∙ (drop_cons bytes (offset + i) b (little_from (suc i) k v ++ rest) hd).1

    low : acc < weight i
    low = omega (arith, ha, mod-lt v (weight_pos i))

    joined : bit_or acc (shl (get_or bytes (offset + i) 0) (8 * i) % weight n) ≡ v % weight (suc i)
    joined =
        ap (λ (t : ℕ). bit_or acc (shl t (8 * i) % weight n))
          (drop_cons bytes (offset + i) b (little_from (suc i) k v ++ rest) hd).0
        ∙ ap (bit_or acc) (byte_fits b i n (mod-lt _ (omega arith)) (omega arith))
        ∙ bit_or-shl (8 * i) acc b low
        ∙ omega (arith, ha, mod-weight-suc v i)
