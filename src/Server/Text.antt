-- ===== src/Server/Text.antt =====
-- The text of numbers as the C library reads and writes it: `std::strtoull` with base 10, `std::atoi`
-- as server/dbserver/src/database.cpp uses it, `std::to_string`, and `c_str`. Texts are lists of bytes.
use untitled.Base.{
  ℕ, zero, suc, ◌+◌, ◌-◌, ◌*◌, ◌/◌, ◌%◌, ◌^◌, ◌≤◌, ◌<◌, ◌≡◌, refl, arith, Bool, true, false, ◌&&◌,
  ◌||◌,
}
use untitled.Base.{sym, ap, ◌∙◌, subst, Bool-cases, inl, inr}
use untitled.Base.{List, [], ◌∷◌, ◌==◌, ltb, leb, if◌then◌else◌}

-- What the receiver of a `const char*` sees of a string: up to its first NUL.
unfoldable pub c_str : List ℕ → List ℕ
c_str [] = []
c_str (c ∷ cs) = let rest = c_str cs in if c == 0 then [] else c ∷ rest

-- `isspace` in the C locale.
abbrev pub is_space : ℕ → Bool
is_space c = (c == 32) || (leb 9 c && leb c 13)

pub skip_spaces : List ℕ → List ℕ
skip_spaces [] = []
skip_spaces (c ∷ cs) = let rest = skip_spaces cs in if is_space c then rest else c ∷ cs

abbrev pub is_digit : ℕ → Bool
is_digit c = leb 48 c && leb c 57

-- The number in front, behind the digits that were read so far.
pub digits_from : ℕ → List ℕ → ℕ
digits_from n [] = n
digits_from n (c ∷ cs) =
    let rest = digits_from (n * 10 + (c - 48)) cs in if is_digit c then rest else n

-- Behind an optional sign: whether it was a minus, and the number.
unfoldable pub signed : List ℕ → Bool × ℕ
unfolding digits_from
signed [] = (false, 0)
signed (c ∷ cs) =
    if c == 45
    then (true, digits_from 0 cs)
    else (if c == 43 then (false, digits_from 0 cs) else (false, digits_from 0 (c ∷ cs)))

-- Out of range is ULLONG_MAX; a minus negates in the unsigned type.
unfoldable pub strtoull : List ℕ → ℕ
unfolding signed skip_spaces
strtoull text =
    let (minus, n) = signed (skip_spaces text) in
    if leb (2 ^ 64) n then 2 ^ 64 - 1 else (if minus then (2 ^ 64 - n) % 2 ^ 64 else n)

-- `static_cast<uint8_t>(std::atoi(text))`, for the numbers that an `int` holds.
unfoldable pub atoi8 : List ℕ → ℕ
unfolding signed skip_spaces
atoi8 text =
    let (minus, n) = signed (skip_spaces text) in if minus then (256 - n % 256) % 256 else n % 256

-- `std::to_string`: the digits in front of `rest`, on fuel; a number has fewer digits than its value
-- and one.
pub decimal_from : ℕ → ℕ → List ℕ → List ℕ
decimal_from zero n rest = rest
decimal_from (suc fuel) n rest =
    let rest' = (48 + n % 10) ∷ rest in
    let more = decimal_from fuel (n / 10) rest' in if ltb n 10 then rest' else more

unfoldable pub to_string : ℕ → List ℕ
unfolding decimal_from
to_string n = decimal_from (suc n) n []

pub strtoull_bound : (text : List ℕ) → strtoull text < 2 ^ 64
unfolding strtoull
strtoull_bound text = ground arith

pub atoi8_bound : (text : List ℕ) → atoi8 text < 2 ^ 8
unfolding atoi8
atoi8_bound text = ground arith

digits_from-cons :
    (a d : ℕ) (rest : List ℕ)
    → d < 10
    → digits_from a ((48 + d) ∷ rest) ≡ digits_from (a * 10 + d) rest
unfolding digits_from
digits_from-cons a d rest h = ground (
  arith,
  ap (λ (k : ℕ). digits_from k rest) {x = a * 10 + (48 + d - 48)} {y = a * 10 + d} (omega arith),
)

-- The digits of a number, read back behind those that follow them.
digits_from-decimal_from :
    (fuel n : ℕ) (rest : List ℕ)
    → n < fuel
    → digits_from 0 (decimal_from fuel n rest) ≡ digits_from n rest
unfolding decimal_from digits_from
digits_from-decimal_from zero n rest h = absurd (omega arith)
digits_from-decimal_from (suc fuel) n rest h = elim (Bool-cases (ltb n 10)) [
  | inl small ↦ ground (arith, small)
  | inr large ↦
      let here =
        digits_from-decimal_from fuel (n / 10) ((48 + n % 10) ∷ rest) (ground (arith, large)) in
      rw large (
        here
        ∙ digits_from-cons (n / 10) (n % 10) rest (omega arith)
        ∙ ap (λ (k : ℕ). digits_from k rest) {y = n} (omega arith))
]

-- It starts with a digit.
decimal_from-cons :
    (fuel n : ℕ) (rest : List ℕ)
    → n < fuel
    → (d : ℕ) × (ds : List ℕ) × (decimal_from fuel n rest ≡ d ∷ ds) × (48 ≤ d) × (d < 58)
unfolding decimal_from
decimal_from-cons zero n rest h = absurd (omega arith)
decimal_from-cons (suc fuel) n rest h = elim (Bool-cases (ltb n 10)) [
  | inl small ↦ (48 + n % 10, rest, rw small refl, omega arith, omega arith)
  | inr large ↦
      let (d, ds, e, low, high) =
        decimal_from-cons fuel (n / 10) ((48 + n % 10) ∷ rest) (ground (arith, large)) in
      (d, ds, rw large e, low, high)
]

strtoull-cons :
    (d : ℕ) (ds : List ℕ) (n : ℕ)
    → 48 ≤ d
    → d < 58
    → digits_from 0 (d ∷ ds) ≡ n
    → n < 2 ^ 64
    → strtoull (d ∷ ds) ≡ n
unfolding strtoull signed skip_spaces
strtoull-cons d ds n low high e h = ground (arith, e)

-- What `to_string` writes starts with a digit, and the digits are those of the number.
to_string-cons :
    (n : ℕ)
    → (d : ℕ) × (ds : List ℕ) × (to_string n ≡ d ∷ ds)
      × (48 ≤ d)
      × (d < 58)
      × (digits_from 0 (d ∷ ds) ≡ n)
unfolding to_string digits_from
to_string-cons n =
    let (d, ds, e, low, high) = decimal_from-cons (suc n) n [] (omega arith) in
    let whole : digits_from 0 (decimal_from (suc n) n []) ≡ n =
      digits_from-decimal_from (suc n) n [] (omega arith) in
    (d, ds, e, low, high, ap (digits_from 0) (sym e) ∙ whole)

-- A number of 64 bits that `to_string` writes is read back by `strtoull`.
pub strtoull-to_string : (n : ℕ) → n < 2 ^ 64 → strtoull (to_string n) ≡ n
strtoull-to_string n h =
    let (d, ds, e, low, high, value) = to_string-cons n in
    subst (λ (t : List ℕ). strtoull t ≡ n) (sym e) (strtoull-cons d ds n low high value h)

atoi8-cons :
    (d : ℕ) (ds : List ℕ) (n : ℕ)
    → 48 ≤ d
    → d < 58
    → digits_from 0 (d ∷ ds) ≡ n
    → n < 2 ^ 8
    → atoi8 (d ∷ ds) ≡ n
unfolding atoi8 signed skip_spaces
atoi8-cons d ds n low high e h = ground (arith, e)

-- A byte that `to_string` writes is read back by `atoi8`.
pub atoi8-to_string : (n : ℕ) → n < 2 ^ 8 → atoi8 (to_string n) ≡ n
atoi8-to_string n h =
    let (d, ds, e, low, high, value) = to_string-cons n in
    subst (λ (t : List ℕ). atoi8 t ≡ n) (sym e) (atoi8-cons d ds n low high value h)
