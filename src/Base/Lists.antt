-- ===== src/Base/Lists.antt =====
-- Lists measured and indexed by native numbers, under the library's names, and the predicate `All`.
use Prim.Native.Nat.{ℕ, zero, suc, ◌+◌, ◌-◌, ◌≤◌, ◌<◌, min}
use mathlib.Core.Path.{◌≡◌, refl, ap, ◌∙◌, sym}
use mathlib.Core.Logic.{◌⊎◌, inl, inr}
use mathlib.Core.Bool.{Bool}
use mathlib.Core.List.{List, [], ◌∷◌, ◌++◌}
use mathlib.Core.Option.{Option, none, some}
use native.Mathlib.Omega.{arith}
use untitled.Base.Tests.{if◌then◌else◌}

module _ {ℓ} {A : Type ℓ} where
  abbrev pub length : List A → ℕ
  length [] = 0
  length (x ∷ xs) = suc (length xs)

  abbrev pub get_elem? : List A → ℕ → Option A
  get_elem? [] i = none
  get_elem? (x ∷ xs) zero = some x
  get_elem? (x ∷ xs) (suc i) = get_elem? xs i

  abbrev pub get_or : List A → ℕ → A → A
  get_or [] i d = d
  get_or (x ∷ xs) zero d = x
  get_or (x ∷ xs) (suc i) d = get_or xs i d

  abbrev pub take : ℕ → List A → List A
  take zero xs = []
  take (suc n) [] = []
  take (suc n) (x ∷ xs) = x ∷ take n xs

  abbrev pub drop : ℕ → List A → List A
  drop zero xs = xs
  drop (suc n) [] = []
  drop (suc n) (x ∷ xs) = drop n xs

  -- Keeps the entries that pass the test.
  abbrev pub keep : (A → Bool) → List A → List A
  keep p [] = []
  keep p (x ∷ xs) = if p x then x ∷ keep p xs else keep p xs

  abbrev pub All {κ} : (A → Type κ) → List A → Type κ
  All P [] = Unit {κ}
  All P (x ∷ xs) = P x × All P xs

module _ {ℓ} {A : Type ℓ} where
  pub length-append : (xs ys : List A) → length (xs ++ ys) ≡ length xs + length ys
  length-append [] ys = omega arith
  length-append (x ∷ xs) ys = omega (arith, length-append xs ys)

  pub length-take : (n : ℕ) (xs : List A) → length (take n xs) ≡ min n (length xs)
  length-take zero xs = omega arith
  length-take (suc n) [] = omega arith
  length-take (suc n) (x ∷ xs) = omega (arith, length-take n xs)

  pub length-drop : (n : ℕ) (xs : List A) → length (drop n xs) ≡ length xs - n
  length-drop zero xs = omega arith
  length-drop (suc n) [] = omega arith
  length-drop (suc n) (x ∷ xs) = omega (arith, length-drop n xs)

  pub take-append-drop : (n : ℕ) (xs : List A) → take n xs ++ drop n xs ≡ xs
  take-append-drop zero xs = refl
  take-append-drop (suc n) [] = refl
  take-append-drop (suc n) (x ∷ xs) = ap (◌∷◌ x) (take-append-drop n xs)

  pub take-append : (xs ys : List A) → take (length xs) (xs ++ ys) ≡ xs
  take-append [] ys = refl
  take-append (x ∷ xs) ys = ap (◌∷◌ x) (take-append xs ys)

  pub drop-append : (xs ys : List A) → drop (length xs) (xs ++ ys) ≡ ys
  drop-append [] ys = refl
  drop-append (x ∷ xs) ys = drop-append xs ys

  pub drop-nil : (n : ℕ) → drop {A = A} n [] ≡ []
  drop-nil zero = refl
  drop-nil (suc n) = refl

  pub drop_further :
      (j : ℕ) (xs ys zs : List A) → drop j xs ≡ ys ++ zs → drop (j + length ys) xs ≡ zs
  drop_further zero xs ys zs h =
      ap (λ (t : ℕ). drop t xs) {y = length ys} (omega arith)
      ∙ ap (drop (length ys)) h
      ∙ drop-append ys zs
  drop_further (suc j) [] [] zs h = drop-nil (suc j + 0) ∙ h
  drop_further (suc j) [] (y ∷ ys) zs h = cc
  drop_further (suc j) (x ∷ xs) ys zs h =
      ap (λ (t : ℕ). drop t (x ∷ xs)) {y = suc (j + length ys)} (omega arith)
      ∙ drop_further j xs ys zs h

  pub drop_past : (n : ℕ) (xs : List A) → length xs ≤ n → drop n xs ≡ []
  drop_past n [] h = drop-nil n
  drop_past zero (x ∷ xs) h = absurd (omega arith)
  drop_past (suc n) (x ∷ xs) h = drop_past n xs (omega arith)

  pub drop-drop : (m n : ℕ) (xs : List A) → drop (m + n) xs ≡ drop n (drop m xs)
  drop-drop zero n xs = ap (λ (t : ℕ). drop t xs) {y = n} (omega arith)
  drop-drop (suc m) n [] = drop-nil (suc m + n) ∙ sym (drop-nil n)
  drop-drop (suc m) n (x ∷ xs) =
      ap (λ (t : ℕ). drop t (x ∷ xs)) {y = suc (m + n)} (omega arith) ∙ drop-drop m n xs

  -- Inside the first part of a list the second part is not seen.
  pub take-append_le : (n : ℕ) (xs ys : List A) → n ≤ length xs → take n (xs ++ ys) ≡ take n xs
  take-append_le zero xs ys h = refl
  take-append_le (suc n) [] ys h = absurd (omega arith)
  take-append_le (suc n) (x ∷ xs) ys h = ap (◌∷◌ x) (take-append_le n xs ys (omega arith))

  pub drop-append_le :
      (n : ℕ) (xs ys : List A) → n ≤ length xs → drop n (xs ++ ys) ≡ drop n xs ++ ys
  drop-append_le zero xs ys h = refl
  drop-append_le (suc n) [] ys h = absurd (omega arith)
  drop-append_le (suc n) (x ∷ xs) ys h = drop-append_le n xs ys (omega arith)

  pub get_or-append_le :
      (xs ys : List A) (n : ℕ) (d : A) → n < length xs → get_or (xs ++ ys) n d ≡ get_or xs n d
  get_or-append_le [] ys n d h = absurd (omega arith)
  get_or-append_le (x ∷ xs) ys zero d h = refl
  get_or-append_le (x ∷ xs) ys (suc n) d h = get_or-append_le xs ys n d (omega arith)

  -- Two ways to cut one list: the shorter cut lies inside the first part, or past it.
  pub append-eq-append_cases :
      (xs ys front : List A) (z : A) (back : List A)
      → xs ++ ys ≡ front ++ (z ∷ back)
      → ((mid : List A) × (xs ≡ front ++ (z ∷ mid)))
        ⊎ ((mid : List A) × (front ≡ xs ++ mid) × (ys ≡ mid ++ (z ∷ back)))
  append-eq-append_cases [] ys front z back h = inr (front, refl, h)
  append-eq-append_cases (x ∷ xs) ys [] z back h = inl (xs, cc)
  append-eq-append_cases (x ∷ xs) ys (f ∷ front) z back h =
      elim (append-eq-append_cases xs ys front z back (cc)) [
        | inl (mid, e) ↦ inl (mid, cc)
        | inr (mid, e, e') ↦ inr (mid, cc, e')
      ]

  pub All-append {κ} : (P : A → Type κ) (xs ys : List A) → All P xs → All P ys → All P (xs ++ ys)
  All-append P [] ys _ q = q
  All-append P (x ∷ xs) ys (p, ps) q = (p, All-append P xs ys ps q)
