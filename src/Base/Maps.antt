-- ===== src/Base/Maps.antt =====
-- `std::map` with keys that are numbers: the entries in ascending order of their keys.
use Prim.Native.Nat.{ℕ, ◌<◌}
use mathlib.Core.Path.{◌≡◌, refl, subst}
use mathlib.Core.Logic.{◌≢◌, inl, inr}
use mathlib.Core.Bool.{Bool, true, false}
use mathlib.Core.List.{List, [], ◌∷◌}
use mathlib.Core.Option.{Option, none, some}
use native.Mathlib.Omega.{arith}
use untitled.Base.Tests.{ltb, ◌==◌, if◌then◌else◌, Bool-cases, Option-cases}
use untitled.Base.Lists.{All}

abbrev pub Map {ℓ} : Type ℓ → Type ℓ
Map V = List (ℕ × V)

module _ {ℓ} {V : Type ℓ} where
  abbrev pub find : ℕ → Map V → Option V
  find k [] = none
  find k ((j, v) ∷ d) = let rest = find k d in if k == j then some v else rest

  -- `d[k] = v`
  abbrev pub insert : ℕ → V → Map V → Map V
  insert k v [] = (k, v) ∷ []
  insert k v ((j, w) ∷ d) =
      let rest = insert k v d in
      if ltb k j then (k, v) ∷ (j, w) ∷ d else (if k == j then (k, v) ∷ d else (j, w) ∷ rest)

  -- `emplace`, with what is found at the key: an entry that is there stays.
  abbrev pub emplace_on : Option V → ℕ → V → Map V → Map V
  emplace_on none k v d = insert k v d
  emplace_on (some _) k v d = d

  abbrev pub emplace : ℕ → V → Map V → Map V
  emplace k v d = emplace_on (find k d) k v d

  -- Writing through an iterator at the key.
  abbrev pub put : ℕ → V → Map V → Map V
  put k v [] = []
  put k v ((j, w) ∷ d) = let rest = put k v d in if k == j then (j, v) ∷ d else (j, w) ∷ rest

  abbrev pub erase : ℕ → Map V → Map V
  erase k [] = []
  erase k ((j, v) ∷ d) = let rest = erase k d in if k == j then rest else (j, v) ∷ rest

module _ {ℓ} {V : Type ℓ} where
  pub find-insert_self : (k : ℕ) (v : V) (d : Map V) → find k (insert k v d) ≡ some v
  find-insert_self k v [] = ground arith
  find-insert_self k v (e ∷ d) = ground (arith, find-insert_self k v d)

  pub find-insert_ne : (j k : ℕ) (v : V) (d : Map V) → j ≢ k → find j (insert k v d) ≡ find j d
  find-insert_ne j k v [] h = ground arith
  find-insert_ne j k v (e ∷ d) h = ground (arith, find-insert_ne j k v d h)

  pub find-put_ne : (j k : ℕ) (v : V) (d : Map V) → j ≢ k → find j (put k v d) ≡ find j d
  find-put_ne j k v [] h = refl
  find-put_ne j k v (e ∷ d) h = ground (arith, find-put_ne j k v d h)

  pub find-put_self :
      (k : ℕ) (v : V) (d : Map V) (w : V) → find k d ≡ some w → find k (put k v d) ≡ some v
  find-put_self k v [] w h = cc
  find-put_self k v (e ∷ d) w h = ground (arith, find-put_self k v d w, h)

  pub find-erase_ne : (j k : ℕ) (d : Map V) → j ≢ k → find j (erase k d) ≡ find j d
  find-erase_ne j k [] h = refl
  find-erase_ne j k (e ∷ d) h = ground (arith, find-erase_ne j k d h)

  pub find-erase_self : (k : ℕ) (d : Map V) → find k (erase k d) ≡ none
  find-erase_self k [] = refl
  find-erase_self k (e ∷ d) = ground (arith, find-erase_self k d)

module _ {ℓ κ} {V : Type ℓ} (P : ℕ × V → Type κ) where
  pub All-insert : (k : ℕ) (v : V) (d : Map V) → P (k, v) → All P d → All P (insert k v d)
  All-insert k v [] p h = (p, tt)
  All-insert k v ((j, w) ∷ d) p (q, h) =
      if_All (ltb k j) _ _ (p, (q, h)) (if_All (k == j) _ _ (p, h) (q, All-insert k v d p h))
    where
      if_All : (b : Bool) (xs ys : Map V) → All P xs → All P ys → All P (if b then xs else ys)
      if_All true xs ys x y = x
      if_All false xs ys x y = y

  pub All-find : (k : ℕ) (v : V) (d : Map V) → find k d ≡ some v → All P d → P (k, v)
  All-find k v [] e h = cc
  All-find k v ((j, w) ∷ d) e (p, h) = elim (Bool-cases (k == j)) [
    | inl same ↦ let pair : (j, w) ≡ (k, v) = ground (arith, e, same) in subst P pair p
    | inr other ↦ All-find k v d (ground (arith, e, other)) h
  ]

module _ {ℓ κ κ'} {V : Type ℓ} (P : ℕ × V → Type κ) (Q : ℕ × V → Type κ') where
  -- What is left by `erase` has another key.
  pub All-erase :
      (k : ℕ) (d : Map V)
      → ((j : ℕ) (v : V) → j ≢ k → P (j, v) → Q (j, v))
      → All P d
      → All Q (erase k d)
  All-erase k [] f h = tt
  All-erase k ((j, v) ∷ d) f (p, h) = elim (Bool-cases (k == j)) [
    | inl same ↦ rw same (All-erase k d f h)
    | inr other ↦ rw other (f j v (ground (arith, other)) p, All-erase k d f h)
  ]

  pub All-map : (d : Map V) → ((j : ℕ) (v : V) → P (j, v) → Q (j, v)) → All P d → All Q d
  All-map [] f h = tt
  All-map ((j, v) ∷ d) f (p, h) = (f j v p, All-map d f h)

module _ {ℓ κ} {V : Type ℓ} {W : Type κ} (f : V → W) where
  abbrev pub map_values : Map V → Map W
  map_values [] = []
  map_values ((k, v) ∷ d) = (k, f v) ∷ map_values d

  abbrev pub map_found : Option V → Option W
  map_found none = none
  map_found (some v) = some (f v)

  pub find-map_values : (k : ℕ) (d : Map V) → find k (map_values d) ≡ map_found (find k d)
  find-map_values k [] = refl
  find-map_values k ((j, v) ∷ d) = ground (arith, find-map_values k d)

  pub map_values-erase : (k : ℕ) (d : Map V) → map_values (erase k d) ≡ erase k (map_values d)
  map_values-erase k [] = refl
  map_values-erase k ((j, v) ∷ d) = ground (arith, map_values-erase k d)

  pub map_values-insert :
      (k : ℕ) (v : V) (d : Map V) → map_values (insert k v d) ≡ insert k (f v) (map_values d)
  map_values-insert k v [] = refl
  map_values-insert k v ((j, w) ∷ d) = ground (arith, map_values-insert k v d)

  -- Writing a value that looks the same changes nothing that can be seen.
  pub map_values-put :
      (k : ℕ) (v w : V) (d : Map V)
      → find k d ≡ some v
      → f w ≡ f v
      → map_values (put k w d) ≡ map_values d
  map_values-put k v w [] h e = refl
  map_values-put k v w ((j, u) ∷ d) h e = ground (arith, map_values-put k v w d, h, e)

  pub map_values-emplace :
      (k : ℕ) (v : V) (d : Map V) → map_values (emplace k v d) ≡ emplace k (f v) (map_values d)
  map_values-emplace k v d = elim (Option-cases (find k d)) [
    | inl free ↦ rw (find-map_values k d, free) (map_values-insert k v d)
    | inr (w, taken) ↦ rw (find-map_values k d, taken) refl
  ]

pub find-above {ℓ} :
    {V : Type ℓ} (n : ℕ) (d : Map V) → All (λ (e : ℕ × V). e.0 < n) d → find n d ≡ none
find-above n [] h = refl
find-above n ((j, v) ∷ d) (p, h) = ground (arith, find-above n d h)
