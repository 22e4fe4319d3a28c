-- ===== src/Server/TcpServer/Ids.antt =====
-- Lists of connections in the order of their ids, as mConnections of
-- server/common/src/tcp_server.cpp is.
use untitled.Base.{ℕ, suc, ◌≤◌, ◌<◌, ◌≡◌, refl, ap, arith}
use untitled.Base.{List, [], ◌∷◌, ◌++◌, none, ◌==◌}
use untitled.Base.{Bool-cases, inl, inr}
use untitled.Server.TcpServer.{find, erase}
use untitled.Server.TcpServer.Keeps.{keys}

-- Ids between two bounds, ascending: no id stands there twice.
abbrev pub Ascending : ℕ → List ℕ → ℕ → Type 0
Ascending low [] high = low ≤ high
Ascending low (k ∷ ks) high = (low ≤ k) × Ascending (suc k) ks high

Ascending-bound : (low : ℕ) (ks : List ℕ) (high : ℕ) → Ascending low ks high → low ≤ high
Ascending-bound low [] high v = v
Ascending-bound low (k ∷ ks) high (v, vs) = omega (arith, Ascending-bound (suc k) ks high vs)

Ascending-lower :
    (low low' : ℕ) (ks : List ℕ) (high : ℕ)
    → low' ≤ low
    → Ascending low ks high
    → Ascending low' ks high
Ascending-lower low low' [] high h v = omega arith
Ascending-lower low low' (k ∷ ks) high h (v, vs) = (omega arith, vs)

pub Ascending-append :
    (low : ℕ) (ks : List ℕ) (n : ℕ) → Ascending low ks n → Ascending low (ks ++ (n ∷ [])) (suc n)
Ascending-append low [] n v = (v, omega arith)
Ascending-append low (k ∷ ks) n (v, vs) = (v, Ascending-append (suc k) ks n vs)

pub keys-append : {A : Type 0} (xs ys : List (ℕ × A)) → keys (xs ++ ys) ≡ keys xs ++ keys ys
keys-append [] ys = refl
keys-append ((k, _) ∷ xs) ys = ap (◌∷◌ k) (keys-append xs ys)

module _ {A : Type 0} where
  -- An id below all others is not found.
  find_below :
      (k low : ℕ) (cs : List (ℕ × A)) (high : ℕ)
      → Ascending low (keys cs) high
      → k < low
      → find k cs ≡ none
  unfolding find
  find_below k low [] high v h = refl
  find_below k low ((k', a) ∷ cs) high (v, vs) h =
      ground (arith, find_below k (suc k') cs high vs (omega arith))

  pub erase-Ascending :
      (k low : ℕ) (cs : List (ℕ × A)) (high : ℕ)
      → Ascending low (keys cs) high
      → Ascending low (keys (erase k cs)) high
  unfolding erase
  erase-Ascending k low [] high v = v
  erase-Ascending k low ((k', a) ∷ cs) high (v, vs) = elim (Bool-cases (k == k')) [
    | inl same ↦ rw same (Ascending-lower (suc k') low (keys cs) high (omega arith) vs)
    | inr other ↦ rw other (v, erase-Ascending k (suc k') cs high vs)
  ]

  pub find-erase :
      (k low : ℕ) (cs : List (ℕ × A)) (high : ℕ)
      → Ascending low (keys cs) high
      → find k (erase k cs) ≡ none
  unfolding find erase
  find-erase k low [] high v = refl
  find-erase k low ((k', a) ∷ cs) high (v, vs) = elim (Bool-cases (k == k')) [
    | inl same ↦ rw same (find_below k (suc k') cs high vs (ground (arith, same)))
    | inr other ↦ rw (other, other) (find-erase k (suc k') cs high vs)
  ]

  pub find-erase_other :
      (k j : ℕ) (cs : List (ℕ × A)) → find k cs ≡ none → find k (erase j cs) ≡ none
  unfolding find erase
  find-erase_other k j [] e = refl
  find-erase_other k j ((k', a) ∷ cs) e = ground (arith, e, find-erase_other k j cs)
