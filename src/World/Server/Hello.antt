-- ===== src/World/Server/Hello.antt =====
-- Which address the stream of a player goes to (ClientHello in server/worldserver/src/main.cpp).
use untitled.Base.{ℕ, ◌%◌, ◌^◌, ◌<◌, ◌≡◌, refl, arith, All, List, [], ◌∷◌, length}
use untitled.Base.{◌⊎◌, inl, inr, ◌↔◌, true, Bool-cases}
use untitled.Base.{Option, none, some, bit_or, bit_xor}
use untitled.Base.{bit_xor_zero, bit_xor_self, bit_xor-lt, bit_or_zero, bit_or-lt}
use untitled.Base.Maps.{find, put}
use untitled.Net.Bytes.Reader.{reader}
use untitled.World.Server.{World, Player, Clocks, difference, constant_time_equals}
use untitled.World.Server.Datagrams.{on_hello, hello_connection, hello_player, bind, read_hello}

abbrev pub AreBytes : List ℕ → Type 0
AreBytes s = All (λ (b : ℕ). b < 2 ^ 8) s

difference_zero :
    (d : ℕ) (s t : List ℕ)
    → length s ≡ length t
    → d < 2 ^ 8
    → AreBytes s
    → AreBytes t
    → difference d s t ≡ 0
    → (d ≡ 0) × (s ≡ t)
unfolding difference
difference_zero d [] [] e h p q z = (z, refl)
difference_zero d [] (b ∷ t) e h p q z = absurd (omega arith)
difference_zero d (a ∷ s) [] e h p q z = absurd (omega arith)
difference_zero d (a ∷ s) (b ∷ t) e h (pa, p) (qb, q) z =
    let small = bit_or-lt 8 d (bit_xor a b) h (bit_xor-lt 8 a b pa qb) in
    let (first, rest) =
      difference_zero (bit_or d (bit_xor a b) % 2 ^ 8) s t (omega arith) (omega arith) p q z in
    let (d0, x0) = bit_or_zero d (bit_xor a b) (omega arith) in
    let same = bit_xor_zero a b x0 in (d0, cc)

difference_self : (s : List ℕ) → difference 0 s s ≡ 0
unfolding difference
difference_self [] = refl
difference_self (a ∷ s) = rw (bit_xor_self a) (difference_self s)

-- x
pub constant_time_equals_iff :
    (s t : List ℕ) → AreBytes s → AreBytes t → (constant_time_equals s t ≡ true) ↔ (s ≡ t)
unfolding constant_time_equals
constant_time_equals_iff s t p q = (
  λ e.
      let (_, same) =
        difference_zero 0 s t (ground (arith, e)) (omega arith) p q (ground (arith, e)) in
      same,
  λ e. rw (← e) (ground (arith, difference_self s)),
)

-- The one player whose stream a hello sends elsewhere, if it does anything.
pub record IsBound (clocks : Clocks) (from : ℕ) (body : List ℕ) (w w' : World) : Type 0 where
  pub connection : ℕ
  pub player : Player
  pub claimed : find (read_hello (reader body)).0.player_id w.connection_by_player ≡ some connection
  pub has : find connection w.players ≡ some player
  pub token : constant_time_equals player.token (read_hello (reader body)).0.token ≡ true
  pub bound : w' ≡ record w { players = put connection (bind clocks from player) w.players }

module _ (clocks : Clocks) (from : ℕ) (w : World) where
  hello_player-cases :
      (token : List ℕ) (c : ℕ) (found : Option Player)
      → (hello_player clocks from token c found w ≡ w)
        ⊎ ((p : Player) × (found ≡ some p)
            × (constant_time_equals p.token token ≡ true)
            × (hello_player clocks from token c found w
                ≡ record w { players = put c (bind clocks from p) w.players }))
  unfolding hello_player
  hello_player-cases token c none = inl refl
  hello_player-cases token c (some p) = elim (Bool-cases (constant_time_equals p.token token)) [
    | inl same ↦ inr (p, refl, same, rw same refl)
    | inr other ↦ inl (rw other refl)
  ]

  hello_connection-IsBound :
      (body : List ℕ) (found : Option ℕ)
      → find (read_hello (reader body)).0.player_id w.connection_by_player ≡ found
      → let w' = hello_connection clocks from (read_hello (reader body)).0.token found w in
        (w' ≡ w) ⊎ IsBound clocks from body w w'
  unfolding hello_connection
  hello_connection-IsBound body none h = inl refl
  hello_connection-IsBound body (some c) h =
      elim (hello_player-cases (read_hello (reader body)).0.token c (find c w.players)) [
        | inl same ↦ inl same
        | inr (p, here, token, bound) ↦ inr (record {
          connection = c;
          player = p;
          claimed = h;
          has = here;
          token = token;
          bound = bound;
        })
      ]

  -- A hello leaves the world as it was, or it binds to its address the one player whose id it
  -- claims, and whose token is the same by the constant-time comparison.
  pub on_hello-IsBound :
      (body : List ℕ)
      → (on_hello clocks from body w ≡ w) ⊎ IsBound clocks from body w (on_hello clocks from body w)
  unfolding on_hello
  on_hello-IsBound body = elim (Bool-cases (read_hello (reader body)).1.failed) [
    | inl short ↦ inl (rw short refl)
    | inr whole ↦ rw whole (
        hello_connection-IsBound body
          (find (read_hello (reader body)).0.player_id w.connection_by_player) refl)
  ]
