-- ===== src/World/Server/Roster.antt =====
-- Who is in the world, as the abstract view of the world server (server/worldserver/src/main.cpp): which
-- player a connection has, which connection a player has, and which players have a body.
pub mod Refines
pub mod Changes
pub mod Loop
pub mod Handle
pub mod Ghosts
use untitled.Base.{ℕ, ◌+◌, ◌%◌, ◌^◌, ◌<◌, ◌≡◌, ◌≢◌, refl, sym, ◌∙◌, ap, arith, All, List, []}
use untitled.Base.{Option, none, some, true, false, subst}
use untitled.Base.Maps.{
  Map, find, insert, emplace, erase, find-insert_self, find-insert_ne, find-erase_ne, All-find,
  All-erase, All-map, All-insert, map_values,
}
use untitled.World.Server.{World, Player}
use untitled.World.Simulation.{Body}

pub record Roster : Type 0 where
  pub entries : Map ℕ
  pub by_player : Map ℕ
  pub bodies : Map (Unit {0})
  pub next : ℕ

abbrev pub forget : Body → Unit {0}
forget _ = tt

unfoldable pub roster : World → Roster
roster w = record {
  entries = map_values (λ (p : Player). p.player_id) w.players;
  by_player = w.connection_by_player;
  bodies = map_values forget w.simulation.players;
  next = w.next_player_id;
}

-- The three tables belong together, and every id in them has been given out.
pub record IsRoster (r : Roster) : Type 0 where
  pub entered :
      All
        (λ (e : ℕ × ℕ).
          (find e.1 r.by_player ≡ some e.0) × (find e.1 r.bodies ≡ some tt) × (e.1 < r.next))
        r.entries
  pub listed : All (λ (e : ℕ × ℕ). find e.1 r.entries ≡ some e.0) r.by_player
  pub embodied :
      All
        (λ (e : ℕ × Unit {0}). ((c : ℕ) × (find e.0 r.by_player ≡ some c)) × (e.0 < r.next))
        r.bodies

-- A connection loses its player, if it has one.
unfoldable pub leave_on : Option ℕ → ℕ → Roster → Roster
leave_on none c r = r
leave_on (some id) c r = record r {
  entries = erase c r.entries;
  by_player = erase id r.by_player;
  bodies = erase id r.bodies;
}

unfoldable pub leave : ℕ → Roster → Roster
unfolding leave_on
leave c r = leave_on (find c r.entries) c r

-- A connection gets the next player.
unfoldable pub join : ℕ → Roster → Roster
join c r = record {
  entries = emplace c r.next r.entries;
  by_player = insert r.next c r.by_player;
  bodies = insert r.next tt r.bodies;
  next = (r.next + 1) % 2 ^ 64;
}

module _ (r : Roster) (v : IsRoster r) where
  leave_on-IsRoster :
      (c : ℕ) (found : Option ℕ) → find c r.entries ≡ found → IsRoster (leave_on found c r)
  unfolding leave_on
  leave_on-IsRoster c none h = v
  leave_on-IsRoster c (some id) h =
      let here : find id r.by_player ≡ some c = (All-find _ c id r.entries h v.entered).0 in
      record {
        entered =
            All-erase _ _ c r.entries
              (λ j k other (a, b, below).
                let differ : k ≢ id =
                  λ e. other (ground (arith, ap (λ (t : ℕ). find t r.by_player) e, a, here)) in
                (
                  find-erase_ne k id r.by_player differ ∙ a,
                  find-erase_ne k id r.bodies differ ∙ b,
                  below,
                ))
              v.entered;
        listed =
            All-erase _ _ id r.by_player
              (λ j k other a.
                let differ : k ≢ c =
                  λ e. other (ground (arith, ap (λ (t : ℕ). find t r.entries) e, a, h)) in
                find-erase_ne k c r.entries differ ∙ a)
              v.listed;
        embodied =
            All-erase _ _ id r.bodies
              (λ j u other ((k, a), below). ((k, find-erase_ne j id r.by_player other ∙ a), below))
              v.embodied;
      }

  -- x
  pub leave-IsRoster : (c : ℕ) → IsRoster (leave c r)
  unfolding leave
  leave-IsRoster c = leave_on-IsRoster c (find c r.entries) refl

  -- x
  pub join-IsRoster : (c : ℕ) → find c r.entries ≡ none → r.next + 1 < 2 ^ 64 → IsRoster (join c r)
  unfolding join
  join-IsRoster c free fits = rw free (record {
    entered =
        All-insert _ c r.next r.entries
          (find-insert_self r.next c r.by_player, find-insert_self r.next tt r.bodies, omega arith)
          (All-map _ _ r.entries
            (λ j k (a, b, below).
              let differ : k ≢ r.next = omega arith in
              (
                find-insert_ne k r.next c r.by_player differ ∙ a,
                find-insert_ne k r.next tt r.bodies differ ∙ b,
                omega arith,
              ))
            v.entered);
    listed = All-insert _ r.next c r.by_player (find-insert_self c r.next r.entries) (
        All-map _ _ r.by_player
          (λ j k a.
            let differ : k ≢ c = λ e. ground (arith, ap (λ (t : ℕ). find t r.entries) e, a, free) in
            find-insert_ne k c r.next r.entries differ ∙ a)
          v.listed);
    embodied =
        All-insert _ r.next tt r.bodies ((c, find-insert_self r.next c r.by_player), omega arith)
          (All-map _ _ r.bodies
            (λ j u ((k, a), below).
              let differ : j ≢ r.next = omega arith in
              ((k, find-insert_ne j r.next c r.by_player differ ∙ a), omega arith))
            v.embodied);
  })
