-- ===== src/World/Server/Roster/Ghosts.antt =====
-- Two joins of one connection that are both under way (the callback of JoinRequest in
-- server/worldserver/src/main.cpp): what the second one leaves behind.
use untitled.Base.{ℕ, ◌≡◌, ◌≢◌, refl, sym, ◌∙◌, ap, arith, All, List, true, subst, some}
use untitled.Base.Maps.{
  find, insert, find-insert_self, find-erase_ne, All-find, All-erase, map_found, find-map_values,
}
use untitled.Server.DbClient.{SessionLookup}
use untitled.Sim.Float.{Fpu}
use untitled.World.Server.{World, Player, Settings, Clocks, joining}
use untitled.World.Server.Events.{answer, disconnected, handle}
use untitled.World.Server.Roster.{Roster, IsRoster, roster, join, leave, leave_on}
use untitled.World.Server.Roster.Refines.{remove_player-leave, change, change_of}
use untitled.World.Server.Roster.Changes.{handle-change}

-- A body whose player no connection has.
abbrev pub IsGhost : ℕ → Roster → Type 0
IsGhost id r = (find id r.bodies ≡ some tt) × All (λ (e : ℕ × ℕ). e.1 ≢ id) r.entries

leave-join-IsGhost :
    (c old : ℕ) (r : Roster)
    → IsRoster r
    → find c r.entries ≡ some old
    → IsGhost r.next (leave c (join c r))
unfolding leave leave_on join
leave-join-IsGhost c old r v h =
    let (_, _, below) = All-find _ c old r.entries h v.entered in
    let differ : r.next ≢ old = omega arith in
    rw (h, h)
      (
        find-erase_ne r.next old (insert r.next tt r.bodies) differ
            ∙ find-insert_self r.next tt r.bodies,
        All-erase _ _ c r.entries (λ j k other (a, b, below). omega arith) v.entered,
      )

answer-join :
    (settings : Settings) (clocks : Clocks) (id : ℕ) (token : List ℕ) (session : SessionLookup)
    (w : World)
    → session.found ≡ true
    → change (change_of settings clocks (answer (joining id token) true session) w) (roster w)
      ≡ join id (roster w)
unfolding change change_of
answer-join settings clocks id token session w h = rw h refl

-- In a world whose tables belong together, when the database grants a join of a connection that
-- has a player by now, and that connection closes then, the second player has a body that no
-- connection has.
pub disconnected-IsGhost :
    (fpu : Fpu) (settings : Settings) (clocks : Clocks) (id : ℕ) (token : List ℕ)
    (session : SessionLookup) (w : World) (p : Player)
    → IsRoster (roster w)
    → find id w.players ≡ some p
    → session.found ≡ true
    → IsGhost w.next_player_id (
        roster
          (handle fpu settings clocks
            (disconnected id)
            (handle fpu settings clocks (answer (joining id token) true session) w).1).1)
unfolding handle roster
disconnected-IsGhost fpu settings clocks id token session w p v h found =
    subst (IsGhost w.next_player_id)
      (sym (
        remove_player-leave id
          (handle fpu settings clocks (answer (joining id token) true session) w).1
        ∙ ap (leave id) joined'))
      (leave-join-IsGhost id p.player_id (roster w) v entry)
  where
    entry : find id (roster w).entries ≡ some p.player_id
    entry =
        find-map_values (λ (q : Player). q.player_id) id w.players
        ∙ ap (map_found (λ (q : Player). q.player_id)) h

    joined' :
        roster (handle fpu settings clocks (answer (joining id token) true session) w).1
        ≡ join id (roster w)
    joined' =
        handle-change fpu settings clocks (answer (joining id token) true session) w v
        ∙ answer-join settings clocks id token session w found
