-- ===== src/World/Server/Roster/Handle.antt =====
-- The events of server/worldserver/src/main.cpp, one by one, against the abstract view of the world.
use untitled.Base.{ℕ, ◌≡◌, refl, ap, arith, List}
use untitled.Base.{Option, none, some, Bool, true, false, ◌&&◌, if◌then◌else◌}
use untitled.Base.{length, inl, inr, Option-cases}
use untitled.Base.Maps.{
  find, All-map, map_values, find-map_values, map_values-insert, map_values-emplace, find-above,
}
use untitled.Net.Protocol.World.{TimeCommand}
use untitled.Server.DbClient.{SessionLookup}
use untitled.Sim.Float.{Fpu}
use untitled.Sim.Character.{no_input}
use untitled.World.Simulation.{add_player, add_player_on, spawn}
use untitled.World.Server.{World, Player, Settings, Clocks, Outcome, WorldCommand, set_time, status}
use untitled.World.Server.Messages.{on_join_request, join_unless, on_set_latency, on_command}
use untitled.World.Server.Answers.{
  join_answered, joined, latency_answered, command_answered, run_command,
}
use untitled.World.Server.Roster.{Roster, IsRoster, roster, forget, join}
use untitled.World.Server.Roster.Refines.{same_roster, run_time_command-bodies}

-- Both branches of a test have one view.
roster-if :
    (b : Bool) (x y : Outcome) (r : Roster)
    → roster x.1 ≡ r
    → roster y.1 ≡ r
    → roster (if b then x else y).1 ≡ r
roster-if true x y r p q = p
roster-if false x y r p q = q

pub world-if :
    (b : Bool) (x y : World) (r : Roster)
    → roster x ≡ r
    → roster y ≡ r
    → roster (if b then x else y) ≡ r
world-if true x y r p q = p
world-if false x y r p q = q

-- TCP messages.
join_unless-roster :
    (found : Option Player) (id : ℕ) (token : List ℕ) (w : World)
    → roster (join_unless found id token w).1 ≡ roster w
unfolding join_unless
join_unless-roster none id token w = refl
join_unless-roster (some p) id token w = refl

pub on_join_request-roster :
    (id : ℕ) (bytes : List ℕ) (w : World) → roster (on_join_request id bytes w).1 ≡ roster w
unfolding on_join_request
on_join_request-roster id bytes w = search (roster-if, join_unless-roster)

pub on_set_latency-roster :
    (id : ℕ) (bytes : List ℕ) (w : World) → roster (on_set_latency id bytes w).1 ≡ roster w
unfolding on_set_latency
on_set_latency-roster id bytes w = search roster-if

pub on_command-roster :
    (command : WorldCommand) (id : ℕ) (bytes : List ℕ) (w : World)
    → roster (on_command command id bytes w).1 ≡ roster w
unfolding on_command
on_command-roster command id bytes w = search roster-if

-- The callbacks.
pub latency_answered-roster :
    (id milliseconds : ℕ) (ok : Bool) (session : SessionLookup) (w : World)
    → roster (latency_answered id milliseconds ok session w).1 ≡ roster w
unfolding latency_answered roster
latency_answered-roster id milliseconds ok session w = search roster-if

run_command-roster :
    (fpu : Fpu) (clocks : Clocks) (which : WorldCommand) (command : TimeCommand) (value : ℕ)
    (w : World)
    → roster (run_command fpu clocks which command value w) ≡ roster w
unfolding run_command
run_command-roster fpu clocks set_time command value w =
    same_roster w (run_command fpu clocks set_time command value w) refl refl
      (ap (map_values forget) (run_time_command-bodies fpu clocks command value w.simulation)) refl
run_command-roster fpu clocks status command value w = refl

pub command_answered-roster :
    (fpu : Fpu) (clocks : Clocks) (id : ℕ) (which : WorldCommand) (command : TimeCommand)
    (value : ℕ) (ok : Bool) (session : SessionLookup) (w : World)
    → roster (command_answered fpu clocks id which command value ok session w).1 ≡ roster w
unfolding command_answered
command_answered-roster fpu clocks id which command value ok session w =
    search (roster-if, run_command-roster fpu clocks which command value w)

module _ (fpu : Fpu) (settings : Settings) (clocks : Clocks) (w : World)
    (v : IsRoster (roster w)) where
  -- The next player has no body yet.
  fresh_body : find w.next_player_id w.simulation.players ≡ none
  unfolding roster
  fresh_body =
      let none' =
        find-above w.next_player_id (map_values forget w.simulation.players)
          (All-map _ _ _ (λ j u (_, below). below) v.embodied) in
      elim (Option-cases (find w.next_player_id w.simulation.players)) [
        | inl free ↦ free
        | inr (p, here) ↦ absurd (
            ground
              (arith, find-map_values forget w.next_player_id w.simulation.players, here, none'))
      ]

  joined-join :
      (id : ℕ) (token : List ℕ) (session : SessionLookup)
      → roster (joined fpu settings clocks id token session w).1 ≡ join id (roster w)
  unfolding joined join roster add_player add_player_on
  joined-join id token session = rw fresh_body (
      ground (
        arith,
        map_values-insert forget w.next_player_id
            (record {
              entity_id = w.simulation.next_entity_id;
              character = spawn fpu (length w.simulation.players);
              input = no_input;
              last_input_sequence = 0;
            })
            w.simulation.players,
        map_values-emplace (λ (p : Player). p.player_id) id
            (record {
              player_id = w.next_player_id;
              account_id = session.account_id;
              username = session.username;
              token = token;
              connection = id;
              udp_bound = false;
              udp_address = 0;
              outgoing_sequence = 0;
              last_udp_packet = clocks.steady;
            })
            w.players,
      ))

  pub join_answered-join :
      (id : ℕ) (token : List ℕ) (ok : Bool) (session : SessionLookup)
      → roster (join_answered fpu settings clocks id token ok session w).1
        ≡ (if ok && session.found then join id (roster w) else roster w)
  unfolding join_answered
  join_answered-join id token ok session = ground (arith, joined-join id token session)
