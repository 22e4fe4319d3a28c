-- ===== src/World/Server/Roster/Refines.antt =====
-- What the events of server/worldserver/src/main.cpp do to the abstract view of the world.
use untitled.Base.{ℕ, ◌≡◌, refl, sym, ◌∙◌, ap, arith, List, [], ◌∷◌}
use untitled.Base.{Option, none, some, ◌&&◌, if◌then◌else◌}
use untitled.Base.{inl, inr, Option-cases}
use untitled.Base.Maps.{
  Map, find, map_values, map_found, find-map_values, map_values-erase, map_values-put,
}
use untitled.Net.Protocol.World.{WorldMessage, TimeCommand, world_message?}
use untitled.Sim.Float.{Fpu}
use untitled.Sim.Character.{CharacterInput}
use untitled.World.Simulation.{
  Body, Simulation, set_input, set_input_on, step, step_bodies, step_clock, step_cube, add_player,
  add_player_on, set_time_of_day, set_time_speed, reset_clock, reanchor,
}
use untitled.World.Server.{
  World, Player, Settings, Clocks, joining, remove_player, remove_player_on,
}
use untitled.World.Server.Answers.{run_time_command}
use untitled.World.Server.Ticks.{send_to_all, timed_out, drop_all}
use untitled.World.Server.Events.{Event, message, answer, disconnected, timed}
use untitled.World.Server.Roster.{Roster, roster, forget, leave, leave_on, join}

-- The abstract events.
pub data Change : Type 0 where
  stays : Change
  joins leaves : ℕ → Change
  all_leave : List ℕ → Change

unfoldable pub leave_all : List ℕ → Roster → Roster
leave_all [] r = r
leave_all (c ∷ cs) r = leave_all cs (leave c r)

unfoldable pub change : Change → Roster → Roster
unfolding leave_all
change stays r = r
change (joins c) r = join c r
change (leaves c) r = leave c r
change (all_leave cs) r = leave_all cs r

abbrev pub message_change : Option WorldMessage → ℕ → Change
message_change (some WorldMessage.logout_request) id = leaves id
message_change _ id = stays

-- Which of them an event is.
unfoldable pub change_of : Settings → Clocks → Event → World → Change
change_of settings clocks (message id type bytes) w = message_change (world_message? type) id
change_of settings clocks (answer (joining id _) ok session) w =
    if ok && session.found then joins id else stays
change_of settings clocks (disconnected id) w = leaves id
change_of settings clocks timed w = all_leave (timed_out settings clocks w.players)
change_of settings clocks _ w = stays

abbrev pub player_ids : Map Player → Map ℕ
player_ids d = map_values (λ (p : Player). p.player_id) d

pub same_roster :
    (w w' : World)
    → player_ids w'.players ≡ player_ids w.players
    → w'.connection_by_player ≡ w.connection_by_player
    → map_values forget w'.simulation.players ≡ map_values forget w.simulation.players
    → w'.next_player_id ≡ w.next_player_id
    → roster w' ≡ roster w
unfolding roster
same_roster w w' a b c d = cc

-- Leaving.
remove_player_on-leave :
    (found : Option Player) (id : ℕ) (w : World)
    → roster (remove_player_on found id w)
      ≡ leave_on (map_found (λ (p : Player). p.player_id) found) id (roster w)
unfolding roster remove_player_on leave_on untitled.World.Simulation.remove_player
remove_player_on-leave none id w = refl
remove_player_on-leave (some p) id w =
    let a = map_values-erase (λ (q : Player). q.player_id) id w.players in
    let b = map_values-erase forget p.player_id w.simulation.players in cc

pub remove_player-leave : (id : ℕ) (w : World) → roster (remove_player id w) ≡ leave id (roster w)
unfolding remove_player leave roster
remove_player-leave id w =
    remove_player_on-leave (find id w.players) id w
    ∙ ap (λ (t : Option ℕ). leave_on t id (roster w))
        (sym (find-map_values (λ (p : Player). p.player_id) id w.players))

pub drop_all-leave_all :
    (cs : List ℕ) (w : World) → roster (drop_all cs w).1 ≡ leave_all cs (roster w)
unfolding drop_all leave_all
drop_all-leave_all [] w = refl
drop_all-leave_all (c ∷ cs) w =
    drop_all-leave_all cs (remove_player c w) ∙ ap (leave_all cs) (remove_player-leave c w)

-- The simulation keeps its bodies.
pub set_input-bodies :
    (id : ℕ) (input : CharacterInput) (s : Simulation)
    → map_values forget (set_input id input s).players ≡ map_values forget s.players
unfolding set_input set_input_on
set_input-bodies id input s = elim (Option-cases (find id s.players)) [
  | inl free ↦ rw free refl
  | inr (p, here) ↦
      rw here (
        ground (arith, map_values-put forget id p (record p { input = input }) s.players here refl))
]

pub step-bodies :
    (fpu : Fpu) (delta : ℕ) (d : Map Body)
    → map_values forget (step_bodies fpu delta d) ≡ map_values forget d
unfolding step_bodies
step-bodies fpu delta [] = refl
step-bodies fpu delta ((j, p) ∷ d) = ap (◌∷◌ (j, tt)) (step-bodies fpu delta d)

pub run_time_command-bodies :
    (fpu : Fpu) (clocks : Clocks) (command : TimeCommand) (value : ℕ) (s : Simulation)
    → (run_time_command fpu clocks command value s).players ≡ s.players
unfolding run_time_command reset_clock set_time_speed set_time_of_day reanchor
run_time_command-bodies fpu clocks TimeCommand.reset value s = refl
run_time_command-bodies fpu clocks TimeCommand.speed value s = refl
run_time_command-bodies fpu clocks TimeCommand.set value s = refl

pub send_to_all-ids :
    (body : List ℕ) (d : Map Player) → player_ids (send_to_all body d).1 ≡ player_ids d
unfolding send_to_all
send_to_all-ids body [] = refl
send_to_all-ids body ((c, p) ∷ d) = ground (arith, send_to_all-ids body d)
