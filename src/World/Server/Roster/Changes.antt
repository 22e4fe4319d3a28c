-- ===== src/World/Server/Roster/Changes.antt =====
-- Every event of server/worldserver/src/main.cpp as a change of who is in the world, and runs of them.
use untitled.Base.{ℕ, ◌+◌, ◌^◌, ◌<◌, ◌≡◌, refl, sym, ◌∙◌, ap, arith, List, [], ◌∷◌, subst}
use untitled.Base.{Option, none, some, Bool, true, false, ◌&&◌, if◌then◌else◌}
use untitled.Base.Maps.{find, map_found, find-map_values}
use untitled.Net.Protocol.World.{WorldMessage, world_message?}
use untitled.Net.Snapshot.{encode_snapshot}
use untitled.Sim.Float.{Fpu, d_le}
use untitled.World.Simulation.{set_input, step, step_clock, step_cube}
use untitled.World.Server.{
  World, Player, DelayedInput, Settings, Clocks, joining, setting_latency, commanding, set_time,
  status,
}
use untitled.World.Server.Messages.{on_message, dispatch_on, dispatch, on_logout}
use untitled.World.Server.Answers.{answered}
use untitled.World.Server.Ticks.{
  tick, tick_snapshot, tick_seconds, release_inputs, release, timed_out, drop_silent,
}
use untitled.World.Server.Events.{
  Event, message, answer, disconnected, datagrams, ticked, released, timed, handle,
}
use untitled.World.Server.Roster.{Roster, IsRoster, roster, leave, join}
use untitled.World.Server.Roster.Refines.{
  same_roster, set_input-bodies, step-bodies, send_to_all-ids, remove_player-leave,
  drop_all-leave_all, stays, joins, change, leave_all, change_of, message_change,
}
use untitled.World.Server.Roster.Handle.{
  world-if, on_join_request-roster, on_set_latency-roster, on_command-roster,
  latency_answered-roster, command_answered-roster, join_answered-join,
}
use untitled.World.Server.Roster.Loop.{drain_udp-roster}
use untitled.World.Server.Roster.{leave-IsRoster, join-IsRoster}
use untitled.World.Server.Events.{new_world, run}

dispatch-change :
    (m : WorldMessage) (id : ℕ) (bytes : List ℕ) (w : World)
    → roster (dispatch m id bytes w).1 ≡ change (message_change (some m) id) (roster w)
unfolding dispatch change on_logout
dispatch-change WorldMessage.join_request id bytes w = on_join_request-roster id bytes w
dispatch-change WorldMessage.admin_set_latency_request id bytes w = on_set_latency-roster id bytes w
dispatch-change WorldMessage.admin_set_time_request id bytes w =
    on_command-roster set_time id bytes w
dispatch-change WorldMessage.admin_status_request id bytes w = on_command-roster status id bytes w
dispatch-change WorldMessage.logout_request id bytes w = remove_player-leave id w
dispatch-change _ id bytes w = refl

dispatch_on-change :
    (found : Option WorldMessage) (id : ℕ) (bytes : List ℕ) (w : World)
    → roster (dispatch_on found id bytes w).1 ≡ change (message_change found id) (roster w)
unfolding dispatch_on change
dispatch_on-change none id bytes w = refl
dispatch_on-change (some m) id bytes w = dispatch-change m id bytes w

release_inputs-roster :
    (now : ℕ) (held : List DelayedInput) (w : World) → roster (release_inputs now held w) ≡ roster w
unfolding release_inputs
release_inputs-roster now [] w =
    same_roster w (record w { delayed_inputs = [] }) refl refl refl refl
release_inputs-roster now (d ∷ more) w =
    let w' = record w { simulation = set_input d.player_id d.input w.simulation } in
    world-if (d_le d.due_at now) _ (record w { delayed_inputs = d ∷ more }) (roster w)
      (release_inputs-roster now more w'
        ∙ same_roster w w' refl refl (set_input-bodies d.player_id d.input w.simulation) refl)
      (same_roster w (record w { delayed_inputs = d ∷ more }) refl refl refl refl)

tick-roster : (fpu : Fpu) (clocks : Clocks) (w : World) → roster (tick fpu clocks w).1 ≡ roster w
unfolding tick roster step step_clock step_cube
tick-roster fpu clocks w = ground (
  arith,
  send_to_all-ids
      (encode_snapshot
        (tick_snapshot fpu clocks
          (record w { simulation = step fpu clocks.real tick_seconds w.simulation }))
        [])
      w.players,
  step-bodies fpu tick_seconds w.simulation.players,
)

module _ (fpu : Fpu) (settings : Settings) where
  change-if :
      (b : Bool) (c : ℕ) (r : Roster)
      → change (if b then joins c else stays) r ≡ (if b then join c r else r)
  unfolding change
  change-if true c r = refl
  change-if false c r = refl

  -- From a world whose tables belong together, every event of the world server does to its view,
  -- of who is in the world, what the abstract change does: a logout, a closed connection or a
  -- silent player leaves, a join that the database grants enters, and nothing else changes it.
  pub handle-change :
      (clocks : Clocks) (event : Event) (w : World)
      → IsRoster (roster w)
      → roster (handle fpu settings clocks event w).1
        ≡ change (change_of settings clocks event w) (roster w)
  unfolding handle change_of change on_message answered release drop_silent
  handle-change clocks (message id type bytes) w v =
      dispatch_on-change (world_message? type) id bytes w
  handle-change clocks (answer (joining id token) ok session) w v =
      join_answered-join fpu settings clocks w v id token ok session
      ∙ sym (change-if (ok && session.found) id (roster w))
  handle-change clocks (answer (setting_latency id ms) ok session) w v =
      latency_answered-roster id ms ok session w
  handle-change clocks (answer (commanding id which command value) ok session) w v =
      command_answered-roster fpu clocks id which command value ok session w
  handle-change clocks (disconnected id) w v = remove_player-leave id w
  handle-change clocks (datagrams received) w v = drain_udp-roster fpu clocks received w v
  handle-change clocks ticked w v = tick-roster fpu clocks w
  handle-change clocks released w v =
      same_roster (release_inputs clocks.monotonic w.delayed_inputs w) (release clocks w).1 refl
        refl refl refl
      ∙ release_inputs-roster clocks.monotonic w.delayed_inputs w
  handle-change clocks timed w v = drop_all-leave_all (timed_out settings clocks w.players) w

  -- The answer to a join is for a connection that has no player, and the ids do not run out.
  abbrev pub IsFree : Event → World → Type 0
  IsFree (answer (joining id _) _ _) w =
      (find id w.players ≡ none) × (w.next_player_id + 1 < 2 ^ 64)
  IsFree _ w = Unit

  leave_all-IsRoster : (cs : List ℕ) (r : Roster) → IsRoster r → IsRoster (leave_all cs r)
  unfolding leave_all
  leave_all-IsRoster [] r v = v
  leave_all-IsRoster (c ∷ cs) r v = leave_all-IsRoster cs (leave c r) (leave-IsRoster r v c)

  message-IsRoster :
      (found : Option WorldMessage) (id : ℕ) (r : Roster)
      → IsRoster r
      → IsRoster (change (message_change found id) r)
  unfolding change
  message-IsRoster (some WorldMessage.logout_request) id r v = leave-IsRoster r v id
  message-IsRoster _ id r v = v

  join-if :
      (b : Bool) (id : ℕ) (r : Roster)
      → IsRoster r
      → find id r.entries ≡ none
      → r.next + 1 < 2 ^ 64
      → IsRoster (change (if b then joins id else stays) r)
  unfolding change
  join-if true id r v free fits = join-IsRoster r v id free fits
  join-if false id r v free fits = v

  change-IsRoster :
      (clocks : Clocks) (event : Event) (w : World)
      → IsRoster (roster w)
      → IsFree event w
      → IsRoster (change (change_of settings clocks event w) (roster w))
  unfolding change_of change roster
  change-IsRoster clocks (message id type bytes) w v f =
      message-IsRoster (world_message? type) id (roster w) v
  change-IsRoster clocks (answer (joining id token) ok session) w v (free, fits) =
      join-if (ok && session.found) id (roster w) v
        (find-map_values (λ (p : Player). p.player_id) id w.players
          ∙ ap (map_found (λ (p : Player). p.player_id)) free)
        fits
  change-IsRoster clocks (disconnected id) w v f = leave-IsRoster (roster w) v id
  change-IsRoster clocks timed w v f =
      leave_all-IsRoster (timed_out settings clocks w.players) (roster w) v
  change-IsRoster clocks _ w v f = v

  -- x
  pub handle-IsRoster :
      (clocks : Clocks) (event : Event) (w : World)
      → IsRoster (roster w)
      → IsFree event w
      → IsRoster (roster (handle fpu settings clocks event w).1)
  handle-IsRoster clocks event w v f =
      subst IsRoster (sym (handle-change clocks event w v)) (change-IsRoster clocks event w v f)

  -- Every join of a run is free when it is answered.
  abbrev pub AreFree : List (Clocks × Event) → World → Type 0
  AreFree [] w = Unit
  AreFree ((clocks, event) ∷ more) w =
      IsFree event w × AreFree more (handle fpu settings clocks event w).1

  run-IsRoster :
      (events : List (Clocks × Event)) (w : World)
      → IsRoster (roster w)
      → AreFree events w
      → IsRoster (roster (run fpu settings events w).1)
  unfolding run
  run-IsRoster [] w v f = v
  run-IsRoster ((clocks, event) ∷ more) w v (f, fs) =
      run-IsRoster more (handle fpu settings clocks event w).1 (handle-IsRoster clocks event w v f)
        fs

  new_world-IsRoster : IsRoster (roster new_world)
  unfolding roster
  new_world-IsRoster = record { entered = tt; listed = tt; embodied = tt }

  -- After any run of events in which every join is answered for a connection that has no player,
  -- and the ids do not run out: the player of a connection lists that connection and has a body, a
  -- listed player is the one that its connection has, and every body is that of a listed player.
  pub run-new_world-IsRoster :
      (events : List (Clocks × Event))
      → AreFree events new_world
      → IsRoster (roster (run fpu settings events new_world).1)
  run-new_world-IsRoster events f = run-IsRoster events new_world new_world-IsRoster f
