-- ===== src/World/Server/Answers.antt =====
-- The callbacks of `lookupSession` in server/worldserver/src/main.cpp.
use untitled.Base.{ℕ, ◌+◌, ◌%◌, ◌^◌, Bool, false, not, ◌||◌, List, [], ◌∷◌, min}
use untitled.Base.{ltb, if◌then◌else◌}
use untitled.Base.Maps.{insert, emplace}
use untitled.Net.Protocol.{PermissionLevel, level_code}
use untitled.Net.Protocol.World.{TimeCommand, JoinResult}
use untitled.Server.DbClient.{SessionLookup}
use untitled.Sim.Float.{Fpu, clamp, zero_f}
use untitled.World.Simulation
use untitled.World.Simulation.{Simulation}
use untitled.World.Server.{
  World, Player, Settings, Clocks, delete_session, Outcome, Pending, joining, setting_latency,
  commanding, WorldCommand, set_time, status, send_join_response,
}
use untitled.World.Server.Messages.{reply_latency, reply_command}

abbrev pub latency_cap : ℕ
latency_cap = 2000

-- The largest speed of the clock, 20000.
abbrev pub speed_cap : ℕ
speed_cap = 0x469c4000

unfoldable pub latency_answered : ℕ → ℕ → Bool → SessionLookup → World → Outcome
latency_answered id milliseconds ok session w =
    let w' = record w { latency = min milliseconds latency_cap } in
    if not ok || not session.found
    then (reply_latency id 1 w ∷ [], w)
    else (if ltb session.permission_level (level_code PermissionLevel.game_master)
        then (reply_latency id 2 w ∷ [], w)
        else (reply_latency id 0 w' ∷ [], w'))

module _ (fpu : Fpu) (clocks : Clocks) where
  -- The switch over the time command.
  unfoldable pub run_time_command : TimeCommand → ℕ → Simulation → Simulation
  run_time_command TimeCommand.reset value s =
      Simulation.reset_clock fpu clocks.real clocks.seconds_today s
  run_time_command TimeCommand.speed value s =
      Simulation.set_time_speed clocks.real (clamp value zero_f speed_cap) s
  run_time_command TimeCommand.set value s = Simulation.set_time_of_day fpu clocks.real value s

  unfoldable pub run_command : WorldCommand → TimeCommand → ℕ → World → World
  unfolding run_time_command
  run_command set_time command value w = record w {
    simulation = run_time_command command value w.simulation;
  }
  run_command status command value w = w

  unfoldable pub command_answered :
      ℕ → WorldCommand → TimeCommand → ℕ → Bool → SessionLookup → World → Outcome
  unfolding run_command
  command_answered id which command value ok session w =
      let w' = run_command which command value w in
      if not ok || not session.found
      then (reply_command which id 1 w ∷ [], w)
      else (if ltb session.permission_level (level_code PermissionLevel.game_master)
          then (reply_command which id 2 w ∷ [], w)
          else (reply_command which id 0 w' ∷ [], w'))

module _ (fpu : Fpu) (settings : Settings) (clocks : Clocks) where
  -- The callback of JoinRequest behind its two checks.
  unfoldable pub joined : ℕ → List ℕ → SessionLookup → World → Outcome
  joined id token session w =
      let player_id = w.next_player_id in
      let player : Player = record {
        player_id = player_id;
        account_id = session.account_id;
        username = session.username;
        token = token;
        connection = id;
        udp_bound = false;
        udp_address = 0;
        outgoing_sequence = 0;
        last_udp_packet = clocks.steady;
      } in
      let (entity_id, simulation) = Simulation.add_player fpu player_id w.simulation in
      (
        send_join_response id JoinResult.success player_id settings.udp_port session.username
              entity_id
            ∷ delete_session token
            ∷ [],
        record w {
          simulation = simulation;
          connection_by_player = insert player_id id w.connection_by_player;
          players = emplace id player w.players;
          next_player_id = (player_id + 1) % 2 ^ 64;
        },
      )

  unfoldable pub join_answered : ℕ → List ℕ → Bool → SessionLookup → World → Outcome
  unfolding joined
  join_answered id token ok session w =
      if not ok
      then (send_join_response id JoinResult.server_error 0 0 [] 0 ∷ [], w)
      else (if not session.found
          then (send_join_response id JoinResult.invalid_session 0 0 [] 0 ∷ [], w)
          else joined id token session w)

  unfoldable pub answered : Pending → Bool → SessionLookup → World → Outcome
  unfolding join_answered latency_answered command_answered
  answered (joining id token) ok session w = join_answered id token ok session w
  answered (setting_latency id milliseconds) ok session w =
      latency_answered id milliseconds ok session w
  answered (commanding id which command value) ok session w =
      command_answered fpu clocks id which command value ok session w
