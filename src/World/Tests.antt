-- ===== src/World/Tests.antt =====
-- Tests of server/worldserver: a world with one player, on floats that are whole numbers.
use untitled.Base.{ℕ, ◌≡◌, refl, arith, true, List, [], ◌∷◌, some, ◌⊎◌}
use untitled.Server.DbClient.{SessionLookup, Request}
use untitled.Sim.Float.{one_f}
use untitled.Sim.Character.{no_input}
use untitled.Sim.Tests.{whole, whole-IsFpu}
use untitled.World.Simulation.{Body, step, init, new_simulation, build_snapshot, spawn}
use untitled.World.Simulation.Entities
use untitled.World.Simulation.Entities.{
  Call, adds, removes, steps, apply, Distinct, entity_ids, run-Distinct,
}
use untitled.World.Simulation.Inputs.{init_time_speed}
use untitled.World.Simulation.Ranges.{IsRanged}
use untitled.World.Server.{World, Player, Settings, Clocks, joining, setting_latency}
use untitled.World.Server.Answers.{answered}
use untitled.World.Server.Datagrams.{on_datagram, on_hello}
use untitled.World.Server.Ticks.{tick, empty_snapshot, tick_seconds}
use untitled.World.Server.Events
use untitled.World.Server.Events.{Event, answer, disconnected, ticked, handle, new_world}
use untitled.World.Server.Roster.{IsRoster, roster}
use untitled.World.Server.Roster.Refines.{change, change_of}
use untitled.World.Server.Roster.Changes.{handle-change, run-new_world-IsRoster}
use untitled.World.Server.Roster.Ghosts.{IsGhost, disconnected-IsGhost}
use untitled.World.Server.Inputs.{MovesOwner, on_datagram-MovesOwner}
use untitled.World.Server.Authority.{Untouched, answered-Untouched}
use untitled.Server.AuthServer.{Sodium}
use untitled.Server.Text.{atoi8}
use untitled.World.Server.Console.{run_console_command}
use untitled.World.Server.Console.Allowed.{IsAllowed, run_console_command-IsAllowed}
use untitled.World.Server.Hello.{IsBound, on_hello-IsBound}
use untitled.World.Server.Sends.{AreRead, bound_players, tick-AreRead}

abbrev settings : Settings
settings = record { udp_port = 7003; udp_timeout_seconds = 30 }

abbrev pub clocks : Clocks
clocks = record { steady = 5; monotonic = 5; real = 86400; seconds_today = 43200; now_ms = 17 }

abbrev visitor : SessionLookup
visitor = record { found = true; account_id = 9; username = 97 ∷ []; permission_level = 0 }

abbrev master : SessionLookup
master = record { found = true; account_id = 8; username = 98 ∷ []; permission_level = 1 }

abbrev token : List ℕ
token = 49 ∷ 50 ∷ []

-- Connection 5 joins, and its player has sent a hello from address 77.
abbrev pub resident : Player
resident = record {
  player_id = 1;
  account_id = 9;
  username = 97 ∷ [];
  token = token;
  connection = 5;
  udp_bound = true;
  udp_address = 77;
  outgoing_sequence = 0;
  last_udp_packet = 4;
}

abbrev body : Body
body = record {
  entity_id = 1000;
  character = spawn whole 0;
  input = record no_input { sequence = 3 };
  last_input_sequence = 2;
}

abbrev pub village : World
village = record new_world {
  simulation = record new_simulation { players = (1, body) ∷ []; next_entity_id = 1001 };
  players = (5, resident) ∷ [];
  connection_by_player = (1, 5) ∷ [];
  next_player_id = 2;
}

abbrev join_event : Event
join_event = answer (joining 5 token) true visitor

-- The simulation.
run-Distinct_example : Distinct (
    entity_ids
      (build_snapshot whole
        (Entities.run whole (adds 7 ∷ adds 8 ∷ steps 1 1 ∷ removes 7 ∷ adds 9 ∷ []) new_simulation)
        empty_snapshot).entities)
run-Distinct_example =
    run-Distinct whole (adds 7 ∷ adds 8 ∷ steps 1 1 ∷ removes 7 ∷ adds 9 ∷ []) empty_snapshot
      (omega arith)

init_time_speed_example : (init whole 1 2 0x41c00000 new_simulation).time_speed ≡ one_f
init_time_speed_example = init_time_speed whole 1 2 0x41c00000 new_simulation

-- The server.
village-IsRoster : IsRoster (roster village)
unfolding roster
village-IsRoster = record {
  entered = ((refl, refl, omega arith), tt);
  listed = (refl, tt);
  embodied = (((5, refl), omega arith), tt);
}

handle-change_example :
    roster (handle whole settings clocks (disconnected 5) village).1
    ≡ change (change_of settings clocks (disconnected 5) village) (roster village)
handle-change_example =
    handle-change whole settings clocks (disconnected 5) village village-IsRoster

run-new_world-IsRoster_example : IsRoster (
    roster
      (Events.run whole settings
        ((clocks, join_event) ∷ (clocks, disconnected 5) ∷ [])
        new_world).1)
run-new_world-IsRoster_example =
    run-new_world-IsRoster whole settings ((clocks, join_event) ∷ (clocks, disconnected 5) ∷ [])
      ((refl, omega arith), (tt, tt))

disconnected-IsGhost_example : IsGhost 2 (
    roster
      (handle whole settings clocks
        (disconnected 5)
        (handle whole settings clocks join_event village).1).1)
disconnected-IsGhost_example =
    disconnected-IsGhost whole settings clocks 5 token visitor village resident village-IsRoster
      refl refl

on_datagram-MovesOwner_example :
    MovesOwner whole clocks 77 village (on_datagram whole clocks 77 (49 ∷ 84 ∷ []) village)
on_datagram-MovesOwner_example = on_datagram-MovesOwner whole clocks 77 (49 ∷ 84 ∷ []) village

answered-Untouched_example :
    Untouched
      (setting_latency 5 100)
      true
      master
      village
      (answered whole settings clocks (setting_latency 5 100) true master village).1
answered-Untouched_example =
    answered-Untouched whole settings clocks (setting_latency 5 100) true master village

abbrev hello_body : List ℕ
hello_body = 1 ∷ 0 ∷ 0 ∷ 0 ∷ 0 ∷ 0 ∷ 0 ∷ 0 ∷ 2 ∷ 0 ∷ 49 ∷ 50 ∷ []

on_hello-IsBound_example :
    (on_hello clocks 78 hello_body village ≡ village)
    ⊎ IsBound clocks 78 hello_body village (on_hello clocks 78 hello_body village)
on_hello-IsBound_example = on_hello-IsBound clocks 78 village hello_body

village-IsRanged : IsRanged village.simulation
unfolding spawn
village-IsRanged = search (arith)

tick-AreRead_example :
    AreRead
      (build_snapshot whole
        (step whole 86400 tick_seconds village.simulation)
        (record empty_snapshot { server_time_ms = 17 }))
      empty_snapshot
      (bound_players village.players)
      (tick whole clocks village).0
tick-AreRead_example =
    tick-AreRead whole clocks village empty_snapshot whole-IsFpu refl village-IsRanged (omega arith)
      (omega arith) (omega arith, tt)

abbrev sodium : Sodium
sodium = record {
  random_bytes = [];
  pwhash = λ password. some password;
  pwhash_verify = λ hash password. true;
}

-- "account level a 1"
abbrev typed : List ℕ
typed =
    97 ∷ 99 ∷ 99 ∷ 111 ∷ 117 ∷ 110 ∷ 116 ∷ 32 ∷ 108 ∷ 101 ∷ 118 ∷ 101 ∷ 108 ∷ 32 ∷ 97 ∷ 32 ∷ 49 ∷ []

run_console_command-IsAllowed_example :
    IsAllowed village (run_console_command whole (λ text. 0) sodium clocks typed village)
run_console_command-IsAllowed_example =
    run_console_command-IsAllowed whole (λ text. 0) sodium clocks typed village

typed_level :
    (run_console_command whole (λ text. 0) sodium clocks typed village).0
    ≡ (Request.set_permission_level (97 ∷ []) 1 ∷ [])
unfolding run_console_command atoi8
typed_level = refl
