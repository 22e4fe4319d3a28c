-- ===== src/World/Server/Events.antt =====
-- What happens to the world server (server/worldserver/src/main.cpp), one event at a time: the callbacks
-- of the TCP server, the answers of the database, and the stages of the main loop.
use untitled.Base.{ℕ, Bool, List, [], ◌∷◌, ◌++◌}
use untitled.Server.DbClient.{SessionLookup}
use untitled.Sim.Float.{Fpu}
use untitled.World.Simulation.{new_simulation}
use untitled.World.Server.{World, Settings, Clocks, Outcome, Pending, remove_player}
use untitled.World.Server.Messages.{on_message}
use untitled.World.Server.Answers.{answered}
use untitled.World.Server.Datagrams.{drain_udp}
use untitled.World.Server.Ticks.{tick, release, drop_silent}

pub data Event : Type 0 where
  message : ℕ → ℕ → List ℕ → Event
  answer : Pending → Bool → SessionLookup → Event
  disconnected : ℕ → Event
  datagrams : List (ℕ × List ℕ) → Event
  ticked released timed : Event

abbrev pub new_world : World
new_world = record {
  simulation = new_simulation;
  latency = 0;
  delayed_outgoing = [];
  delayed_inputs = [];
  players = [];
  connection_by_player = [];
  next_player_id = 1;
}

unfoldable pub handle : Fpu → Settings → Clocks → Event → World → Outcome
handle fpu settings clocks (message id type bytes) w = on_message id type bytes w
handle fpu settings clocks (answer pending ok session) w =
    answered fpu settings clocks pending ok session w
handle fpu settings clocks (disconnected id) w = ([], remove_player id w)
handle fpu settings clocks (datagrams received) w = ([], drain_udp fpu clocks received w)
handle fpu settings clocks ticked w = tick fpu clocks w
handle fpu settings clocks released w = release clocks w
handle fpu settings clocks timed w = drop_silent settings clocks w

-- A run: the effects in order, and the world at the end.
unfoldable pub run : Fpu → Settings → List (Clocks × Event) → World → Outcome
unfolding handle
run fpu settings [] w = ([], w)
run fpu settings ((clocks, event) ∷ more) w =
    let (effects, w') = handle fpu settings clocks event w in
    let (later, w'') = run fpu settings more w' in (effects ++ later, w'')
