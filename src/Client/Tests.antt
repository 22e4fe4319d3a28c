-- ===== src/Client/Tests.antt =====
-- Tests of client/src: a prediction with inputs under way, and a client that talks to a world server.
use untitled.Base.{inr, ◌≡◌, refl, arith, true, false, [], ◌∷◌, some, none}
use untitled.Base.{keep, ltb}
use untitled.Base.Maps.{put}
use untitled.Net.Snapshot.{EntityState}
use untitled.Sim.Float.{one_f}
use untitled.Sim.Character.{CharacterInput, no_input, no_character, origin}
use untitled.Sim.Tests.{whole}
use untitled.World.Simulation.{Body, body_state, new_simulation}
use untitled.World.Server.{World, Player, Clocks, find_player_by_udp}
use untitled.World.Server.Datagrams.{on_datagram}
use untitled.World.Server.Events.{new_world}
use untitled.Client.Prediction.{Prediction, step, reconcile, replay, rewind, drop_acked}
use untitled.Client.Prediction.Pending.{IsPrediction, step-IsPrediction}
use untitled.Client.Prediction.Replay.{serve, reconcile-serve, reconcile_airborne}
use untitled.Client.NetClient.{NetClient, Net, Intent, in_world, hello_packet, input_packet}
use untitled.Client.NetClient.Machine.{poll}
use untitled.Client.NetClient.Phases.{Edge, poll-Edge}
use untitled.Client.NetClient.Talks.{on_datagram-hello_packet, on_datagram-input_packet, clamped}
use untitled.Client.NetClient.Snapshots.{receive_all}
use untitled.Client.NetClient.Snapshots.Order.{Later, receive_all-Later}

abbrev first : CharacterInput
first = record no_input { sequence = 4; move_forward = one_f }

abbrev second : CharacterInput
second = record no_input { sequence = 5; jump = true }

abbrev prediction : Prediction
prediction = record {
  character = no_character;
  active = true;
  pending = first ∷ second ∷ [];
  next_sequence = 6;
  smoothing_offset = origin;
  rollbacks = 0;
  last_correction = 0;
}

prediction-IsPrediction : IsPrediction prediction
prediction-IsPrediction = omega arith

abbrev body : Body
body = record {
  entity_id = 1000;
  character = no_character;
  input = no_input;
  last_input_sequence = 4;
}

step-IsPrediction_example : IsPrediction (step whole one_f 0 0 true false prediction).1
step-IsPrediction_example =
    step-IsPrediction whole one_f 0 0 true false prediction prediction-IsPrediction (omega arith)

reconcile-serve_example :
    (reconcile whole (body_state whole body) prediction).character
    ≡ (serve whole body
        (keep (λ (i : CharacterInput). ltb 4 i.sequence) prediction.pending)).character
reconcile-serve_example =
    reconcile-serve whole body prediction refl prediction-IsPrediction refl refl

abbrev state : EntityState
state = record {
  id = 1000;
  type = 1;
  position = record { x = 0; y = 0; z = 0 };
  rotation = record { x = 0; y = 0; z = 0; w = one_f };
  velocity = record { x = 0; y = 0; z = 0 };
  angular_velocity = record { x = 0; y = 0; z = 0 };
  last_input_sequence = 4;
}

reconcile_airborne_example :
    (reconcile whole state prediction).character
    ≡ replay whole (rewind whole state prediction.character) (record second { jump = false } ∷ [])
unfolding drop_acked
reconcile_airborne_example = reconcile_airborne whole state prediction second [] refl refl refl

abbrev client : NetClient
client = record {
  phase = in_world;
  error = none;
  auth = none;
  world = none;
  udp_valid = true;
  udp_target = 7003;
  username = 97 ∷ [];
  password = [];
  token = 49 ∷ 50 ∷ [];
  world_host = [];
  world_port = 7002;
  player_id = 1;
  own_entity_id = 1000;
  delayed_outgoing = [];
  delayed_incoming = [];
  fake_latency = 0;
  last_poll_time = 0;
  entities = [];
  time_of_day = 0;
  last_snapshot_at = 0;
  last_hello_at = 0;
  last_snapshot_sequence = 6;
  snapshots_received = 1;
}

abbrev net : Net
net = record {
  resolve = λ host port. some port;
  connects = true;
  writable = true;
  connect_result = true;
  opens_udp = true;
  received = [];
  sent = [];
  sent_again = [];
  datagrams = [];
}

poll-Edge_example : Edge in_world (poll whole net 3 client).0.phase
poll-Edge_example = poll-Edge whole net 3 client

receive_all-Later_example :
    Later 1 client
      (receive_all whole 3 ((49 ∷ 84 ∷ 78 ∷ 85 ∷ 211 ∷ 0 ∷ 5 ∷ 0 ∷ 0 ∷ 0 ∷ []) ∷ []) client)
receive_all-Later_example =
    receive_all-Later whole 3 ((49 ∷ 84 ∷ 78 ∷ 85 ∷ 211 ∷ 0 ∷ 5 ∷ 0 ∷ 0 ∷ 0 ∷ []) ∷ []) client
      (omega arith) (omega arith)

-- The server that the client is on.
abbrev clocks : Clocks
clocks = record { steady = 5; monotonic = 5; real = 86400; seconds_today = 43200; now_ms = 17 }

abbrev resident : Player
resident = record {
  player_id = 1;
  account_id = 9;
  username = 97 ∷ [];
  token = 49 ∷ 50 ∷ [];
  connection = 5;
  udp_bound = true;
  udp_address = 77;
  outgoing_sequence = 0;
  last_udp_packet = 4;
}

abbrev village : World
village = record new_world {
  simulation = record new_simulation { players = (1, body) ∷ [] };
  players = (5, resident) ∷ [];
  connection_by_player = (1, 5) ∷ [];
  next_player_id = 2;
}

on_datagram-hello_packet_example :
    on_datagram whole clocks 78 (hello_packet client) village ≡ record village {
      players =
          put 5
            (record resident { udp_bound = true; udp_address = 78; last_udp_packet = 5 })
            village.players;
    }
on_datagram-hello_packet_example =
    on_datagram-hello_packet whole clocks 78 village client 5 resident (omega arith) (omega arith)
      (omega arith, (omega arith, tt)) refl refl refl

abbrev stroll : Intent
stroll = record {
  move_forward = one_f;
  move_right = 0;
  yaw = 0;
  jump = true;
  sprint = false;
  sequence = 9;
}

on_datagram-input_packet_example :
    on_datagram whole clocks 77 (input_packet stroll client) village ≡ record village {
      players = put 5 (record resident { last_udp_packet = 5 }) village.players;
      simulation = record village.simulation {
        players = put 1 (record body { input = clamped stroll }) village.simulation.players;
      };
    }
unfolding find_player_by_udp
on_datagram-input_packet_example =
    on_datagram-input_packet whole clocks 77 village client stroll 5 resident body (omega arith)
      (omega arith) refl refl refl refl (inr (omega arith))
