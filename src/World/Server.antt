-- ===== src/World/Server.antt =====
-- server/worldserver/src/main.cpp: the players of the world server. An address is a number that stands
-- for it. Time points of steady_clock are nanoseconds, `monotonicSeconds` and `realSeconds` are doubles.
pub mod Messages
pub mod Answers
pub mod Datagrams
pub mod Ticks
pub mod Events
pub mod Roster
pub mod Console
pub mod Hello
pub mod Sends
pub mod Inputs
pub mod Authority
use untitled.Base.{ℕ, ◌+◌, ◌-◌, Bool, true, false, List, [], ◌∷◌, length, Option, none, some}
use untitled.Base.{◌%◌, ◌^◌, ◌==◌, bit_or, bit_xor, if◌then◌else◌}
use untitled.Base.Maps.{Map, find, erase}
use untitled.Net.Bytes.Writer
use untitled.Net.Bytes.Writer.{Writer, ◌>>◌}
use untitled.Net.Protocol.World.{WorldMessage, TimeCommand, JoinResult, world_code, join_code}
use untitled.Sim.Character.{CharacterInput}
use untitled.World.Simulation
use untitled.World.Simulation.{Simulation}

pub record Player : Type 0 where
  pub player_id : ℕ
  pub account_id : ℕ
  pub username : List ℕ
  pub token : List ℕ
  pub connection : ℕ
  pub udp_bound : Bool
  pub udp_address : ℕ
  pub outgoing_sequence : ℕ
  pub last_udp_packet : ℕ

pub record DelayedPacket : Type 0 where
  pub due_at : ℕ
  pub address : ℕ
  pub packet : List ℕ

pub record DelayedInput : Type 0 where
  pub due_at : ℕ
  pub player_id : ℕ
  pub input : CharacterInput

-- The variables of `main` that the callbacks and the loop share.
pub record World : Type 0 where
  pub simulation : Simulation
  pub latency : ℕ
  pub delayed_outgoing : List DelayedPacket
  pub delayed_inputs : List DelayedInput
  pub players : Map Player
  pub connection_by_player : Map ℕ
  pub next_player_id : ℕ

pub record Settings : Type 0 where
  pub udp_port : ℕ
  pub udp_timeout_seconds : ℕ

-- What the clocks say: steady_clock, `monotonicSeconds`, `realSeconds`, the local time of day in
-- seconds, and `nowMs`.
pub record Clocks : Type 0 where
  pub steady : ℕ
  pub monotonic : ℕ
  pub real : ℕ
  pub seconds_today : ℕ
  pub now_ms : ℕ

-- The two requests of a game master about the clock.
pub data WorldCommand : Type 0 where
  set_time status : WorldCommand

-- What the callback of a session lookup has captured.
pub data Pending : Type 0 where
  joining : ℕ → List ℕ → Pending
  setting_latency : ℕ → ℕ → Pending
  commanding : ℕ → WorldCommand → TimeCommand → ℕ → Pending

-- What is asked of the TCP server, the UDP socket and the database client.
pub data Effect : Type 0 where
  tcp_send : ℕ → WorldMessage → List ℕ → Effect
  udp_send : List ℕ → ℕ → Effect
  lookup_session : List ℕ → Pending → Effect
  delete_session : List ℕ → Effect
  close_connection : ℕ → Effect

abbrev pub Outcome : Type 0
Outcome = List Effect × World

-- The loop of `constantTimeEquals` over two strings of one length.
unfoldable pub difference : ℕ → List ℕ → List ℕ → ℕ
difference d (a ∷ s) (b ∷ t) = difference (bit_or d (bit_xor a b) % 2 ^ 8) s t
difference d _ _ = d

unfoldable pub constant_time_equals : List ℕ → List ℕ → Bool
unfolding difference
constant_time_equals a b = if length a == length b then difference 0 a b == 0 else false

unfoldable pub write_join_response : JoinResult → ℕ → ℕ → List ℕ → ℕ → Writer
write_join_response result player_id udp_port username entity_id = do
  Writer.u8 (join_code result)
  Writer.u64 player_id
  Writer.u16 udp_port
  Writer.string username
  Writer.u32 entity_id

unfoldable pub send_join_response : ℕ → JoinResult → ℕ → ℕ → List ℕ → ℕ → Effect
unfolding write_join_response
send_join_response id result player_id udp_port username entity_id =
    tcp_send id WorldMessage.join_response
      (write_join_response result player_id udp_port username entity_id [])

unfoldable pub find_player_by_udp : ℕ → Map Player → Option (ℕ × Player)
find_player_by_udp from [] = none
find_player_by_udp from ((c, p) ∷ more) =
    let rest = find_player_by_udp from more in
    if p.udp_bound then (if p.udp_address == from then some (c, p) else rest) else rest

-- `removePlayer`, with what `find` says of the connection.
unfoldable pub remove_player_on : Option Player → ℕ → World → World
remove_player_on none id w = w
remove_player_on (some p) id w = record w {
  simulation = Simulation.remove_player p.player_id w.simulation;
  connection_by_player = erase p.player_id w.connection_by_player;
  players = erase id w.players;
}

unfoldable pub remove_player : ℕ → World → World
unfolding remove_player_on
remove_player id w = remove_player_on (find id w.players) id w
