-- ===== src/Client/NetClient.antt =====
-- client/src/net_client.h and client/src/net_client.cpp: the connection of the client to the servers.
-- What the sockets answer is an argument; an address is a number that stands for it; `now` is a double.
pub mod Snapshots
pub mod Machine
pub mod Talks
pub mod Phases
use untitled.Base.{ℕ, ◌+◌, ◌%◌, ◌^◌, Bool, true, false, not, ◌&&◌, List, [], ◌∷◌, ◌++◌}
use untitled.Base.{Option, none, some, if◌then◌else◌, bit_or}
use untitled.Base.Maps.{Map}
use untitled.Net.Bytes.Writer
use untitled.Net.Bytes.Writer.{Writer, ◌>>◌}
use untitled.Net.Framing
use untitled.Net.Framing.{Message, MessageStream, Received, Sent, flush}
use untitled.Net.Protocol.World.{WorldMessage, world_code, input_jump, input_sprint}
use untitled.Net.Snapshot.{EntityState, write_udp_header}
use untitled.Sim.Float.{Fpu, d_lt}

pub data Phase : Type 0 where
  idle connecting_auth awaiting_login connecting_world awaiting_join in_world failed : Phase

-- The messages that `fail` is called with; the last is the text of an AuthResult.
pub data Failure : Type 0 where
  cannot_resolve_host cannot_reach_auth auth_closed malformed_login cannot_resolve_world : Failure
  cannot_reach_world world_closed malformed_join session_rejected cannot_join cannot_open_udp :
      Failure
  cannot_resolve_udp disconnected_by_server : Failure
  refused : ℕ → Failure

pub record Replicated : Type 0 where
  pub state : EntityState
  pub received_at : ℕ

pub record DelayedPacket : Type 0 where
  pub due_at : ℕ
  pub packet : List ℕ

-- The members; the two pending sockets live in the outcomes.
pub record NetClient : Type 0 where
  pub phase : Phase
  pub error : Option Failure
  pub auth : Option MessageStream
  pub world : Option MessageStream
  pub udp_valid : Bool
  pub udp_target : ℕ
  pub username : List ℕ
  pub password : List ℕ
  pub token : List ℕ
  pub world_host : List ℕ
  pub world_port : ℕ
  pub player_id : ℕ
  pub own_entity_id : ℕ
  pub delayed_outgoing : List DelayedPacket
  pub delayed_incoming : List DelayedPacket
  pub fake_latency : ℕ
  pub last_poll_time : ℕ
  pub entities : Map Replicated
  pub time_of_day : ℕ
  pub last_snapshot_at : ℕ
  pub last_hello_at : ℕ
  pub last_snapshot_sequence : ℕ
  pub snapshots_received : ℕ

-- What the sockets answer during one call; `sent_again` is for the flush of `logout`.
pub record Net : Type 0 where
  pub resolve : List ℕ → ℕ → Option ℕ
  pub connects : Bool
  pub writable : Bool
  pub connect_result : Bool
  pub opens_udp : Bool
  pub received : List Received
  pub sent : List Sent
  pub sent_again : List Sent
  pub datagrams : List (List ℕ)

-- The client behind a call, and the datagrams that it sent in order.
abbrev pub Outcome : Type 0
Outcome = NetClient × List (List ℕ)

unfoldable pub fail : Failure → NetClient → NetClient
fail why c = record c {
  error = some why;
  phase = failed;
  auth = none;
  world = none;
  udp_valid = false;
}

unfoldable pub disconnect : NetClient → NetClient
disconnect c = record c {
  auth = none;
  world = none;
  udp_valid = false;
  entities = [];
  delayed_outgoing = [];
  delayed_incoming = [];
  token = [];
  password = [];
  player_id = 0;
  own_entity_id = 0;
  snapshots_received = 0;
  last_snapshot_sequence = 0;
  phase = idle;
}

unfoldable pub write_hello : ℕ → List ℕ → Writer
write_hello player_id token = do Writer.u64 player_id; Writer.string token

-- The packet of `sendUdpHello`.
unfoldable pub hello_packet : NetClient → List ℕ
unfolding write_hello
hello_packet c =
    write_hello c.player_id c.token (write_udp_header (world_code WorldMessage.client_hello) 0 [])

unfoldable pub buttons : Bool → Bool → ℕ
buttons jump sprint =
    let b = if jump then bit_or 0 input_jump else 0 in if sprint then bit_or b input_sprint else b

-- What the player wants in this frame.
pub record Intent : Type 0 where
  pub move_forward : ℕ
  pub move_right : ℕ
  pub yaw : ℕ
  pub jump : Bool
  pub sprint : Bool
  pub sequence : ℕ

unfoldable pub write_input : ℕ → Intent → Writer
unfolding buttons
write_input player_id i = do
  Writer.u64 player_id
  Writer.u32 i.sequence
  Writer.f32 i.move_forward
  Writer.f32 i.move_right
  Writer.f32 i.yaw
  Writer.u8 (buttons i.jump i.sprint)

unfoldable pub input_packet : Intent → NetClient → List ℕ
unfolding write_input
input_packet i c =
    write_input c.player_id i
      (write_udp_header (world_code WorldMessage.client_input) i.sequence [])

abbrev pub is_in_world : Phase → Bool
is_in_world in_world = true
is_in_world _ = false

abbrev pub is_failed : Phase → Bool
is_failed failed = true
is_failed _ = false

-- `sendInput`; `lost` is whether the simulated loss takes the packet.
unfoldable pub send_input : Fpu → Bool → Intent → NetClient → Outcome
unfolding input_packet
send_input fpu lost i c =
    let held : DelayedPacket = record {
      due_at = fpu.d_add c.last_poll_time c.fake_latency;
      packet = input_packet i c;
    } in
    if not (is_in_world c.phase && c.udp_valid)
    then (c, [])
    else (if lost
        then (c, [])
        else (if d_lt 0 c.fake_latency
            then (record c { delayed_outgoing = c.delayed_outgoing ++ (held ∷ []) }, [])
            else (c, input_packet i c ∷ [])))

-- The bytes that `logout` gets out behind its request.
unfoldable pub logout_bytes : Net → Option MessageStream → Phase → List ℕ
logout_bytes net (some stream) in_world =
    let (stream', first) =
      Framing.send net.sent (record { type = world_code WorldMessage.logout_request; payload = [] })
        stream in
    let (_, _, later) = flush net.sent_again stream' in first ++ later
logout_bytes net _ _ = []

unfoldable pub logout : Net → NetClient → NetClient × List ℕ
unfolding logout_bytes disconnect
logout net c = (disconnect c, logout_bytes net c.world c.phase)
