-- ===== src/Client/NetClient/Machine.antt =====
-- The state machine of client/src/net_client.cpp: `login` and `poll`.
use untitled.Base.{ℕ, true, not, ◌&&◌, List, [], ◌∷◌, ◌++◌}
use untitled.Base.{Option, none, some, if◌then◌else◌, ◌==◌}
use untitled.Net.Bytes.Writer
use untitled.Net.Bytes.Writer.{Writer, ◌>>◌}
use untitled.Net.Bytes.Reader
use untitled.Net.Bytes.Reader.{Reader, Read, reader, ◌>>=◌, pure}
use untitled.Net.Framing
use untitled.Net.Framing.{Message, MessageStream, empty_stream, pump, drain_all}
use untitled.Net.Protocol.{AuthMessage, AuthResult, auth_code, result_code, protocol_version}
use untitled.Net.Protocol.World.{WorldMessage, world_code, JoinResult, join_code}
use untitled.Sim.Float.{Fpu, d_lt}
use untitled.Client.NetClient.{
  NetClient, Net, Outcome, Phase, connecting_auth, awaiting_login, connecting_world, awaiting_join,
  in_world, Failure, fail, disconnect, hello_packet, is_in_world, is_failed,
}
use untitled.Client.NetClient.Snapshots.{receive_all, flush_delayed}

-- A quarter of a second.
abbrev pub hello_retry_seconds : ℕ
hello_retry_seconds = 0x3fd0000000000000

unfoldable pub start_on : Net → Option ℕ → NetClient → NetClient
start_on net none c = fail Failure.cannot_resolve_host c
start_on net (some address) c =
    if not net.connects
    then fail Failure.cannot_reach_auth c
    else record c { phase = connecting_auth }

unfoldable pub login : Net → List ℕ → ℕ → List ℕ → List ℕ → NetClient → NetClient
unfolding start_on
login net host port username password c =
    start_on net (net.resolve host port) (record (disconnect c) {
      error = none;
      username = username;
      password = password;
      entities = [];
      snapshots_received = 0;
    })

unfoldable pub write_login : List ℕ → List ℕ → Writer
write_login username password = do
  Writer.u32 protocol_version
  Writer.string username
  Writer.string password

unfoldable pub write_join : List ℕ → Writer
write_join token = do Writer.u32 protocol_version; Writer.string token

-- A new stream with one message sent.
unfoldable pub greet : Net → ℕ → List ℕ → MessageStream
greet net type payload =
    let (stream, _) =
      Framing.send net.sent (record { type = type; payload = payload }) empty_stream in
    stream

unfoldable pub poll_auth_socket : Net → NetClient → NetClient
unfolding write_login greet
poll_auth_socket net c =
    if not net.writable
    then c
    else (if not net.connect_result then fail Failure.cannot_reach_auth c else record c {
      auth =
          some (
            greet net (auth_code AuthMessage.login_request) (write_login c.username c.password []));
      password = [];
      phase = awaiting_login;
    })

unfoldable pub poll_world_socket : Net → NetClient → NetClient
unfolding write_join greet
poll_world_socket net c =
    if not net.writable
    then c
    else (if not net.connect_result then fail Failure.cannot_reach_world c else record c {
      world = some (greet net (world_code WorldMessage.join_request) (write_join c.token []));
      phase = awaiting_join;
    })

pub record LoginResponse : Type 0 where
  pub result : ℕ
  pub token : List ℕ
  pub world_host : List ℕ
  pub world_port : ℕ

unfoldable pub read_login : Read LoginResponse
read_login = do
  result ← Reader.u8
  token ← Reader.string
  host ← Reader.string
  port ← Reader.u16
  _ ← Reader.u64
  pure (record { result = result; token = token; world_host = host; world_port = port })

unfoldable pub enter_on : Net → Option ℕ → NetClient → NetClient
enter_on net none c = fail Failure.cannot_resolve_world c
enter_on net (some address) c =
    if not net.connects
    then fail Failure.cannot_reach_world c
    else record c { phase = connecting_world }

unfoldable pub on_login_response : Net → List ℕ → NetClient → NetClient
unfolding read_login enter_on
on_login_response net bytes c =
    let (m, r) = read_login (reader bytes) in
    let c' = record c { token = m.token; world_host = m.world_host; world_port = m.world_port } in
    if r.failed
    then fail Failure.malformed_login c'
    else (if not (m.result == result_code AuthResult.success)
        then fail (Failure.refused m.result) c'
        else enter_on net (net.resolve m.world_host m.world_port) (record c' { auth = none }))

-- The loop of `pumpAuth`: every response ends it.
unfoldable pub auth_messages : Net → List Message → NetClient → NetClient
unfolding on_login_response
auth_messages net [] c = c
auth_messages net (m ∷ ms) c =
    let rest = auth_messages net ms c in
    if not (m.type == auth_code AuthMessage.login_response)
    then rest
    else on_login_response net m.payload c

unfoldable pub pump_auth : Net → Option MessageStream → NetClient → NetClient
unfolding auth_messages
pump_auth net none c = fail Failure.auth_closed c
pump_auth net (some stream) c =
    let (ok, stream') = pump net.received stream in
    let (messages, left) = drain_all stream'.read_buffer in
    if not ok
    then fail Failure.auth_closed c
    else auth_messages net messages
        (record c { auth = some (record stream' { read_buffer = left }) })

pub record JoinResponse : Type 0 where
  pub result : ℕ
  pub player_id : ℕ
  pub udp_port : ℕ
  pub username : List ℕ
  pub entity_id : ℕ

unfoldable pub read_join : Read JoinResponse
read_join = do
  result ← Reader.u8
  player ← Reader.u64
  port ← Reader.u16
  username ← Reader.string
  entity ← Reader.u32
  pure (record {
    result = result;
    player_id = player;
    udp_port = port;
    username = username;
    entity_id = entity;
  })

-- Behind the check that the UDP socket is open.
unfoldable pub joined_on : ℕ → Option ℕ → NetClient → Outcome
joined_on now none c = (fail Failure.cannot_resolve_udp c, [])
joined_on now (some address) c =
    let c' = record c {
      udp_valid = true;
      udp_target = address;
      phase = in_world;
      last_hello_at = now;
      last_snapshot_at = now;
    } in
    (c', hello_packet c' ∷ [])

unfoldable pub on_join_response : Net → ℕ → List ℕ → NetClient → Outcome
unfolding read_join joined_on
on_join_response net now bytes c =
    let (m, r) = read_join (reader bytes) in
    let c' = record c {
      player_id = m.player_id;
      username = m.username;
      own_entity_id = m.entity_id;
    } in
    if r.failed
    then (fail Failure.malformed_join c', [])
    else (if m.result == join_code JoinResult.success
        then (if not net.opens_udp
            then (fail Failure.cannot_open_udp c', [])
            else joined_on now (net.resolve c.world_host m.udp_port) c')
        else (if m.result == join_code JoinResult.invalid_session
            then (fail Failure.session_rejected c', [])
            else (fail Failure.cannot_join c', [])))

unfoldable pub world_message : Net → ℕ → Message → NetClient → Outcome
unfolding on_join_response
world_message net now m c =
    if m.type == world_code WorldMessage.join_response
    then on_join_response net now m.payload c
    else (if m.type == world_code WorldMessage.disconnect
        then (fail Failure.disconnected_by_server c, [])
        else (c, []))

-- The loop of `pumpWorld`: a failure ends it.
unfoldable pub world_messages : Net → ℕ → List Message → NetClient → Outcome
unfolding world_message
world_messages net now [] c = (c, [])
world_messages net now (m ∷ ms) c =
    let (c', sent) = world_message net now m c in
    let (c'', more) = world_messages net now ms c' in
    if is_failed c'.phase then (c', sent) else (c'', sent ++ more)

-- `pumpWorld` behind the messages.
unfoldable pub pump_udp : Fpu → Net → ℕ → Outcome → Outcome
pump_udp fpu net now (c, sent) =
    let due =
      (c.snapshots_received == 0) && d_lt hello_retry_seconds (fpu.d_sub now c.last_hello_at) in
    let c' = if due then record c { last_hello_at = now } else c in
    let hello = if due then hello_packet c ∷ [] else [] in
    let (c'', released) = flush_delayed now (receive_all fpu now net.datagrams c') in
    if not (is_in_world c.phase) then (c, sent) else (c'', sent ++ (hello ++ released))

unfoldable pub pump_world : Fpu → Net → ℕ → Option MessageStream → NetClient → Outcome
unfolding world_messages pump_udp
pump_world fpu net now none c = (fail Failure.world_closed c, [])
pump_world fpu net now (some stream) c =
    let (ok, stream') = pump net.received stream in
    let (messages, left) = drain_all stream'.read_buffer in
    let pumped = record c { world = some (record stream' { read_buffer = left }) } in
    if not ok
    then (fail Failure.world_closed c, [])
    else pump_udp fpu net now (world_messages net now messages pumped)

-- The switch of `poll`.
unfoldable pub poll_on : Fpu → Net → ℕ → Phase → NetClient → Outcome
unfolding poll_auth_socket poll_world_socket pump_auth pump_world
poll_on fpu net now connecting_auth c = (poll_auth_socket net c, [])
poll_on fpu net now awaiting_login c = (pump_auth net c.auth c, [])
poll_on fpu net now connecting_world c = (poll_world_socket net c, [])
poll_on fpu net now awaiting_join c = pump_world fpu net now c.world c
poll_on fpu net now in_world c = pump_world fpu net now c.world c
poll_on fpu net now _ c = (c, [])

unfoldable pub poll : Fpu → Net → ℕ → NetClient → Outcome
unfolding poll_on
poll fpu net now c = poll_on fpu net now c.phase (record c { last_poll_time = now })
