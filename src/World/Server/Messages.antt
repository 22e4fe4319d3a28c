-- ===== src/World/Server/Messages.antt =====
-- `callbacks.onMessage` of server/worldserver/src/main.cpp. A session lookup is an effect that carries
-- what its callback has captured.
use untitled.Base.{ℕ, not, List, [], ◌∷◌, length, Option, none, some}
use untitled.Base.{◌%◌, ◌^◌, ◌==◌, if◌then◌else◌}
use untitled.Base.Maps.{find}
use untitled.Net.Bytes.Writer
use untitled.Net.Bytes.Writer.{Writer, ◌>>◌}
use untitled.Net.Bytes.Reader
use untitled.Net.Bytes.Reader.{Reader, Read, reader, ◌>>=◌, pure}
use untitled.Net.Protocol.{protocol_version}
use untitled.Net.Protocol.World.{
  WorldMessage, TimeCommand, JoinResult, world_message?, time_command,
}
use untitled.World.Server.{
  World, Player, Effect, tcp_send, lookup_session, Outcome, joining, setting_latency, commanding,
  WorldCommand, set_time, status, send_join_response, remove_player,
}

-- `reply` of AdminSetLatencyRequest.
unfoldable pub reply_latency : ℕ → ℕ → World → Effect
reply_latency id result w =
    tcp_send id WorldMessage.admin_set_latency_response
      ((do Writer.u8 result; Writer.u32 w.latency) [])

unfoldable pub write_clock : ℕ → World → Writer
write_clock result w = do
  Writer.u8 result
  Writer.f32 w.simulation.time_of_day
  Writer.f32 w.simulation.time_speed

unfoldable pub write_status : World → Writer
write_status w = do
  Writer.u16 (length w.simulation.players % 2 ^ 16)
  Writer.u32 w.simulation.tick
  Writer.u32 w.latency

-- `reply` of AdminSetTimeRequest and AdminStatusRequest.
unfoldable pub reply_command : WorldCommand → ℕ → ℕ → World → Effect
unfolding write_clock write_status
reply_command set_time id result w =
    tcp_send id WorldMessage.admin_set_time_response (write_clock result w [])
reply_command status id result w =
    tcp_send id WorldMessage.admin_status_response ((do write_clock result w; write_status w) [])

pub record JoinRequest : Type 0 where
  pub version : ℕ
  pub token : List ℕ

unfoldable pub read_join : Read JoinRequest
read_join = do
  version ← Reader.u32
  token ← Reader.string
  pure (record { version = version; token = token })

-- A connection that has a player asks in vain, with what `count` says of it.
unfoldable pub join_unless : Option Player → ℕ → List ℕ → World → Outcome
join_unless (some _) id token w = ([], w)
join_unless none id token w = (lookup_session token (joining id token) ∷ [], w)

unfoldable pub on_join_request : ℕ → List ℕ → World → Outcome
unfolding read_join join_unless
on_join_request id bytes w =
    let (q, r) = read_join (reader bytes) in
    if r.failed
    then (send_join_response id JoinResult.server_error 0 0 [] 0 ∷ [], w)
    else (if not (q.version == protocol_version)
        then (send_join_response id JoinResult.version_mismatch 0 0 [] 0 ∷ [], w)
        else join_unless (find id w.players) id q.token w)

pub record LatencyRequest : Type 0 where
  pub token : List ℕ
  pub milliseconds : ℕ

unfoldable pub read_latency : Read LatencyRequest
read_latency = do
  token ← Reader.string
  milliseconds ← Reader.u32
  pure (record { token = token; milliseconds = milliseconds })

unfoldable pub on_set_latency : ℕ → List ℕ → World → Outcome
unfolding read_latency reply_latency
on_set_latency id bytes w =
    let (q, r) = read_latency (reader bytes) in
    if r.failed
    then (reply_latency id 1 w ∷ [], w)
    else (lookup_session q.token (setting_latency id q.milliseconds) ∷ [], w)

pub record CommandRequest : Type 0 where
  pub token : List ℕ
  pub command : TimeCommand
  pub value : ℕ

unfoldable pub read_command : WorldCommand → Read CommandRequest
read_command set_time = do
  token ← Reader.string
  code ← Reader.u8
  value ← Reader.f32
  pure (record { token = token; command = time_command code; value = value })
read_command status = do
  token ← Reader.string
  pure (record { token = token; command = TimeCommand.set; value = 0 })

unfoldable pub on_command : WorldCommand → ℕ → List ℕ → World → Outcome
unfolding read_command reply_command
on_command command id bytes w =
    let (q, r) = read_command command (reader bytes) in
    if r.failed
    then (reply_command command id 1 w ∷ [], w)
    else (lookup_session q.token (commanding id command q.command q.value) ∷ [], w)

unfoldable pub on_logout : ℕ → World → Outcome
on_logout id w = (tcp_send id WorldMessage.logout_response [] ∷ [], remove_player id w)

-- The switch. What is not for TCP falls to the default.
unfoldable pub dispatch : WorldMessage → ℕ → List ℕ → World → Outcome
unfolding on_join_request on_set_latency on_command on_logout
dispatch WorldMessage.join_request id bytes w = on_join_request id bytes w
dispatch WorldMessage.admin_set_latency_request id bytes w = on_set_latency id bytes w
dispatch WorldMessage.admin_set_time_request id bytes w = on_command set_time id bytes w
dispatch WorldMessage.admin_status_request id bytes w = on_command status id bytes w
dispatch WorldMessage.logout_request id bytes w = on_logout id w
dispatch _ id bytes w = ([], w)

unfoldable pub dispatch_on : Option WorldMessage → ℕ → List ℕ → World → Outcome
unfolding dispatch
dispatch_on none id bytes w = ([], w)
dispatch_on (some m) id bytes w = dispatch m id bytes w

unfoldable pub on_message : ℕ → ℕ → List ℕ → World → Outcome
unfolding dispatch_on
on_message id type bytes w = dispatch_on (world_message? type) id bytes w
