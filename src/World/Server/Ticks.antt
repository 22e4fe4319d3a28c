-- ===== src/World/Server/Ticks.antt =====
-- The main loop of server/worldserver/src/main.cpp behind the inputs: ticks, held packets, timeouts.
use untitled.Base.{ℕ, ◌+◌, ◌*◌, ◌%◌, ◌^◌, List, [], ◌∷◌, ◌++◌, ltb, ◌&&◌}
use untitled.Base.{if◌then◌else◌}
use untitled.Base.Maps.{Map}
use untitled.Net.Snapshot.{Snapshot, encode_snapshot, write_udp_header}
use untitled.Net.Protocol.World.{WorldMessage, world_code}
use untitled.Sim.Float.{Fpu, d_le}
use untitled.World.Simulation
use untitled.World.Server.{
  World, Player, DelayedPacket, DelayedInput, Settings, Clocks, Effect, udp_send, close_connection,
  Outcome, remove_player,
}
use untitled.World.Server.Datagrams.{due_at}

-- 1 / 60.
abbrev pub tick_seconds : ℕ
tick_seconds = 0x3c888889

unfoldable pub packet_for : List ℕ → Player → List ℕ
packet_for body p =
    write_udp_header (world_code WorldMessage.snapshot) p.outgoing_sequence [] ++ body

-- The players behind the loop of a tick, and the packets that it made for them in order.
unfoldable pub send_to_all : List ℕ → Map Player → List (List ℕ × ℕ) × Map Player
unfolding packet_for
send_to_all body [] = ([], [])
send_to_all body ((c, p) ∷ more) =
    let (packets, rest) = send_to_all body more in
    if p.udp_bound
    then (
      (packet_for body p, p.udp_address) ∷ packets,
      (c, record p { outgoing_sequence = (p.outgoing_sequence + 1) % 2 ^ 32 }) ∷ rest,
    )
    else (packets, (c, p) ∷ rest)

unfoldable pub send_now : List (List ℕ × ℕ) → List Effect
send_now [] = []
send_now ((packet, address) ∷ more) = udp_send packet address ∷ send_now more

unfoldable pub send_later : ℕ → List (List ℕ × ℕ) → List DelayedPacket
send_later due [] = []
send_later due ((packet, address) ∷ more) =
    record { due_at = due; address = address; packet = packet } ∷ send_later due more

-- A snapshot that the caller has just made.
abbrev pub empty_snapshot : Snapshot
empty_snapshot = record { tick = 0; server_time_ms = 0; time_of_day = 0; entities = [] }

module _ (fpu : Fpu) (clocks : Clocks) where
  unfoldable pub tick_snapshot : World → Snapshot
  tick_snapshot w = record (Simulation.build_snapshot fpu w.simulation empty_snapshot) {
    server_time_ms = clocks.now_ms;
  }

  -- The body of the loop over the ticks that are due.
  unfoldable pub tick : World → Outcome
  unfolding tick_snapshot send_to_all send_now send_later due_at
  tick w =
      let w' = record w {
        simulation = Simulation.step fpu clocks.real tick_seconds w.simulation;
      } in
      let body = encode_snapshot (tick_snapshot w') [] in
      let (packets, players) = send_to_all body w.players in
      if ltb 0 w.latency
      then (
        [],
        record w' {
          players = players;
          delayed_outgoing = w.delayed_outgoing ++ send_later (due_at fpu clocks w.latency) packets;
        },
      )
      else (send_now packets, record w' { players = players })

-- The loop over delayedInputs.
unfoldable pub release_inputs : ℕ → List DelayedInput → World → World
release_inputs now [] w = record w { delayed_inputs = [] }
release_inputs now (d ∷ more) w =
    let rest =
      release_inputs now more
        (record w { simulation = Simulation.set_input d.player_id d.input w.simulation }) in
    if d_le d.due_at now then rest else record w { delayed_inputs = d ∷ more }

-- The loop over delayedOutgoing: what is sent and what is left.
unfoldable pub release_packets : ℕ → List DelayedPacket → List Effect × List DelayedPacket
release_packets now [] = ([], [])
release_packets now (d ∷ more) =
    let (sent, left) = release_packets now more in
    if d_le d.due_at now then (udp_send d.packet d.address ∷ sent, left) else ([], d ∷ more)

unfoldable pub release : Clocks → World → Outcome
unfolding release_inputs release_packets
release clocks w =
    let w' = release_inputs clocks.monotonic w.delayed_inputs w in
    let (sent, left) = release_packets clocks.monotonic w'.delayed_outgoing in
    (sent, record w' { delayed_outgoing = left })

abbrev pub nanoseconds : ℕ
nanoseconds = 1_000_000_000

unfoldable pub timed_out : Settings → Clocks → Map Player → List ℕ
timed_out settings clocks [] = []
timed_out settings clocks ((c, p) ∷ more) =
    let rest = timed_out settings clocks more in
    if p.udp_bound
      && ltb (p.last_udp_packet + settings.udp_timeout_seconds * nanoseconds) clocks.steady
    then c ∷ rest
    else rest

unfoldable pub drop_all : List ℕ → World → Outcome
drop_all [] w = ([], w)
drop_all (c ∷ cs) w =
    let (effects, w') = drop_all cs (remove_player c w) in (close_connection c ∷ effects, w')

unfoldable pub drop_silent : Settings → Clocks → World → Outcome
unfolding timed_out drop_all
drop_silent settings clocks w = drop_all (timed_out settings clocks w.players) w
