-- ===== src/World/Server/Sends.antt =====
-- What the world server sends over UDP (server/worldserver/src/main.cpp): the packets of a tick as the
-- client reads them, and the packets that were held back.
use untitled.Base.{ℕ, ◌+◌, ◌^◌, ◌≤◌, ◌<◌, ◌≡◌, refl, sym, ap, ◌∙◌, arith, All, List, [], ◌∷◌, ◌++◌}
use untitled.Base.{length, true, false, if◌then◌else◌, Bool-cases, inl, inr, some, drop}
use untitled.Base.{append-nil, length-append}
use untitled.Net.Snapshot.Size.{length-write_udp_header, length-encode_snapshot}
use untitled.Base.Maps.{Map}
use untitled.Net.Protocol.World.{WorldMessage, world_code}
use untitled.Net.Snapshot.{
  Snapshot, read_udp_header, decode_snapshot, encode_snapshot, write_udp_header,
}
use untitled.Net.Snapshot.Packet.{IsSnapshot, read-write_udp_header, decode-encode}
use untitled.Sim.Float.{Fpu, d_le}
use untitled.Sim.Character.Ranges.{IsFpu}
use untitled.World.Simulation.{
  Simulation, Body, build_snapshot, step, step_bodies, step_clock, step_cube,
}
use untitled.World.Simulation.Ranges.{
  IsRanged, build_snapshot-IsSnapshot, length-body_states, apply_steps-IsRanged,
}
use untitled.World.Server.{World, Player, Clocks, DelayedPacket, Effect, udp_send}
use untitled.World.Server.Ticks.{
  packet_for, send_to_all, send_now, tick_snapshot, tick, release_packets, empty_snapshot,
  tick_seconds,
}

-- The size of the buffer that the client receives into (client/src/net_client.cpp).
abbrev pub receive_size : ℕ
receive_size = 2048

-- A packet for the player that the client's buffer holds, and that decodes as the snapshot `s`.
pub record IsRead (s held : Snapshot) (p : Player) (packet : List ℕ) : Type 0 where
  pub fits : length packet ≤ receive_size
  pub header :
      read_udp_header packet
      ≡ some
          (record { type = world_code WorldMessage.snapshot; sequence = p.outgoing_sequence }, 10)
  pub body : decode_snapshot (drop 10 packet) held ≡ (true, s)

-- The players that have an address.
abbrev pub bound_players : Map Player → List Player
bound_players [] = []
bound_players ((c, p) ∷ more) = if p.udp_bound then p ∷ bound_players more else bound_players more

-- One datagram for each of the players, in order, at the player's address.
abbrev pub AreRead : Snapshot → Snapshot → List Player → List Effect → Type 0
AreRead s held [] [] = Unit
AreRead s held (p ∷ ps) (udp_send packet address ∷ es) =
    (address ≡ p.udp_address) × IsRead s held p packet × AreRead s held ps es
AreRead s held _ _ = ⊥

abbrev pub Counted : Map Player → Type 0
Counted d = All (λ (e : ℕ × Player). e.1.outgoing_sequence < 2 ^ 32) d

packet_for-IsRead :
    (s held : Snapshot) (p : Player)
    → IsSnapshot s
    → length s.entities ≤ 33
    → p.outgoing_sequence < 2 ^ 32
    → IsRead s held p (packet_for (encode_snapshot s []) p)
unfolding packet_for
packet_for-IsRead s held p v few h =
    let snapshot = encode_snapshot s [] in
    let head = write_udp_header (world_code WorldMessage.snapshot) p.outgoing_sequence [] in
    let (header, body) =
      read-write_udp_header (world_code WorldMessage.snapshot) p.outgoing_sequence (omega arith) h
        snapshot in
    record {
      fits = omega (
        arith,
        length-append head snapshot,
        length-write_udp_header (world_code WorldMessage.snapshot) p.outgoing_sequence,
        length-encode_snapshot s,
      );
      header = header;
      body =
          ap (λ (t : List ℕ). decode_snapshot t held) (body ∙ sym (append-nil snapshot))
          ∙ decode-encode s v [] held (omega arith);
    }

send_to_all-AreRead :
    (s held : Snapshot) (d : Map Player)
    → IsSnapshot s
    → length s.entities ≤ 33
    → Counted d
    → AreRead s held (bound_players d) (send_now (send_to_all (encode_snapshot s []) d).0)
unfolding send_to_all send_now
send_to_all-AreRead s held [] v few h = tt
send_to_all-AreRead s held ((c, p) ∷ d) v few (h, hs) =
    let reads = send_to_all-AreRead s held d v few hs in
    elim (Bool-cases p.udp_bound) [
      | inl on ↦ simp on (refl, packet_for-IsRead s held p v few h, reads)
      | inr off ↦ simp off reads
    ]

length-step_bodies :
    (fpu : Fpu) (delta : ℕ) (d : Map Body) → length (step_bodies fpu delta d) ≡ length d
unfolding step_bodies
length-step_bodies fpu delta [] = refl
length-step_bodies fpu delta (e ∷ d) = omega (arith, length-step_bodies fpu delta d)

length-step :
    (fpu : Fpu) (now delta : ℕ) (s : Simulation)
    → length (step fpu now delta s).players ≡ length s.players
unfolding step step_clock step_cube
length-step fpu now delta s = length-step_bodies fpu delta s.players

tick_snapshot-eq-build_snapshot :
    (fpu : Fpu) (clocks : Clocks) (w : World)
    → tick_snapshot fpu clocks w
      ≡ build_snapshot fpu w.simulation (record empty_snapshot { server_time_ms = clocks.now_ms })
unfolding tick_snapshot build_snapshot
tick_snapshot-eq-build_snapshot fpu clocks w = refl

-- What a tick sends when nothing is held back.
tick-sends :
    (fpu : Fpu) (clocks : Clocks) (w : World)
    → w.latency ≡ 0
    → (tick fpu clocks w).0
      ≡ send_now
          (send_to_all
            (encode_snapshot
              (tick_snapshot fpu clocks
                (record w { simulation = step fpu clocks.real tick_seconds w.simulation }))
              [])
            w.players).0
unfolding tick
tick-sends fpu clocks w h = ground (arith, h)

length-entities :
    (fpu : Fpu) (s : Simulation) (out : Snapshot)
    → length (build_snapshot fpu s out).entities ≡ 1 + length s.players
unfolding build_snapshot
length-entities fpu s out = omega (arith, length-body_states fpu s.players)

-- Without simulated latency, and with floats of 32 bits, a simulation in range of 32 players at
-- most and sequence numbers of 32 bits, a tick sends one datagram for each player that has an
-- address, in order and to that address; each has the player's sequence number, fits the 2048
-- bytes of the client's buffer, and decodes as the snapshot of the simulation that the tick has
-- stepped.
pub tick-AreRead :
    (fpu : Fpu) (clocks : Clocks) (w : World) (held : Snapshot)
    → IsFpu fpu
    → w.latency ≡ 0
    → IsRanged w.simulation
    → length w.simulation.players ≤ 32
    → clocks.now_ms < 2 ^ 64
    → Counted w.players
    → AreRead
        (build_snapshot fpu
          (step fpu clocks.real tick_seconds w.simulation)
          (record empty_snapshot { server_time_ms = clocks.now_ms }))
        held
        (bound_players w.players)
        (tick fpu clocks w).0
tick-AreRead fpu clocks w held laws off ranged few time counted =
    let sim = step fpu clocks.real tick_seconds w.simulation in
    let out : Snapshot = record empty_snapshot { server_time_ms = clocks.now_ms } in
    let s = build_snapshot fpu sim out in
    let short : length s.entities ≤ 33 =
      omega (
        arith,
        length-step fpu clocks.real tick_seconds w.simulation,
        length-entities fpu sim out,
      ) in
    let sends : (tick fpu clocks w).0 ≡ send_now (send_to_all (encode_snapshot s []) w.players).0 =
      tick-sends fpu clocks w off
      ∙ ap (λ (t : Snapshot). send_now (send_to_all (encode_snapshot t []) w.players).0)
          (tick_snapshot-eq-build_snapshot fpu clocks (record w { simulation = sim })) in
    rw sends (
      send_to_all-AreRead s held w.players
        (build_snapshot-IsSnapshot fpu laws sim out
          (apply_steps-IsRanged fpu laws clocks.real tick_seconds w.simulation ranged) time)
        short counted)

-- The packets of the queue, as they would be sent.
abbrev pub sends : List DelayedPacket → List Effect
sends [] = []
sends (d ∷ more) = udp_send d.packet d.address ∷ sends more

abbrev pub FrontWaits : ℕ → List DelayedPacket → Type 0
FrontWaits now [] = Unit
FrontWaits now (d ∷ more) = d_le d.due_at now ≡ false

-- x
pub release_packets-append :
    (now : ℕ) (held : List DelayedPacket)
    → ((release_packets now held).0 ++ sends (release_packets now held).1 ≡ sends held)
      × FrontWaits now (release_packets now held).1
unfolding release_packets
release_packets-append now [] = (refl, tt)
release_packets-append now (d ∷ more) =
    let (same, waits) = release_packets-append now more in
    elim (Bool-cases (d_le d.due_at now)) [
      | inl due ↦ rw due (ap (◌∷◌ (udp_send d.packet d.address)) same, waits)
      | inr early ↦ rw early (refl, early)
    ]
