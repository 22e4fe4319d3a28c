-- ===== src/Client/NetClient/Snapshots.antt =====
-- The UDP side of client/src/net_client.cpp: snapshots as they arrive, and what is held back.
pub mod Order
use untitled.Base.{ℕ, ◌+◌, ◌%◌, ◌^◌, Bool, true, false, not, ◌&&◌, List, [], ◌∷◌, ◌++◌, length}
use untitled.Base.{Option, none, some, if◌then◌else◌, ◌==◌, ltb, leb, drop}
use untitled.Base.Maps.{Map, insert}
use untitled.Net.Protocol.World.{WorldMessage, world_code}
use untitled.Net.Snapshot.{EntityState, Snapshot, UdpHeader, decode_snapshot, read_udp_header}
use untitled.Sim.Float.{Fpu, d_le, d_lt}
use untitled.Client.NetClient.{NetClient, Replicated, DelayedPacket, Outcome}

-- A `Snapshot` that has just been declared.
abbrev pub new_snapshot : Snapshot
new_snapshot = record { tick = 0; server_time_ms = 0; time_of_day = 0; entities = [] }

-- The loop over the entities.
unfoldable pub replicate : ℕ → List EntityState → Map Replicated → Map Replicated
replicate now [] d = d
replicate now (e ∷ es) d =
    replicate now es (insert e.id (record { state = e; received_at = now }) d)

unfoldable pub apply_snapshot : List ℕ → ℕ → ℕ → NetClient → NetClient
unfolding replicate
apply_snapshot bytes sequence now c =
    let (ok, s) = decode_snapshot bytes new_snapshot in
    if not ok then c else record c {
      time_of_day = s.time_of_day;
      entities = replicate now s.entities c.entities;
      last_snapshot_sequence = sequence;
      last_snapshot_at = now;
      snapshots_received = (c.snapshots_received + 1) % 2 ^ 32;
    }

module _ (fpu : Fpu) (now : ℕ) where
  -- A datagram with a header of ours.
  unfoldable pub receive_snapshot : UdpHeader → List ℕ → NetClient → NetClient
  unfolding apply_snapshot
  receive_snapshot h body c =
      if not (h.type == world_code WorldMessage.snapshot)
      then c
      else (if ltb 0 c.snapshots_received && leb h.sequence c.last_snapshot_sequence
          then c
          else (if d_lt 0 c.fake_latency
              then record c {
                delayed_incoming =
                    c.delayed_incoming
                    ++ (record { due_at = fpu.d_add now c.fake_latency; packet = body } ∷ []);
                last_snapshot_sequence = h.sequence;
              }
              else apply_snapshot body h.sequence now c))

  unfoldable pub receive_on : Option (UdpHeader × ℕ) → List ℕ → NetClient → NetClient
  unfolding receive_snapshot
  receive_on none bytes c = c
  receive_on (some (h, offset)) bytes c = receive_snapshot h (drop offset bytes) c

  -- The loop over what `receiveFrom` yields; an empty datagram ends it.
  unfoldable pub receive_all : List (List ℕ) → NetClient → NetClient
  unfolding receive_on
  receive_all [] c = c
  receive_all (bytes ∷ more) c =
      let rest = receive_all more (receive_on (read_udp_header bytes) bytes c) in
      if length bytes == 0 then c else rest

-- The two loops of `flushDelayed`.
unfoldable pub flush_outgoing : ℕ → List DelayedPacket → List (List ℕ) × List DelayedPacket
flush_outgoing now [] = ([], [])
flush_outgoing now (d ∷ more) =
    let (sent, left) = flush_outgoing now more in
    if d_le d.due_at now then (d.packet ∷ sent, left) else ([], d ∷ more)

unfoldable pub flush_incoming : ℕ → List DelayedPacket → NetClient → NetClient
unfolding apply_snapshot
flush_incoming now [] c = record c { delayed_incoming = [] }
flush_incoming now (d ∷ more) c =
    let rest = flush_incoming now more (apply_snapshot d.packet c.last_snapshot_sequence now c) in
    if d_le d.due_at now then rest else record c { delayed_incoming = d ∷ more }

unfoldable pub flush_delayed : ℕ → NetClient → Outcome
unfolding flush_outgoing flush_incoming
flush_delayed now c =
    let (sent, left) = flush_outgoing now c.delayed_outgoing in
    (flush_incoming now c.delayed_incoming (record c { delayed_outgoing = left }), sent)
