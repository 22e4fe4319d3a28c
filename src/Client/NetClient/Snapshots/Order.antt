-- ===== src/Client/NetClient/Snapshots/Order.antt =====
-- In which order client/src/net_client.cpp takes snapshots.
use untitled.Base.{ℕ, suc, ◌+◌, ◌^◌, ◌≤◌, ◌<◌, ◌≡◌, arith, List, [], ◌∷◌, length}
use untitled.Base.{Option, none, some, Bool, true, false, not, ◌&&◌, if◌then◌else◌, ltb, leb, ◌==◌}
use untitled.Base.{Bool-cases, inl, inr, drop}
use untitled.Net.Protocol.World.{WorldMessage, world_code}
use untitled.Net.Snapshot.{UdpHeader, read_udp_header, decode_snapshot}
use untitled.Sim.Float.{Fpu, d_lt}
use untitled.Client.NetClient.{NetClient}
use untitled.Client.NetClient.Snapshots.{
  apply_snapshot, new_snapshot, receive_snapshot, receive_on, receive_all,
}

-- The sequence number has not gone back, and the count of snapshots has grown by no more than `n`.
pub record Later (n : ℕ) (c c' : NetClient) : Type 0 where
  pub sequence : c.last_snapshot_sequence ≤ c'.last_snapshot_sequence
  pub more : c.snapshots_received ≤ c'.snapshots_received
  pub few : c'.snapshots_received ≤ c.snapshots_received + n

Later-if :
    (n : ℕ) (b : Bool) (c x y : NetClient)
    → Later n c x
    → Later n c y
    → Later n c (if b then x else y)
Later-if n true c x y p q = p
Later-if n false c x y p q = q

Later-refl : (n : ℕ) (c : NetClient) → Later n c c
Later-refl n c = record { sequence = omega arith; more = omega arith; few = omega arith }

apply_snapshot-Later :
    (bytes : List ℕ) (sequence now : ℕ) (c : NetClient)
    → c.last_snapshot_sequence ≤ sequence
    → c.snapshots_received + 1 < 2 ^ 32
    → Later 1 c (apply_snapshot bytes sequence now c)
unfolding apply_snapshot
apply_snapshot-Later bytes sequence now c h fits =
    Later-if 1 (not (decode_snapshot bytes new_snapshot).0) c c _ (Later-refl 1 c)
      (record { sequence = h; more = omega arith; few = omega arith })

module _ (fpu : Fpu) (now : ℕ) where
  receive_snapshot-Later :
      (h : UdpHeader) (body : List ℕ) (c : NetClient)
      → 0 < c.snapshots_received
      → c.snapshots_received + 1 < 2 ^ 32
      → Later 1 c (receive_snapshot fpu now h body c)
  unfolding receive_snapshot
  receive_snapshot-Later h body c started fits =
      elim (Bool-cases (leb h.sequence c.last_snapshot_sequence)) [
        | inl old ↦
            let skips : (ltb 0 c.snapshots_received && leb h.sequence c.last_snapshot_sequence)
                ≡ true =
              ground (arith, old, started) in
            rw skips (
              Later-if 1 (not (h.type == world_code WorldMessage.snapshot)) c c c (Later-refl 1 c)
                (Later-refl 1 c))
        | inr new ↦
            let newer : c.last_snapshot_sequence ≤ h.sequence = ground (arith, new) in
            Later-if 1 (not (h.type == world_code WorldMessage.snapshot)) c c _ (Later-refl 1 c) (
              Later-if 1 _ c c _ (Later-refl 1 c) (
                Later-if 1 (d_lt 0 c.fake_latency) c _ (apply_snapshot body h.sequence now c)
                  (record { sequence = newer; more = omega arith; few = omega arith })
                  (apply_snapshot-Later body h.sequence now c newer fits)))
      ]

  receive_on-Later :
      (header : Option (UdpHeader × ℕ)) (bytes : List ℕ) (c : NetClient)
      → 0 < c.snapshots_received
      → c.snapshots_received + 1 < 2 ^ 32
      → Later 1 c (receive_on fpu now header bytes c)
  unfolding receive_on
  receive_on-Later none bytes c started fits = Later-refl 1 c
  receive_on-Later (some (h, offset)) bytes c started fits =
      receive_snapshot-Later h (drop offset bytes) c started fits

  Later-then : (n : ℕ) (a b c : NetClient) → Later 1 a b → Later n b c → Later (suc n) a c
  Later-then n a b c p q = record { sequence = omega arith; more = omega arith; few = omega arith }

  -- Once a snapshot has been received, and as long as their count does not wrap, the datagrams
  -- that arrive never set back the sequence number of the newest snapshot, and no more snapshots
  -- are counted than datagrams came.
  pub receive_all-Later :
      (packets : List (List ℕ)) (c : NetClient)
      → 0 < c.snapshots_received
      → c.snapshots_received + length packets < 2 ^ 32
      → Later (length packets) c (receive_all fpu now packets c)
  unfolding receive_all
  receive_all-Later [] c started fits = Later-refl 0 c
  receive_all-Later (bytes ∷ more) c started fits =
      let c' = receive_on fpu now (read_udp_header bytes) bytes c in
      let first = receive_on-Later (read_udp_header bytes) bytes c started (omega arith) in
      Later-if (suc (length more)) (length bytes == 0) c c (receive_all fpu now more c')
        (Later-refl (suc (length more)) c)
        (Later-then (length more) c c' (receive_all fpu now more c') first
          (receive_all-Later more c' (omega arith) (omega arith)))
