-- ===== src/Net/Snapshot/Packet.antt =====
-- Whole snapshots and datagram headers (common/net/src/snapshot.cpp), written and read.
use native.Mathlib.Nat.{mod-eq_of_lt}
use untitled.Base.{ℕ, ◌%◌, ◌^◌, ◌≤◌, ◌<◌, ◌≡◌, sym, ap, ◌∙◌, arith, All, subst}
use untitled.Base.{
  List, [], ◌∷◌, ◌++◌, length, Bool, true, false, append_assoc, inl, inr, drop, drop-append,
}
use untitled.Base.{append-eq-append_cases, none, some}
use untitled.Net.Bytes.Writer
use untitled.Net.Bytes.Writer.{Writer, ◌>>◌}
use untitled.Net.Bytes.Reader
use untitled.Net.Bytes.Reader.{Reader, reader}
use untitled.Net.Bytes.Agree.{Agrees, At, At-reader}
use untitled.Net.Bytes.Bounds.{
  Takes, >>=-Takes, pure-Takes, u16-Takes, Takes-Advances, Advances-IsValid, u32-Takes,
}
use untitled.Net.Bytes.Fields.{agree_rules, u32-Agrees}
use untitled.Net.Snapshot.{
  EntityState, Snapshot, Head, read_entities, udp_magic, write_head, read_head, encode_snapshot,
  decode_snapshot, write_udp_header, read_udp_header, read_udp_fields, max_entities_per_snapshot,
}
use untitled.Net.Snapshot.Size.{length-write_udp_header}
use untitled.Net.Snapshot.Entity.{
  IsEntity, IsFloat, body, write_entities-body, read_entities-body, read_entities_cut,
}

pub record IsSnapshot (s : Snapshot) : Type 0 where
  pub tick : s.tick < 2 ^ 32
  pub time : s.server_time_ms < 2 ^ 64
  pub day : IsFloat s.time_of_day
  pub entities : All IsEntity s.entities

abbrev head_of : Snapshot → Head
head_of s = record {
  tick = s.tick;
  server_time_ms = s.server_time_ms;
  time_of_day = s.time_of_day;
  count = length s.entities % 2 ^ 16;
}

head-Agrees : (s : Snapshot) → IsSnapshot s → Agrees (write_head s) read_head (head_of s)
unfolding write_head read_head
head-Agrees s v = search (agree_rules, v, wraps) depth 12
  where
    wraps : length s.entities % 2 ^ 16 < 2 ^ 16
    wraps = omega arith

module _ (s : Snapshot) (v : IsSnapshot s) where
  encode_snapshot-eq : encode_snapshot s [] ≡ (head-Agrees s v).image ++ body s.entities
  unfolding encode_snapshot
  encode_snapshot-eq =
      write_entities-body s.entities (write_head s []) v.entities
      ∙ ap (λ (t : List ℕ). t ++ body s.entities) ((head-Agrees s v).writes [])

  encoded-At :
      (rest : List ℕ)
      → At
          (reader (encode_snapshot s [] ++ rest))
          ((head-Agrees s v).image ++ (body s.entities ++ rest))
  encoded-At rest =
      rw (← append_assoc (head-Agrees s v).image (body s.entities) rest, ← encode_snapshot-eq)
        (At-reader (encode_snapshot s [] ++ rest))

  -- Behind a head that was read, the loop decides.
  decode_body :
      (bytes : List ℕ) (out : Snapshot)
      → length s.entities ≤ max_entities_per_snapshot
      → (read_head (reader bytes)).0 ≡ head_of s
      → (read_head (reader bytes)).1.failed ≡ false
      → let (ok, es) = read_entities (length s.entities) [] (read_head (reader bytes)).1 in
        decode_snapshot bytes out ≡ (ok, record s { entities = es })
  unfolding decode_snapshot
  decode_body bytes out few same fine = ground (
    arith,
    ap (λ (h : Head). h.tick) same,
    ap (λ (h : Head). h.server_time_ms) same,
    ap (λ (h : Head). h.time_of_day) same,
    ap (λ (h : Head). h.count) same,
    mod-eq_of_lt {n = length s.entities} {m = 2 ^ 16} (omega arith),
  )

  -- A snapshot whose fields are in range, of at most 512 entities, is decoded to itself, whatever
  -- bytes follow it and whatever the receiving structure held.
  pub decode-encode :
      (rest : List ℕ) (out : Snapshot)
      → length s.entities ≤ max_entities_per_snapshot
      → decode_snapshot (encode_snapshot s [] ++ rest) out ≡ (true, s)
  decode-encode rest out few =
      let (same, at) = (head-Agrees s v).reads _ (body s.entities ++ rest) (encoded-At rest) in
      decode_body _ out few same at.fine
      ∙ ap (λ (p : Bool × List EntityState). (p.0, record s { entities = p.1 }))
          (read_entities-body s.entities [] _ rest v.entities at)

  -- A snapshot whose fields are in range, of at most 512 entities, is refused when it is cut
  -- anywhere.
  pub decode_cut :
      (front : List ℕ) (x : ℕ) (back : List ℕ) (out : Snapshot)
      → length s.entities ≤ max_entities_per_snapshot
      → encode_snapshot s [] ≡ front ++ (x ∷ back)
      → (decode_snapshot front out).0 ≡ false
  unfolding decode_snapshot
  decode_cut front x back out few e =
      elim (append-eq-append_cases (head-Agrees s v).image (body s.entities) front x back
        (sym encode_snapshot-eq ∙ e)) [
          | inl (mid, here) ↦ rw (
            (head-Agrees s v).cut (reader front) front x mid here (At-reader front),
            decode_snapshot,
          )
          | inr (mid, here, later) ↦
              let (same, at) =
                (head-Agrees s v).reads (reader front) mid
                  (subst (At (reader front)) here (At-reader front)) in
              ap (λ (p : Bool × Snapshot). p.0) (decode_body front out few same at.fine)
              ∙ read_entities_cut s.entities [] _ mid x back v.entities later at
        ]

  -- A snapshot of more than 512 entities, up to the range of the count, is written and never read.
  pub decode-encode_too_many :
      (rest : List ℕ) (out : Snapshot)
      → max_entities_per_snapshot < length s.entities
      → length s.entities < 2 ^ 16
      → (decode_snapshot (encode_snapshot s [] ++ rest) out).0 ≡ false
  unfolding decode_snapshot
  decode-encode_too_many rest out many fits =
      let (same, at) = (head-Agrees s v).reads _ (body s.entities ++ rest) (encoded-At rest) in
      ground (
        arith,
        at.fine,
        ap (λ (h : Head). h.count) same,
        mod-eq_of_lt {n = length s.entities} {m = 2 ^ 16} fits,
      )

-- Datagram headers.
magic-Agrees : Agrees (Writer.u32 udp_magic) Reader.u32 udp_magic
magic-Agrees = u32-Agrees udp_magic (omega arith)

fields-Agrees :
    (type sequence : ℕ)
    → type < 2 ^ 16
    → sequence < 2 ^ 32
    → Agrees
        (Writer.u16 type >> Writer.u32 sequence)
        read_udp_fields
        (record { type = type; sequence = sequence })
unfolding read_udp_fields
fields-Agrees type sequence ht hs = search agree_rules

module _ (type sequence : ℕ) (ht : type < 2 ^ 16) (hs : sequence < 2 ^ 32) where
  tail :
      Agrees
        (Writer.u16 type >> Writer.u32 sequence)
        read_udp_fields
        (record { type = type; sequence = sequence })
  tail = fields-Agrees type sequence ht hs

  header-eq :
      (rest : List ℕ)
      → write_udp_header type sequence [] ++ rest ≡ magic-Agrees.image ++ (tail.image ++ rest)
  unfolding write_udp_header ◌>>◌
  header-eq rest =
      ap (λ (t : List ℕ). t ++ rest)
        (tail.writes (Writer.u32 udp_magic [])
          ∙ ap (λ (t : List ℕ). t ++ tail.image) (magic-Agrees.writes []))
      ∙ append_assoc magic-Agrees.image tail.image rest

  -- A header in range is read back with the offset of the body, and the body lies there.
  pub read-write_udp_header :
      (rest : List ℕ)
      → let packet = write_udp_header type sequence [] ++ rest in
        (read_udp_header packet ≡ some (record { type = type; sequence = sequence }, 10))
        × (drop 10 packet ≡ rest)
  unfolding read_udp_header
  read-write_udp_header rest =
      let packet = write_udp_header type sequence [] ++ rest in
      let (magic, at) =
        magic-Agrees.reads (reader packet) (tail.image ++ rest)
          (subst (At (reader packet)) (header-eq rest) (At-reader packet)) in
      let (header, at') = tail.reads _ rest at in
      (
        ground (arith, magic, header, at'.fine),
        ap (λ (n : ℕ). drop n packet) (sym (length-write_udp_header type sequence))
            ∙ drop-append (write_udp_header type sequence []) rest,
      )

read_udp_fields-Takes : Takes 6 read_udp_fields
unfolding read_udp_fields
read_udp_fields-Takes =
    >>=-Takes 2 4 Reader.u16 _ u16-Takes λ _. >>=-Takes 4 0 Reader.u32 _ u32-Takes λ _. pure-Takes _

-- A datagram with less than a header is refused.
pub read_udp_header_short : (bytes : List ℕ) → length bytes < 10 → read_udp_header bytes ≡ none
unfolding read_udp_header
read_udp_header_short bytes h =
    let first =
      Takes-Advances Reader.u32 (reader bytes) u32-Takes (record { within = omega arith }) in
    let second = Takes-Advances read_udp_fields _ read_udp_fields-Takes (Advances-IsValid first) in
    ground (arith, first, second, ap length first.same)
