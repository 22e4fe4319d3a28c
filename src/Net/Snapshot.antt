-- ===== src/Net/Snapshot.antt =====
-- common/net/include/net/snapshot.h and common/net/src/snapshot.cpp: the UDP tick stream.
-- A float is its 32-bit pattern.
pub mod Entity
pub mod Packet
pub mod Size
use untitled.Base.{ℕ, zero, suc, ◌%◌, ◌^◌, Bool, true, false, List, [], ◌∷◌, ◌++◌, length}
use untitled.Base.{◌+◌, ◌==◌, Option, none, some, ltb, ◌||◌, if◌then◌else◌}
use untitled.Net.Bytes.Writer
use untitled.Net.Bytes.Writer.{Writer, ◌>>◌}
use untitled.Net.Bytes.Reader
use untitled.Net.Bytes.Reader.{Reader, Read, reader, ◌>>=◌, pure}

pub record Vec3 : Type 0 where
  pub x : ℕ
  pub y : ℕ
  pub z : ℕ

pub record Quat : Type 0 where
  pub x : ℕ
  pub y : ℕ
  pub z : ℕ
  pub w : ℕ

pub record EntityState : Type 0 where
  pub id : ℕ
  pub type : ℕ
  pub position : Vec3
  pub rotation : Quat
  pub velocity : Vec3
  pub angular_velocity : Vec3
  pub last_input_sequence : ℕ

pub record Snapshot : Type 0 where
  pub tick : ℕ
  pub server_time_ms : ℕ
  pub time_of_day : ℕ
  pub entities : List EntityState

abbrev pub max_entities_per_snapshot : ℕ
max_entities_per_snapshot = 512

-- The body of the loop of `encodeSnapshot`.
unfoldable pub write_entity : EntityState → Writer
write_entity e = do
  Writer.u32 e.id
  Writer.u8 e.type
  Writer.f32 e.position.x
  Writer.f32 e.position.y
  Writer.f32 e.position.z
  Writer.f32 e.rotation.x
  Writer.f32 e.rotation.y
  Writer.f32 e.rotation.z
  Writer.f32 e.rotation.w
  Writer.f32 e.velocity.x
  Writer.f32 e.velocity.y
  Writer.f32 e.velocity.z
  Writer.f32 e.angular_velocity.x
  Writer.f32 e.angular_velocity.y
  Writer.f32 e.angular_velocity.z
  Writer.u32 e.last_input_sequence

unfoldable pub write_entities : List EntityState → Writer
write_entities [] out = out
write_entities (e ∷ es) out = write_entities es (write_entity e out)

-- The fields in front of the entities.
unfoldable pub write_head : Snapshot → Writer
write_head s = do
  Writer.u32 s.tick
  Writer.u64 s.server_time_ms
  Writer.f32 s.time_of_day
  Writer.u16 (length s.entities % 2 ^ 16)

unfoldable pub encode_snapshot : Snapshot → Writer
unfolding write_head write_entities write_entity
encode_snapshot s out = write_entities s.entities (write_head s out)

-- The body of the loop of `decodeSnapshot`, up to the check.
pub read_entity : Read EntityState
read_entity = do
  id ← Reader.u32
  type ← Reader.u8
  px ← Reader.f32
  py ← Reader.f32
  pz ← Reader.f32
  rx ← Reader.f32
  ry ← Reader.f32
  rz ← Reader.f32
  rw' ← Reader.f32
  vx ← Reader.f32
  vy ← Reader.f32
  vz ← Reader.f32
  ax ← Reader.f32
  ay ← Reader.f32
  az ← Reader.f32
  last ← Reader.u32
  pure (record {
    id = id;
    type = type;
    position = record { x = px; y = py; z = pz };
    rotation = record { x = rx; y = ry; z = rz; w = rw' };
    velocity = record { x = vx; y = vy; z = vz };
    angular_velocity = record { x = ax; y = ay; z = az };
    last_input_sequence = last;
  })

-- The loop: `n` entities to go, `done` what has been pushed to `out->entities`. The flag is what
-- `decodeSnapshot` returns.
pub read_entities : ℕ → List EntityState → Reader → Bool × List EntityState
read_entities zero done r = (true, done)
read_entities (suc n) done r =
    let (e, r') = read_entity r in
    let rest = read_entities n (done ++ (e ∷ [])) r' in if r'.failed then (false, done) else rest

pub record Head : Type 0 where
  pub tick : ℕ
  pub server_time_ms : ℕ
  pub time_of_day : ℕ
  pub count : ℕ

pub read_head : Read Head
read_head = do
  tick ← Reader.u32
  time ← Reader.u64
  day ← Reader.f32
  count ← Reader.u16
  pure (record { tick = tick; server_time_ms = time; time_of_day = day; count = count })

-- `out` is what the caller's snapshot held; on a failure it is left half written.
unfoldable pub decode_snapshot : List ℕ → Snapshot → Bool × Snapshot
decode_snapshot bytes out =
    let (h, r) = read_head (reader bytes) in
    let headed : Snapshot = record out {
      tick = h.tick;
      server_time_ms = h.server_time_ms;
      time_of_day = h.time_of_day;
    } in
    if r.failed || ltb max_entities_per_snapshot h.count
    then (false, headed)
    else (let (ok, es) = read_entities h.count [] r in (ok, record headed { entities = es }))

-- The header of every datagram.
pub record UdpHeader : Type 0 where
  pub type : ℕ
  pub sequence : ℕ

abbrev pub udp_magic : ℕ
udp_magic = 0x554e5431

unfoldable pub write_udp_header : ℕ → ℕ → Writer
write_udp_header type sequence = do Writer.u32 udp_magic; Writer.u16 type; Writer.u32 sequence

-- What `readUdpHeader` reads behind the magic.
pub read_udp_fields : Read UdpHeader
read_udp_fields = do
  type ← Reader.u16
  sequence ← Reader.u32
  pure (record { type = type; sequence = sequence })

-- `none` is the result false; the number is `*bodyOffset`.
unfoldable pub read_udp_header : List ℕ → Option (UdpHeader × ℕ)
read_udp_header bytes =
    let (magic, r) = Reader.u32 (reader bytes) in
    let (h, r') = read_udp_fields r in
    if magic == udp_magic then (if r'.failed then none else some (h, 4 + 2 + 4)) else none
