-- ===== src/Net/Snapshot/Size.antt =====
-- The sizes of the datagrams of common/net/src/snapshot.cpp.
use untitled.Base.{ℕ, ◌+◌, ◌*◌, ◌≡◌, arith, List, [], ◌∷◌, length}
use untitled.Net.Bytes.Writer.{◌>>◌}
use untitled.Net.Bytes.Sizes.{size_rules}
use untitled.Net.Snapshot.{
  Snapshot, EntityState, write_entity, write_entities, write_head, encode_snapshot,
  write_udp_header,
}

pub length-write_udp_header : (type sequence : ℕ) → length (write_udp_header type sequence []) ≡ 10
unfolding write_udp_header ◌>>◌
length-write_udp_header type sequence = simp size_rules (omega arith)

length-write_entity :
    (e : EntityState) (out : List ℕ) → length (write_entity e out) ≡ length out + 61
unfolding write_entity ◌>>◌
length-write_entity e out = simp size_rules (omega arith)

length-write_entities :
    (es : List EntityState) (out : List ℕ)
    → length (write_entities es out) ≡ length out + 61 * length es
unfolding write_entities
length-write_entities [] out = omega arith
length-write_entities (e ∷ es) out =
    omega (arith, length-write_entities es (write_entity e out), length-write_entity e out)

-- A snapshot takes 18 bytes and 61 more for each entity.
pub length-encode_snapshot :
    (s : Snapshot) → length (encode_snapshot s []) ≡ 18 + 61 * length s.entities
unfolding encode_snapshot write_head ◌>>◌
length-encode_snapshot s = simp (length-write_entities, size_rules) (omega arith)
