-- ===== src/Net.antt =====
-- common/net: the wire encoding, the message framing and the snapshot format.
pub mod Bytes
pub mod Snapshot
pub mod Framing
pub mod Protocol
mod Tests
