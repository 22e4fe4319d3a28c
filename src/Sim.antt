-- ===== src/Sim.antt =====
-- common/gamesim and common/terrain: the rules of movement that the world server and the client share.
pub mod Float
pub mod Terrain
pub mod Character
pub mod Tests
