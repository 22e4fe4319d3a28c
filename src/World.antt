-- ===== src/World.antt =====
-- server/worldserver: the simulation of the world, and the server around it.
pub mod Simulation
pub mod Server
mod Tests
