-- ===== src/Server.antt =====
-- The servers: their settings, the database RPC with its client and its server, the TCP server, the auth
-- server.
pub mod Config
pub mod DbClient
pub mod DbServer
pub mod AuthServer
pub mod TcpServer
pub mod Text
pub mod Database
mod Tests
mod AuthTests
mod LinkTests
