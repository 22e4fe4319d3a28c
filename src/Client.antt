-- ===== src/Client.antt =====
-- client/src: the local character and the connection to the servers.
pub mod Prediction
pub mod NetClient
pub mod Ui
pub mod Screens
pub mod Application
mod Tests
