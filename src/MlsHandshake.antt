-- ===== src/MlsHandshake.antt =====
-- src/mls_handshake: the MLS handshake between a client and a server, and its updates.
pub mod OpenMls
pub mod Messages
pub mod Session
pub mod Method
pub mod Group
pub mod Pair
pub mod Resumption
pub mod Server
pub mod Client
pub mod Persistence
pub mod Driver
