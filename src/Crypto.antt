-- ===== src/Crypto.antt =====
-- Keys and encryption between a client and the server, in crypto/.
pub mod Layer
pub mod Handshake
pub mod Keyfile
