-- ===== src/Scram.antt =====
-- src/scram: SCRAM-SHA-256, the proxy as the server of its clients and as a client of its backends.
pub mod Primitives
pub mod Crypto
pub mod Secret
pub mod Fields
pub mod Server
pub mod Client
pub mod Agreement
