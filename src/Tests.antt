-- ===== src/Tests.antt =====
-- Runs of the theorems at concrete inputs.
mod Toy
mod Protocol
mod Handshake
mod Relays
mod Leases
mod Admin
mod Settings
