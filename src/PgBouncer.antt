-- ===== src/PgBouncer.antt =====
-- pgbouncer/src: the proxy that pools by default, with its configuration, its statistics and console,
-- and the lookup of verifiers in a Postgres.
pub mod Authid
pub mod Stats
pub mod Config
pub mod Console
