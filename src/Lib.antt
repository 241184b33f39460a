-- ===== src/Lib.antt =====
-- rama-pg: a PostgreSQL proxy that terminates TLS and authentication, routes clients, pools
-- backends and mediates query cancellation.
--
-- How the parts interact. A connection enters at src/proxy/mod.rs: the plaintext loop reads
-- startup packets and hands over to TLS; the session behind TLS reads the StartupMessage,
-- negotiates the protocol version, authenticates the client (src/auth.rs, src/scram) and gives it
-- to a forwarder. The direct forwarder (src/proxy/direct.rs) relays one backend's startup; the
-- pooled one (src/proxy/pooled.rs) leases a backend of the pool (src/pool.rs) per transaction or
-- statement; the custom one (src/proxy/custom.rs) answers queries itself through a handler
-- (src/query.rs). The program under pgbouncer puts a console (custom) and a pool behind one
-- forwarder, and looks its SCRAM verifiers up in a Postgres. All of them read and write the
-- messages of src/protocol, and keep the key that a cancel request will carry up to date in
-- src/cancel.rs.
--
-- Which file models which part:
-- - Prelude: Boolean tests, lists, results, and 32-bit integers, over the native numbers.
-- - Bytes: byte strings, big-endian fields, UTF-8, and the searches of str; Bytes.Map is a
--   HashMap as a list of entries. Decimal prints and parses unsigned numbers.
-- - Stream: a transport as the chunks that its reads return, and a writer that may close.
-- - Codec: src/protocol/codec.rs. Startup: src/protocol/startup.rs. Message:
--   src/protocol/message.rs.
-- - Exec: code that awaits a peer, as state passing with errors that keep the state; Exec.Loop is
--   a loop that reads a message in every turn. A connection holds the bytes that the peer will
--   send before it closes, those sent to it, and how many more writes succeed.
-- - Auth: src/auth.rs. Scram: src/scram; the crates base64 and sha2 are the parameter Primitives,
--   with their alphabet, round trip and lengths as laws, and random bytes are arguments.
--   Scram.Agreement puts its server and its client together.
-- - Route: src/route.rs. Query: src/query.rs. Cancel: src/cancel.rs, with shared slots as indices
--   into a store.
-- - Pool: the reset and the round robin of src/pool.rs; Pool.Connector is its PgConnector with
--   the credentials, Pool.Leases its BackendPool with the cache of startup parameters. Pooled:
--   the relay of one lease in src/proxy/pooled.rs, and Pooled.Serve the sessions around it, from
--   PooledForwarder::serve on.
-- - Direct: the startup relay of src/proxy/direct.rs, and Direct.Serve the forwarder around it.
--   Custom: the queries of src/proxy/custom.rs, and Custom.Serve its forwarder and session loop.
--   Proxy: src/proxy/mod.rs.
-- - PgBouncer: the program under pgbouncer/src. Config is config.rs, the INI parser and the
--   settings; Authid is pg_authid.rs, the lookup of verifiers; Stats and Console are the
--   statistics, the forwarder and the admin console of main.rs.
-- - Tests: the theorems at concrete inputs.
--
-- Functions keep their names: Pooled.run_lease is run_lease, Pooled.Serve.serve_pooled is
-- serve_pooled, Pool.Connector.establish is PgConnector::serve on a connection that was dialled,
-- Proxy.front is PgSession::serve up to the forwarder, Proxy.serve is PgProxy::serve,
-- Custom.run_query is run_query with the status and verb dispatch in answer. What the source does
-- in one long async function is cut into helpers at its awaits and branches.
--
-- Concurrency. Where the source selects between the backend and the client, the model takes the
-- frames in the order in which the tasks see them, so that a theorem over every list of events is
-- one over every interleaving; each frame there is what the framed reader returns, which Codec
-- treats over every chunking and every dropped call. Bytes that a backend sends unasked behind a
-- ReadyForQuery, which the source drops with its reader, are not modelled.
--
-- Bounds and fuel. Integers of 32 bits wrap as in the source. Loops run on fuel: the reads of a
-- frame or body need one unit per byte and one more, the startup and parameter loops the length
-- of the input and one more, the loop of a custom session the bytes that its client sends and one
-- more, the loops over a backend's or a server's messages the bytes of its input and one more,
-- the lease loop and the loop of a pooled session the number of events and one more. That the
-- fuel is enough is part of the theorems, or a theorem of its own.
--
-- What the repository takes from elsewhere is a parameter: rama's connector and pool (the record
-- Pool.Leases.Connector, on a state of its own), the dialling of an address, the router of the
-- direct forwarder, tokio's bidirectional copy (in Pooled.Serve it waits or returns, in
-- Direct.Serve it is one that returns), and the outcome of a provider's begin.
--
-- Not modelled: sockets, TLS, tracing, the composition in pgbouncer's main, and the services of
-- src/connect.rs. A handler's cancellation token is not modelled: a handler is a function.
pub mod Auth
pub mod Bytes
pub mod Cancel
pub mod Codec
pub mod Custom
pub mod Decimal
pub mod Direct
pub mod Exec
pub mod Message
pub mod PgBouncer
pub mod Pool
pub mod Pooled
pub mod Prelude
pub mod Proxy
pub mod Query
pub mod Route
pub mod Scram
pub mod Startup
pub mod Stream
pub mod Tests
