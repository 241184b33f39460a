-- ===== src/Custom/Serve.antt =====
-- src/proxy/custom.rs: `serve_custom`. A query's token is a number, fresh for each query.
pub mod Ends
use rama_pg.Auth.{ClientAuth, pass_through, terminated, or_empty}
use rama_pg.Bytes.{Bytes, codes}
use rama_pg.Codec.{RawMessage, tag, payload}
use rama_pg.Codec.Tag
use rama_pg.Custom.{Session, on_conn, run_query}
use rama_pg.Exec.{Exec, ◌>>=◌, ◌>>◌, done, Conn, write_all, flush, read_message}
use rama_pg.Message.{error_response, ready_for_query, parameter_status}
use rama_pg.Proxy.{reject, synthesize_startup, PgClient}
use rama_pg.Startup.{CancelKey, user, database}
use rama_pg.Query.{TxnStatus, idle, code, QueryHandler, query_sql}
use rama_pg.Prelude.{
  ℕ, zero, suc, List, [], ◌∷◌, ◌++◌, length, Option, none, some, Bool, true, false, ◌==◌,
  if◌then◌else◌, Result, ok, err,
}

-- The session, the token that the cancel handle points at, and the tokens made so far.
pub record Serving : Type 0 where
  pub session : Session
  pub target : Option ℕ
  pub tokens : ℕ

abbrev pub put_session {ℓ} : {A : Type ℓ} → Serving → Result A × Session → Result A × Serving
put_session s (x, session) = (x, record s { session = session })

abbrev pub on_session {ℓ} : {A : Type ℓ} → Exec Session A → Exec Serving A
on_session m s = put_session s (m s.session)

abbrev pub set_target : Serving → Serving
set_target s = record s { target = some s.tokens; tokens = suc s.tokens }

abbrev pub clear_target {ℓ} : {A : Type ℓ} → Result A × Serving → Result A × Serving
clear_target (x, s) = (x, record s { target = none })

-- A `Query` message: the handle is cleared whether or not the query was answered.
abbrev pub query_message : QueryHandler → Bytes → Bytes → RawMessage → Exec Serving (Unit {0})
query_message handler user database m s =
    clear_target
      (on_session (run_query handler user database (query_sql (payload m))) (set_target s))

abbrev pub refusal : Bytes
refusal =
    error_response (codes "ERROR") (codes "0A000")
      (codes "rama-pg virtual server supports only the simple query protocol")

abbrev pub unsupported : Exec Session (Unit {0})
unsupported s =
    (on_conn (write_all refusal)
        >> (on_conn (write_all (ready_for_query (code s.txn))) >> on_conn flush))
      s

-- One message of the client: whether it was the last.
abbrev pub serve_message : QueryHandler → Bytes → Bytes → RawMessage → Exec Serving Bool
serve_message handler user database m =
    if tag m == Tag.query
    then query_message handler user database m >> done false
    else if tag m == Tag.terminate
    then done true
    else on_session unsupported >> done false

abbrev pub next_message :
    (Serving → Option (Result (Unit {0}) × Serving))
    → Result Bool × Serving
    → Option (Result (Unit {0}) × Serving)
next_message next (err e, s) = some (err e, s)
next_message next (ok true, s) = some (ok tt, s)
next_message next (ok false, s) = next s

-- After a read: where it failed, the client is gone.
abbrev pub after_read :
    (Serving → Option (Result (Unit {0}) × Serving))
    → (RawMessage → Exec Serving Bool)
    → Result RawMessage × Serving
    → Option (Result (Unit {0}) × Serving)
after_read next serve (err e, s) = some (ok tt, s)
after_read next serve (ok m, s) = next_message next (serve m s)

-- The loop of `serve_custom`, on fuel.
unfoldable pub serve_loop :
    ℕ → QueryHandler → Bytes → Bytes → Serving → Option (Result (Unit {0}) × Serving)
serve_loop zero handler user database s = none
serve_loop (suc n) handler user database s =
    after_read (serve_loop n handler user database) (serve_message handler user database)
      (on_session (on_conn read_message) s)

-- `VIRTUAL_PARAMETERS`
abbrev pub virtual_parameters : List Bytes
virtual_parameters =
    parameter_status (codes "server_version") (codes "16.0 (rama-pg virtual)")
    ∷ parameter_status (codes "server_encoding") (codes "UTF8")
    ∷ parameter_status (codes "client_encoding") (codes "UTF8")
    ∷ parameter_status (codes "DateStyle") (codes "ISO, MDY")
    ∷ parameter_status (codes "TimeZone") (codes "UTC")
    ∷ parameter_status (codes "standard_conforming_strings") (codes "on")
    ∷ parameter_status (codes "integer_datetimes") (codes "on")
    ∷ []

abbrev pub fresh : Conn → Serving
fresh c = record { session = record { conn = c; txn = idle }; target = none; tokens = 0 }

abbrev pub after_startup :
    QueryHandler → Bytes → Bytes → Result (Unit {0}) × Conn → Option (Result (Unit {0}) × Serving)
after_startup handler user database (err e, c) = some (err e, fresh c)
after_startup handler user database (ok u, c) =
    serve_loop (suc (length c.input)) handler user database (fresh c)

abbrev key_or : Option Bytes → Bytes → Bytes
key_or none throwaway = throwaway
key_or (some key) throwaway = key

abbrev pub key_bytes : Option CancelKey → Option Bytes
key_bytes none = none
key_bytes (some key) = some key.bytes

abbrev reject_pass_through : Result (Unit {0}) × Conn → Option (Result (Unit {0}) × Serving)
reject_pass_through (x, c) = some (x, fresh c)

-- `serve_custom`; `throwaway` is the key drawn where the provider issued none.
unfoldable pub serve_custom :
    QueryHandler
    → Bytes
    → Bytes
    → ClientAuth
    → Option Bytes
    → Bytes
    → Conn
    → Option (Result (Unit {0}) × Serving)
serve_custom handler user database pass_through key throwaway c =
    reject_pass_through (
      reject (codes "0A000") (codes "rama-pg: custom-query mode requires a terminating auth mode")
        c)
serve_custom handler user database (terminated auth) key throwaway c =
    after_startup handler user database
      (synthesize_startup virtual_parameters (key_or key throwaway) c)

abbrev pub begun_with :
    QueryHandler
    → PgClient
    → Bytes
    → Conn
    → Result (Option CancelKey)
    → Option (Result (Unit {0}) × Serving)
begun_with handler client throwaway c (err e) = some (err e, fresh c)
begun_with handler client throwaway c (ok key) =
    serve_custom handler (or_empty (user client.startup_message))
      (or_empty (database client.startup_message)) client.auth (key_bytes key) throwaway c

-- `CustomForwarder::serve`, with the outcome of the provider's `begin`.
unfoldable pub serve :
    QueryHandler
    → Result (Option CancelKey)
    → Bytes
    → PgClient
    → Conn
    → Option (Result (Unit {0}) × Serving)
serve handler begun throwaway client c = begun_with handler client throwaway c begun
