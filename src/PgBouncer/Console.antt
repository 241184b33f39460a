-- ===== src/PgBouncer/Console.antt =====
-- pgbouncer/src/main.rs: the admin console.
pub mod Tables
use rama_pg.Bytes.{Bytes, codes, eqb}
use rama_pg.Bytes.Search.{starts_with}
use rama_pg.Decimal.{to_string}
use rama_pg.PgBouncer.Stats.{ClientEntry, Stats, active}
use rama_pg.Pool.{PoolMode, session, transaction, statement}
use rama_pg.Query.{QueryResponse, error, QueryHandler, trim_query, upper}
use rama_pg.Prelude.{List, [], ◌∷◌, ◌++◌, map, length, Option, some, if◌then◌else◌}

-- `rows`
unfoldable pub rows : List Bytes → List (List Bytes) → QueryResponse
rows columns cells =
    QueryResponse.rows columns (map (λ row. map some row) cells)
      (codes "SELECT " ++ to_string (length cells))

-- `format!("{:?}", mode).to_lowercase()`
abbrev pub mode_name : PoolMode → Bytes
mode_name session = codes "session"
mode_name transaction = codes "transaction"
mode_name statement = codes "statement"

abbrev pub client_row : ClientEntry → List Bytes
client_row c = to_string c.id ∷ c.user_name ∷ c.database_name ∷ codes "active" ∷ []

abbrev show_pools : Stats → QueryResponse
show_pools s =
    rows (codes "database" ∷ codes "mode" ∷ codes "max_conn" ∷ codes "cl_active" ∷ [])
      ((codes "*" ∷ mode_name s.mode ∷ to_string s.max_size ∷ to_string (active s) ∷ []) ∷ [])

abbrev show_clients : Stats → QueryResponse
show_clients s =
    rows (codes "client_id" ∷ codes "user" ∷ codes "database" ∷ codes "state" ∷ [])
      (map client_row s.clients)

abbrev show_stats : Stats → QueryResponse
show_stats s =
    rows (codes "total_connections" ∷ codes "active_clients" ∷ [])
      ((to_string s.total_connections ∷ to_string (active s) ∷ []) ∷ [])

abbrev show_lists : Stats → QueryResponse
show_lists s = rows (codes "list" ∷ codes "items" ∷ []) (
    (codes "replicas" ∷ to_string (length s.replicas) ∷ [])
    ∷ (codes "clients" ∷ to_string (active s) ∷ [])
    ∷ [])

abbrev show_version : QueryResponse
show_version = rows (codes "version" ∷ []) ((codes "rama-pg pgbouncer-like 0.1" ∷ []) ∷ [])

abbrev unsupported : Bytes → QueryResponse
unsupported command = error (codes "0A000") (codes "unsupported console command: " ++ command)

abbrev not_show : QueryResponse
not_show =
    error (codes "0A000")
      (codes "rama-pg console: only SHOW POOLS/CLIENTS/STATS/LISTS/VERSION are supported")

-- `AdminConsole::handle` of the trimmed command in upper case
unfoldable pub answer : Stats → Bytes → QueryResponse
answer s command =
    if eqb command (codes "SHOW POOLS")
    then show_pools s
    else if eqb command (codes "SHOW CLIENTS")
    then show_clients s
    else if eqb command (codes "SHOW STATS")
    then show_stats s
    else if eqb command (codes "SHOW LISTS")
    then show_lists s
    else if eqb command (codes "SHOW VERSION")
    then show_version
    else if starts_with (codes "SHOW") command
    then unsupported command
    else not_show

-- `AdminConsole::handle`
unfoldable pub console : Stats → QueryHandler
console s user database txn sql = (answer s (map upper (trim_query sql)), txn)
