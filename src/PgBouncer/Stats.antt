-- ===== src/PgBouncer/Stats.antt =====
-- pgbouncer/src/main.rs: the statistics that the sessions write, and the forwarder that keeps them.
-- The lists behind the locks and the atomic counters are the fields of one state.
pub mod Sessions
pub mod Forward
use rama_pg.Auth.{or_empty}
use rama_pg.Bytes.{Bytes, codes, eqb}
use rama_pg.Pool.{PoolMode}
use rama_pg.Proxy.{PgClient}
use rama_pg.Startup.{user, database}
use rama_pg.Prelude.{
  ℕ, suc, ◌+◌, ◌%◌, ◌^◌, List, [], ◌∷◌, ◌++◌, length, Option, none, some, Bool, true, false, ◌==◌,
  if◌then◌else◌, Result,
}

pub record ClientEntry : Type 0 where
  pub id : ℕ
  pub user_name : Bytes
  pub database_name : Bytes

pub record Stats : Type 0 where
  pub mode : PoolMode
  pub max_size : ℕ
  pub replicas : List Bytes
  pub total_connections : ℕ
  pub next_id : ℕ
  pub clients : List ClientEntry

abbrev pub new : PoolMode → ℕ → List Bytes → Stats
new mode max_size replicas = record {
  mode = mode;
  max_size = max_size;
  replicas = replicas;
  total_connections = 0;
  next_id = 1;
  clients = [];
}

-- The three steps of `register`, between which other sessions may write: an id is drawn, the
-- connection is counted, and the entry is pushed. The counters are `u64`s that wrap.
unfoldable pub draw_id : Stats → ℕ × Stats
draw_id s = (s.next_id, record s { next_id = (s.next_id + 1) % 2 ^ 64 })

unfoldable pub count_connection : Stats → Stats
count_connection s = record s { total_connections = (s.total_connections + 1) % 2 ^ 64 }

unfoldable pub push_client : ℕ → Bytes → Bytes → Stats → Stats
push_client id user database s = record s {
  clients = s.clients ++ record { id = id; user_name = user; database_name = database } ∷ [];
}

abbrev registered : Bytes → Bytes → ℕ × Stats → ℕ × Stats
registered user database (id, s) = (id, push_client id user database (count_connection s))

-- `register`, where no other session writes in between.
unfoldable pub register : Bytes → Bytes → Stats → ℕ × Stats
unfolding draw_id count_connection push_client
register user database s = registered user database (draw_id s)

-- `retain(|client| client.id != id)`
unfoldable pub retain : ℕ → List ClientEntry → List ClientEntry
retain id [] = []
retain id (c ∷ cs) = let rest = retain id cs in if c.id == id then rest else c ∷ rest

-- `deregister`
unfoldable pub deregister : ℕ → Stats → Stats
unfolding retain
deregister id s = record s { clients = retain id s.clients }

-- `active`
unfoldable pub active : Stats → ℕ
active s = length s.clients

abbrev pub admin_db : Bytes
admin_db = codes "pgbouncer"

-- `database() == Some(ADMIN_DB)`
abbrev pub is_admin : Option Bytes → Bool
is_admin none = false
is_admin (some name) = eqb name admin_db

abbrev pub unregister : ℕ → Result (Unit {0}) × Stats → Result (Unit {0}) × Stats
unregister id (x, s) = (x, deregister id s)

abbrev pub tracked :
    (PgClient → Stats → Result (Unit {0}) × Stats)
    → PgClient
    → ℕ × Stats
    → Result (Unit {0}) × Stats
tracked pool client (id, s) = unregister id (pool client s)

-- `PgBouncerForwarder::serve`: a forwarder is what it returns and what has become of the statistics
-- in the meantime, to which other sessions write too.
unfoldable pub forward :
    (PgClient → Stats → Result (Unit {0}) × Stats)
    → (PgClient → Stats → Result (Unit {0}) × Stats)
    → PgClient
    → Stats
    → Result (Unit {0}) × Stats
forward admin pool client s =
    if is_admin (database client.startup_message)
    then admin client s
    else tracked pool client (
        register (or_empty (user client.startup_message))
          (or_empty (database client.startup_message)) s)
