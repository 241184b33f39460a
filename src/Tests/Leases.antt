-- ===== src/Tests/Leases.antt =====
-- The pool and the sessions that use it, at concrete inputs.
use rama_pg.Auth.{terminated, trust}
use rama_pg.Bytes.{Bytes, codes}
use rama_pg.Codec.{frame}
use rama_pg.Codec.Tag
use rama_pg.Exec.{Conn}
use rama_pg.Exec.Loop.{Outcome, Finishes}
use rama_pg.Exec.Reads.{Anything}
use rama_pg.Message.{
  authentication_ok, authentication_cleartext_password, backend_key_data_raw, parameter_status,
  ready_for_query, command_complete,
}
use rama_pg.Pool.{Wait, ended, Event, from_backend, from_client, Relay, transaction, discard_all}
use rama_pg.Pool.Connector.{BackendRequest, StaticBackendCredentials, static_password, establish}
use rama_pg.Pool.Connector.Capture.{Established, establish-Established}
use rama_pg.Pool.Leases.{BackendPool, Lease, Connector, find_params, startup_params}
use rama_pg.Pool.Leases.Params.{IsCache, Unchanged, Answers, startup_params-Answers}
use rama_pg.Pool.Leases.Turns.{picks, picks_cycle}
use rama_pg.Pooled.Idle.{EndsWith}
use rama_pg.Pooled.Serve
use rama_pg.Pooled.Serve.{Serving}
use rama_pg.Proxy.{PgClient}
use rama_pg.Startup.{v3_0, startup_message}
use rama_pg.Tests.Toy.{toy, peer}
use rama_pg.Prelude.{
  ℕ, suc, List, [], ◌∷◌, ◌++◌, All, Option, none, some, Result, ok, replicate, drop, take, ◌≡◌, ◌⊎◌,
  refl, arith,
}

abbrev packet : Bytes
packet = startup_message ((codes "user", codes "bob") ∷ [])

abbrev request : BackendRequest
request = record {
  target = codes "a:5432";
  startup = packet;
  id = record { user = codes "bob"; database = codes "db"; shard = codes "a:5432" };
}

abbrev passwords : StaticBackendCredentials
passwords = (codes "bob", codes "pw") ∷ []

-- A backend that asks for a password, and the messages of its startup.
abbrev backend : Conn
backend = peer (
    authentication_cleartext_password
    ++ (authentication_ok
        ++ (parameter_status (codes "TimeZone") (codes "UTC")
            ++ (backend_key_data_raw (replicate 8 1) ++ ready_for_query b'I'))))

establish-Established_example :
    Finishes Anything
      (Established backend.input)
      (establish toy (λ n. replicate 18 n) (static_password passwords) request backend)
establish-Established_example =
    establish-Established toy (λ n. replicate 18 n) (static_password passwords) request backend

-- A stand-in for rama's connector: the first idle lease, or a fresh one that reports the user.
abbrev Idle : Type 0
Idle = List Lease

abbrev fresh : BackendRequest → Lease
fresh req = record {
  conn = peer [];
  captured = record {
    params = req.id.user ∷ [];
    cancel_key = some (record { bytes = replicate 8 1 });
  };
}

abbrev connect : BackendRequest → Idle → Result Lease × Idle
connect req [] = (ok (fresh req), [])
connect req (l ∷ ls) = (ok l, ls)

abbrev connector : Connector Idle
connector = record { connect = connect; give_back = λ l ls. l ∷ ls }

abbrev pool : BackendPool Idle
pool = record {
  replicas = codes "a:5432" ∷ codes "b:5432" ∷ [];
  mode = transaction;
  next = 0;
  params = [];
  reset_query = some discard_all;
  idle = [];
}

-- One that only makes fresh leases.
abbrev fresh_only : Connector ℕ
fresh_only = record { connect = λ req n. (ok (fresh req), suc n); give_back = λ l n. n }

abbrev Issued : Bytes → Bytes → List Bytes → Type 0
Issued user database ps = ps ≡ user ∷ []

abbrev empty_pool : BackendPool ℕ
empty_pool = record {
  replicas = codes "a:5432" ∷ [];
  mode = transaction;
  next = 0;
  params = [];
  reset_query = some discard_all;
  idle = 0;
}

empty-IsCache : IsCache fresh_only Issued []
unfolding find_params
empty-IsCache role ps h = cc

startup_params-Answers_example :
    Outcome
      (Unchanged fresh_only Issued empty_pool)
      (Answers fresh_only Issued (codes "bob") (codes "db") empty_pool)
      (startup_params fresh_only packet (codes "bob") (codes "db") empty_pool)
startup_params-Answers_example =
    startup_params-Answers fresh_only Issued (λ req n. refl) packet (codes "bob") (codes "db")
      empty_pool empty-IsCache

abbrev replicas : List Bytes
replicas = codes "a" ∷ codes "b" ∷ codes "c" ∷ []

picks_cycle_example : picks [] replicas 3 4 ≡ drop 1 replicas ++ take 1 replicas
picks_cycle_example = picks_cycle [] replicas 4 (omega arith) (omega arith)

-- A lease that no client has used, or whose backend was reset last.
abbrev Fit : Lease → Type 0
Fit l = (l.conn.sent ≡ []) ⊎ EndsWith (some discard_all) l.conn.sent

abbrev Clean : Idle → Type 0
Clean = All Fit

abbrev serving : Serving Idle
serving = record { client = peer []; pool = pool; target = none }

abbrev bob : PgClient
bob = record {
  startup_message = record {
    protocol_version = v3_0;
    parameters = (codes "user", codes "bob") ∷ [];
    raw = packet;
  };
  protocol_version = v3_0;
  sni = none;
  auth = terminated trust;
}

abbrev says : Bytes → Event
says bs = from_backend (ok (some (record { frame = bs })))

abbrev query : Event
query = from_client (ok (some (record { frame = frame Tag.query (codes "SELECT 1" ++ 0 ∷ []) })))

-- A query and its answer, the answer to the reset, and the client's next query.
abbrev events : List Event
events =
    query
    ∷ says (command_complete (codes "SELECT 1"))
    ∷ says (ready_for_query b'I')
    ∷ says (command_complete (codes "DISCARD ALL"))
    ∷ says (ready_for_query b'I')
    ∷ query
    ∷ []

abbrev copies : List Event → Relay → Wait (Result (Unit {0}))
copies es r = ended (ok tt) es r

abbrev copies_through : Relay → Result (Unit {0}) × Relay
copies_through r = (ok tt, r)

abbrev trusting : Conn
trusting = peer (authentication_ok ++ ready_for_query b'I')

abbrev to_replica : PgClient → Result (PgClient × Option ℕ)
to_replica c = ok (c, some 1)
