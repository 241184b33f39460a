-- ===== src/Tests/Relays.antt =====
-- The relays, the queries and the cancel keys at concrete inputs.
use rama_pg.Bytes.{Bytes, codes, eqb}
use rama_pg.Cancel.{CancelHandle, Registry, empty, begin, set, clear, drop_handle, cancel, key_len}
use rama_pg.Cancel.Sessions.{
  IsRegistry, Owns, begun, set_to, cleared, dropped, run, key_of, run-IsRegistry, cancel-Owns,
  begin-Owns,
}
use rama_pg.Codec.{frame}
use rama_pg.Codec.Tag
use rama_pg.Custom.{Session, classify, run_query}
use rama_pg.Auth.{terminated, trust}
use rama_pg.Custom.Serve.{serve}
use rama_pg.Proxy.{PgClient}
use rama_pg.Custom.Serve.Ends.{IsOver, serve-IsOver}
use rama_pg.Custom.Status.{next_status, EndsReady, run_query-Leaves}
use rama_pg.Direct.{Direct, relay_startup}
use rama_pg.Direct.Startup.{Finishes, relay_startup-Finishes}
use rama_pg.Exec.Ensures.{Leaves}
use rama_pg.Message.{authentication_ok, backend_key_data_raw, command_complete, ready_for_query}
use rama_pg.Pool.{Event, from_backend, from_client, Relay, transaction, reset, discard_all}
use rama_pg.Pool.Ends.{Ends}
use rama_pg.Pool.Reset.{EndsIdle, Sent, reset-EndsIdle}
use rama_pg.Pooled.{relay_to_next_rfq, run_lease}
use rama_pg.Pooled.Forward.{Relays, relay_to_next_rfq-Forwarded}
use rama_pg.Pooled.Idle.{Safely, run_lease-Safely}
use rama_pg.Query.{in_transaction, error, QueryHandler, trim_query, verb_of}
use rama_pg.Route.{Backend, new, route, with_route, route-with_route}
use rama_pg.Startup.{v3_0, v3_2}
use rama_pg.Tests.Toy.{peer}
use rama_pg.Prelude.{ℕ, List, [], ◌∷◌, ◌++◌, none, some, false, ok, ◌≡◌, replicate}

abbrev query : Bytes
query = frame Tag.query (codes "SELECT 1" ++ 0 ∷ [])

abbrev says : Bytes → Event
says bs = from_backend (ok (some (record { frame = bs })))

abbrev two_peers : Relay
two_peers = record { client = peer []; backend = peer [] }

-- A query that begins a transaction, one that ends it, and the answers to the reset.
abbrev traffic : List Event
traffic =
    says (command_complete (codes "BEGIN"))
    ∷ says (ready_for_query b'T')
    ∷ from_client (ok (some (record { frame = query })))
    ∷ says (command_complete (codes "COMMIT"))
    ∷ says (ready_for_query b'I')
    ∷ says (command_complete (codes "DISCARD ALL"))
    ∷ says (ready_for_query b'I')
    ∷ []

run_lease-Safely_example :
    Safely
      (some discard_all)
      traffic
      (run_lease query transaction (some discard_all) traffic two_peers)
run_lease-Safely_example =
    run_lease-Safely (some discard_all) query transaction tt traffic two_peers

relay_to_next_rfq-Forwarded_example : Relays traffic two_peers (relay_to_next_rfq traffic two_peers)
relay_to_next_rfq-Forwarded_example = relay_to_next_rfq-Forwarded traffic two_peers

-- The answers to the reset, and what comes behind them.
abbrev answers : List Event
answers =
    says (command_complete (codes "DISCARD ALL"))
    ∷ says (ready_for_query b'I')
    ∷ from_client (ok (some (record { frame = query })))
    ∷ []

reset-EndsIdle_example :
    Ends
      (λ x rest r'.
        EndsIdle answers x rest × Sent discard_all two_peers x r' × (r'.client ≡ two_peers.client))
      (reset discard_all answers two_peers)
reset-EndsIdle_example = reset-EndsIdle discard_all answers two_peers

abbrev starting : Direct
starting = record {
  relay = record {
    client = peer [];
    backend =
        peer (
          authentication_ok ++ (backend_key_data_raw (1 ∷ 2 ∷ 3 ∷ 4 ∷ []) ++ ready_for_query b'I'));
  };
  recorded = none;
}

relay_startup-Finishes_example :
    Finishes
      (some (record { bytes = replicate 8 7 }))
      starting
      (relay_startup (some (record { bytes = replicate 8 7 })) false starting)
relay_startup-Finishes_example =
    relay_startup-Finishes (some (record { bytes = replicate 8 7 })) false starting

-- Keys of one repeated byte.
abbrev fill : ℕ → ℕ → Bytes
fill b n = replicate n b

abbrev registry : Registry ℕ
registry = (begin (fill 1) v3_0 empty).1

abbrev handle : CancelHandle
handle = (begin {Target = ℕ} (fill 1) v3_0 empty).0.1

empty-IsRegistry : IsRegistry {Target = ℕ} empty
empty-IsRegistry key slot h = cc

run-IsRegistry_example : IsRegistry {Target = ℕ} (
    run
      (begun (fill 1) v3_0
        ∷ begun (fill 2) v3_2
        ∷ set_to handle 5
        ∷ cleared handle
        ∷ dropped handle
        ∷ [])
      empty)
run-IsRegistry_example =
    run-IsRegistry
      (begun (fill 1) v3_0
        ∷ begun (fill 2) v3_2
        ∷ set_to handle 5
        ∷ cleared handle
        ∷ dropped handle
        ∷ [])
      empty empty-IsRegistry

begin-Owns_example :
    Owns {Target = ℕ}
      (begin (fill 1) v3_0 empty).1
      (fill 1 (key_len v3_0))
      (begin {Target = ℕ} (fill 1) v3_0 empty).0.1
    × (cancel (key_of (fill 1 (key_len v3_0))) (begin {Target = ℕ} (fill 1) v3_0 empty).1 ≡ none)
    × ((other : Bytes)
        → eqb (fill 1 (key_len v3_0)) other ≡ false
        → (cancel (key_of other) (begin {Target = ℕ} (fill 1) v3_0 empty).1
            ≡ cancel (key_of other) empty)
          × ((h : CancelHandle)
              → Owns {Target = ℕ} empty other h
              → Owns (begin {Target = ℕ} (fill 1) v3_0 empty).1 other h))
begin-Owns_example = begin-Owns (fill 1) v3_0 empty empty-IsRegistry

registry-IsRegistry : IsRegistry registry
registry-IsRegistry = run-IsRegistry (begun (fill 1) v3_0 ∷ []) empty empty-IsRegistry

registry-Owns : Owns registry (fill 1 (key_len v3_0)) handle
registry-Owns = (begin-Owns (fill 1) v3_0 empty empty-IsRegistry).0

cancel-Owns_example :
    (cancel (key_of (fill 1 (key_len v3_0))) (set handle 5 registry) ≡ some 5)
    × (cancel (key_of (fill 1 (key_len v3_0))) (clear handle registry) ≡ none)
    × (cancel (key_of (fill 1 (key_len v3_0))) (drop_handle handle registry) ≡ none)
    × ((other : Bytes)
        → eqb (fill 1 (key_len v3_0)) other ≡ false
        → (cancel (key_of other) (set handle 5 registry) ≡ cancel (key_of other) registry)
          × (cancel (key_of other) (clear handle registry) ≡ cancel (key_of other) registry)
          × (cancel (key_of other) (drop_handle handle registry) ≡ cancel (key_of other) registry))
cancel-Owns_example =
    cancel-Owns registry registry-IsRegistry (fill 1 (key_len v3_0)) handle registry-Owns 5

-- A handler that fails every query.
abbrev refusing : QueryHandler
refusing user database txn sql = (error (codes "42601") (codes "no"), txn)

abbrev session : Session
session = record { conn = peer []; txn = in_transaction }

run_query-Leaves_example :
    Leaves
      (EndsReady [] (
        next_status in_transaction
          (classify (verb_of (trim_query (codes " select 1;"))))
          (refusing (codes "bob") (codes "db") in_transaction (trim_query (codes " select 1;")))))
      (run_query refusing (codes "bob") (codes "db") (codes " select 1;") session)
run_query-Leaves_example =
    run_query-Leaves refusing (codes "bob") (codes "db") (codes " select 1;") session

-- A query, a message of the extended protocol, and `Terminate`.
abbrev spoken : Bytes
spoken = query ++ (frame b'P' (0 ∷ 0 ∷ []) ++ frame Tag.terminate [])

abbrev bob : PgClient
bob = record {
  startup_message = record {
    protocol_version = v3_0;
    parameters = (codes "user", codes "bob") ∷ (codes "database", codes "db") ∷ [];
    raw = [];
  };
  protocol_version = v3_0;
  sni = none;
  auth = terminated trust;
}

serve-IsOver_example : IsOver (
    serve refusing (ok (some (record { bytes = replicate 8 4 }))) (replicate 8 3) bob (peer spoken))
serve-IsOver_example =
    serve-IsOver refusing (ok (some (record { bytes = replicate 8 4 }))) (replicate 8 3) bob
      (peer spoken)

abbrev backend : Backend
backend = record { address = codes "a:5432" }

route-with_route_example :
    (route (with_route new (codes "a") backend) (some (codes "a")) ≡ some backend)
    × ((other : Bytes)
        → eqb (codes "a") other ≡ false
        → route (with_route new (codes "a") backend) (some other) ≡ route new (some other))
    × (route (with_route new (codes "a") backend) none ≡ new.default)
route-with_route_example = route-with_route new (codes "a") backend
