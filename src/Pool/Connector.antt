-- ===== src/Pool/Connector.antt =====
-- src/pool.rs: `PgConnector` dials a backend, satisfies its challenge and reads its startup, with the
-- password that the credentials hold for the role. The bytes drawn for the nonces are a sequence.
pub mod Capture
use rama_pg.Bytes.{Bytes}
use rama_pg.Bytes.Map.{lookup, insert}
use rama_pg.Codec.{RawMessage, tag, payload, frame}
use rama_pg.Codec.Tag
use rama_pg.Exec.{Exec, ◌>>=◌, ◌>>◌, and_then, done, fail, lift, Conn, write_all, flush}
use rama_pg.Exec.Loop.{Turn, again, last, Run, run_then, loop_messages}
use rama_pg.Pool.{auth_subtype}
use rama_pg.Prelude.Int.{ℤ, pos, eqb_ℤ}
use rama_pg.Prelude.{
  ℕ, suc, List, [], ◌∷◌, ◌++◌, Option, none, some, ◌==◌, if◌then◌else◌, Result, ok, err, message,
}
use rama_pg.Scram.Client.{authenticate_password}
use rama_pg.Scram.Primitives.{Primitives}
use rama_pg.Startup.{CancelKey}

pub record PgConnId : Type 0 where
  pub user : Bytes
  pub database : Bytes
  pub shard : Bytes

pub record BackendRequest : Type 0 where
  pub target : Bytes
  pub startup : Bytes
  pub id : PgConnId

-- `BackendCredentials::password` of a user and a database.
abbrev pub BackendCredentials : Type 0
BackendCredentials = Bytes → Bytes → Result (Option Bytes)

abbrev pub trust_backend : BackendCredentials
trust_backend user database = ok none

-- `StaticBackendCredentials`, `with_password` and `password`.
abbrev pub StaticBackendCredentials : Type 0
StaticBackendCredentials = List (Bytes × Bytes)

unfoldable pub with_password : Bytes → Bytes → StaticBackendCredentials → StaticBackendCredentials
with_password user password passwords = insert user password passwords

unfoldable pub static_password : StaticBackendCredentials → BackendCredentials
static_password passwords user database = ok (lookup user passwords)

abbrev configured : Result (Option Bytes) → Result Bytes
configured (ok (some password)) = ok password
configured (ok none) =
    err (message "backend requires authentication but no credentials are configured for user")
configured (err e) = err e

-- `backend_password`
unfoldable pub backend_password : BackendCredentials → PgConnId → Result Bytes
backend_password credentials id = configured (credentials id.user id.database)

-- The answer to a cleartext challenge.
abbrev pub send_password : Bytes → Exec Conn (Unit {0})
send_password password = write_all (frame Tag.password_message (password ++ 0 ∷ [])) >> flush

-- An `Authentication` message; `drawn` counts the nonces drawn so far.
unfoldable pub challenge :
    Primitives
    → (ℕ → Bytes)
    → BackendCredentials
    → PgConnId
    → RawMessage
    → ℕ
    → Exec Conn (Turn ℕ (Unit {0}))
challenge p draws credentials id m drawn =
    if eqb_ℤ (auth_subtype m) (pos 0)
    then done (last tt)
    else if eqb_ℤ (auth_subtype m) (pos 3)
    then (lift (backend_password credentials id) >>= send_password) >> done (again drawn)
    else if eqb_ℤ (auth_subtype m) (pos 10)
    then (lift (backend_password credentials id) >>= λ password.
        authenticate_password p password (draws drawn) m)
      >> done (again (suc drawn))
    else if eqb_ℤ (auth_subtype m) (pos 5)
    then fail (message "pool backend requested md5 auth")
    else fail (message "pool backend requested unsupported authentication type")

-- A message of the authentication phase.
unfoldable pub auth_turn :
    Primitives
    → (ℕ → Bytes)
    → BackendCredentials
    → PgConnId
    → ℕ
    → RawMessage
    → Exec Conn (Turn ℕ (Unit {0}))
auth_turn p draws credentials id drawn m =
    if tag m == Tag.authentication
    then challenge p draws credentials id m drawn
    else if tag m == Tag.error_response
    then fail (message "pool backend rejected authentication")
    else fail (message "unexpected backend message during auth")

-- `CapturedParams`, and the key of `CapturedCancel`.
pub record Captured : Type 0 where
  pub params : List Bytes
  pub cancel_key : Option CancelKey

-- A message between the authentication and the `ReadyForQuery`.
unfoldable pub capture_turn : Captured → RawMessage → Exec Conn (Turn Captured Captured)
capture_turn seen m =
    if tag m == Tag.parameter_status
    then done (again (record seen { params = seen.params ++ m.frame ∷ [] }))
    else if tag m == Tag.backend_key_data
    then done (again (record seen { cancel_key = some (record { bytes = payload m }) }))
    else if tag m == Tag.ready_for_query
    then done (last seen)
    else if tag m == Tag.error_response
    then fail (message "pool backend rejected startup")
    else done (again seen)

abbrev pub nothing_seen : Captured
nothing_seen = record { params = []; cancel_key = none }

abbrev pub capture : Unit {0} → Run Conn Captured
capture u c = loop_messages capture_turn nothing_seen c

abbrev pub authenticate :
    Primitives → (ℕ → Bytes) → BackendCredentials → PgConnId → Unit {0} → Run Conn Captured
authenticate p draws credentials id u c =
    run_then (loop_messages (auth_turn p draws credentials id) 0 c) capture

-- `PgConnector::serve` on the connection that was dialled.
unfoldable pub establish :
    Primitives → (ℕ → Bytes) → BackendCredentials → BackendRequest → Run Conn Captured
establish p draws credentials req c =
    run_then (some ((write_all req.startup >> flush) c)) (authenticate p draws credentials req.id)

abbrev dialled :
    Primitives
    → (ℕ → Bytes)
    → BackendCredentials
    → BackendRequest
    → Result Conn
    → Option (Result (Captured × Conn))
dialled p draws credentials req (err e) = some (err e)
dialled p draws credentials req (ok c) = elim (establish p draws credentials req c) [
  | none ↦ none
  | some (err e, c') ↦ some (err e)
  | some (ok captured, c') ↦ some (ok (captured, c'))
]

-- `PgConnector::serve`, over a transport that dials an address.
unfoldable pub serve :
    Primitives
    → (ℕ → Bytes)
    → BackendCredentials
    → (Bytes → Result Conn)
    → BackendRequest
    → Option (Result (Captured × Conn))
serve p draws credentials transport req = dialled p draws credentials req (transport req.target)
