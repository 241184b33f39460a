-- ===== src/Direct/Serve.antt =====
-- src/proxy/direct.rs: `DirectForwarder::serve`. The router, the dialling of what it chose, the outcome
-- of the provider's `begin` and `copy_bidirectional`, where it returns, are arguments.
pub mod Opened
use rama_pg.Auth.{ClientAuth, BackendAuth, pass_through, terminated, trust, scram}
use rama_pg.Bytes.{Bytes, codes}
use rama_pg.Direct.{Direct, relay_startup}
use rama_pg.Exec.{Exec, ◌>>=◌, ◌>>◌, and_then, done, Conn, write_all, flush}
use rama_pg.Exec.Loop.{run_then}
use rama_pg.Pool.{Relay}
use rama_pg.Proxy.{reject, PgClient}
use rama_pg.Scram.Client.{reauth_upstream}
use rama_pg.Scram.Primitives.{Primitives}
use rama_pg.Startup.{CancelKey}
use rama_pg.Prelude.{Option, none, some, Bool, true, false, Result, ok, err}

-- A session that was refused, with its client, or one whose backend was reached.
pub data DirectEnd : Type 0 where
  refused : Result (Unit {0}) → Conn → DirectEnd
  reached : Result (Unit {0}) → Direct → DirectEnd

abbrev pub refusal : Result (Unit {0}) × Conn → DirectEnd
refusal (x, c) = refused x c

abbrev pub no_route : Conn → Result (Unit {0}) × Conn
no_route = reject (codes "08004") (codes "rama-pg: no backend configured for this client")

abbrev pub no_backend : Conn → Result (Unit {0}) × Conn
no_backend = reject (codes "08006") (codes "rama-pg: could not reach backend")

-- With terminated authentication and SCRAM keys, the backend is satisfied first.
abbrev pub satisfy : Primitives → Bytes → ClientAuth → Exec Conn (Unit {0})
satisfy p nonce_bytes pass_through = done tt
satisfy p nonce_bytes (terminated trust) = done tt
satisfy p nonce_bytes (terminated (scram keys)) = reauth_upstream p keys nonce_bytes

abbrev pub is_interactive : ClientAuth → Bool
is_interactive pass_through = true
is_interactive (terminated auth) = false

abbrev pub put_relay : Direct → Result (Unit {0}) × Relay → Result (Unit {0}) × Direct
put_relay d (x, r) = (x, record d { relay = r })

abbrev pub end_of : Option (Result (Unit {0}) × Direct) → Option DirectEnd
end_of none = none
end_of (some (x, d)) = some (reached x d)

-- The startup and the session behind it, on a backend that is satisfied.
abbrev pub relay_session :
    (Relay → Result (Unit {0}) × Relay)
    → Option CancelKey
    → ClientAuth
    → Conn
    → Result (Unit {0}) × Conn
    → Option DirectEnd
relay_session copy key auth client (err e, upstream) = some (
    reached (err e)
      (record { relay = record { client = client; backend = upstream }; recorded = none }))
relay_session copy key auth client (ok u, upstream) = end_of (
    run_then
      (relay_startup key (is_interactive auth)
        (record { relay = record { client = client; backend = upstream }; recorded = none }))
      (λ u d. some (put_relay d (copy d.relay))))

-- `begin?`, and the backend's own authentication.
abbrev pub begin_session :
    Primitives → Bytes → ClientAuth → Result (Option CancelKey) → Exec Conn (Unit {0})
begin_session p nonce_bytes auth (err e) c = (err e, c)
begin_session p nonce_bytes auth (ok key) c = satisfy p nonce_bytes auth c

abbrev pub issued : Result (Option CancelKey) → Option CancelKey
issued (err e) = none
issued (ok key) = key

-- The replay of the startup packet, and what follows it up to the relay.
abbrev pub open_session :
    Primitives → Bytes → PgClient → Result (Option CancelKey) → Exec Conn (Unit {0})
open_session p nonce_bytes client begun =
    (write_all client.startup_message.raw >> flush) >> begin_session p nonce_bytes client.auth begun

abbrev pub dialled :
    Primitives
    → Bytes
    → (Relay → Result (Unit {0}) × Relay)
    → Result (Option CancelKey)
    → PgClient
    → Conn
    → Result Conn
    → Option DirectEnd
dialled p nonce_bytes copy begun client c (err e) = some (refusal (no_backend c))
dialled p nonce_bytes copy begun client c (ok upstream) =
    relay_session copy (issued begun) client.auth c
      (open_session p nonce_bytes client begun upstream)

abbrev pub routed {ℓ} :
    {Target : Type ℓ}
    → Primitives
    → Bytes
    → (Target → Result Conn)
    → (Relay → Result (Unit {0}) × Relay)
    → Result (Option CancelKey)
    → Conn
    → Result (PgClient × Option Target)
    → Option DirectEnd
routed p nonce_bytes dial copy begun c (err e) = some (refused (err e) c)
routed p nonce_bytes dial copy begun c (ok (client, none)) = some (refusal (no_route c))
routed p nonce_bytes dial copy begun c (ok (client, some target)) =
    dialled p nonce_bytes copy begun client c (dial target)

-- `DirectForwarder::serve`
unfoldable pub serve {ℓ} :
    {Target : Type ℓ}
    → Primitives
    → Bytes
    → (PgClient → Result (PgClient × Option Target))
    → (Target → Result Conn)
    → (Relay → Result (Unit {0}) × Relay)
    → Result (Option CancelKey)
    → PgClient
    → Conn
    → Option DirectEnd
serve p nonce_bytes router dial copy begun client c =
    routed p nonce_bytes dial copy begun c (router client)
