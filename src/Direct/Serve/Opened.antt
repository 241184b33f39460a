-- ===== src/Direct/Serve/Opened.antt =====
-- How a direct session ends.
use rama_pg.Bytes.{Bytes, codes}
use rama_pg.Direct.{Direct, relay_startup}
use rama_pg.Direct.Serve.{DirectEnd, refused, reached, is_interactive, open_session}
use rama_pg.Direct.Startup.{Relayed}
use rama_pg.Exec.{Conn}
use rama_pg.Exec.Reads.{Reads}
use rama_pg.Message.{fatal_error}
use rama_pg.Pool.{Relay}
use rama_pg.Proxy.{PgClient}
use rama_pg.Scram.Primitives.{Primitives}
use rama_pg.Startup.{CancelKey}
use rama_pg.Prelude.{
  ◌<◌, Bool, Error, broken_pipe, ◌++◌, Option, none, some, Result, ok, err, ◌≡◌, ◌⊎◌,
}

abbrev pub both_ends : Conn → Conn → Direct
both_ends client upstream = record {
  relay = record { client = client; backend = upstream };
  recorded = none;
}

-- The startup was relayed, behind challenges of the backend, from the connections as they stood after
-- the opening.
abbrev pub Started : Option CancelKey → Conn → Conn → Result (Unit {0}) × Conn → Direct → Type 0
Started key client upstream opening d =
    (opened : Conn) × (opening ≡ (ok tt, opened))
    × Reads upstream.input opened
    × Relayed key (both_ends client opened) tt d

-- A session that fails on a backend that was reached does so in the opening, which the client sees
-- nothing of, in the relay of the startup, or in the copy behind it.
abbrev pub Broken :
    (Relay → Result (Unit {0}) × Relay)
    → Option CancelKey
    → Bool
    → Conn
    → Conn
    → Result (Unit {0}) × Conn
    → Error
    → Direct
    → Type 0
Broken copy key interactive client upstream opening e d' =
    ((opening ≡ (err e, d'.relay.backend)) × (d'.relay.client ≡ client))
    ⊎ ((opened : Conn) × (opening ≡ (ok tt, opened))
        × (relay_startup key interactive (both_ends client opened) ≡ some (err e, d')))
    ⊎ ((d : Direct) × Started key client upstream opening d × (copy d.relay ≡ (err e, d'.relay)))

-- The error that refuses the client was sent, or the connection took fewer than its two writes.
abbrev pub ToldOff : Bytes → Bytes → Conn → Result (Unit {0}) → Conn → Type 0
ToldOff code text c x c' =
    ((x ≡ ok tt) × (c'.sent ≡ c.sent ++ fatal_error code text))
    ⊎ ((x ≡ err broken_pipe)
        × (c.room < 2)
        × ((c'.sent ≡ c.sent) ⊎ (c'.sent ≡ c.sent ++ fatal_error code text)))

abbrev pub DialEnds :
    (Relay → Result (Unit {0}) × Relay)
    → Option CancelKey
    → Bool
    → Conn
    → (Conn → Result (Unit {0}) × Conn)
    → Result Conn
    → Option DirectEnd
    → Type 0
DialEnds copy key interactive client opening dial none = ⊥
DialEnds copy key interactive client opening (err e) (some (refused x c')) =
    ToldOff (codes "08006") (codes "rama-pg: could not reach backend") client x c'
DialEnds copy key interactive client opening (ok upstream) (some (reached (ok u) d')) =
    (d : Direct) × Started key client upstream (opening upstream) d
    × (copy d.relay ≡ (ok tt, d'.relay))
DialEnds copy key interactive client opening (ok upstream) (some (reached (err e) d')) =
    Broken copy key interactive client upstream (opening upstream) e d'
DialEnds copy key interactive client opening (err e) (some (reached x d')) = ⊥
DialEnds copy key interactive client opening (ok upstream) (some (refused x c')) = ⊥

-- By what the router answers.
abbrev pub Ends {ℓ} :
    {Target : Type ℓ}
    → (Target → Result Conn)
    → (Relay → Result (Unit {0}) × Relay)
    → Option CancelKey
    → (PgClient → Conn → Result (Unit {0}) × Conn)
    → Conn
    → Result (PgClient × Option Target)
    → Option DirectEnd
    → Type 0
Ends dial copy key opening client (ok (routed_client, some target)) end =
    DialEnds copy key (is_interactive routed_client.auth) client (opening routed_client)
      (dial target) end
Ends dial copy key opening client (ok (routed_client, none)) (some (refused x c')) =
    ToldOff (codes "08004") (codes "rama-pg: no backend configured for this client") client x c'
Ends dial copy key opening client (err e) (some (refused x c')) = (x ≡ err e) × (c' ≡ client)
Ends dial copy key opening client (ok (routed_client, none)) (some (reached x d')) = ⊥
Ends dial copy key opening client (ok (routed_client, none)) none = ⊥
Ends dial copy key opening client (err e) (some (reached x d')) = ⊥
Ends dial copy key opening client (err e) none = ⊥

module _ (p : Primitives) (nonce_bytes : Bytes) (copy : Relay → Result (Unit {0}) × Relay)
    (begun : Result (Option CancelKey)) (c : Conn) where
  -- The replay of the client's startup packet, and the backend's own authentication.
  abbrev pub opens : PgClient → Conn → Result (Unit {0}) × Conn
  opens client upstream = open_session p nonce_bytes client begun upstream
