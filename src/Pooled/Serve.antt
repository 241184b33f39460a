-- ===== src/Pooled/Serve.antt =====
-- src/proxy/pooled.rs: `PooledForwarder`, from the client's startup to its end. Of the cancel handle
-- the model keeps what its slot holds: the key of a backend, or nothing.
pub mod Clean
pub mod Served
use rama_pg.Auth.{ClientAuth, pass_through, terminated, or_empty}
use rama_pg.Bytes.{Bytes, codes}
use rama_pg.Codec.{tag}
use rama_pg.Codec.Tag
use rama_pg.Exec.{Conn}
use rama_pg.Pool.{
  PoolMode, session, transaction, statement, Event, from_backend, from_client, Relay, Wait, waiting,
  ended,
}
use rama_pg.Pool.Leases.{
  BackendPool, Lease, lease_cancel, Connector, lease, checkin, startup_params,
}
use rama_pg.Pooled.{Disposition, checked_in, discarded, LeaseEnd, run_lease}
use rama_pg.Proxy.{reject, synthesize_startup, PgClient}
use rama_pg.Startup.{CancelKey, user, database}
use rama_pg.Prelude.{
  ℕ, zero, suc, List, [], ◌∷◌, length, Option, none, some, Bool, true, false, ◌==◌, if◌then◌else◌,
  Result, ok, err,
}

-- The client, the shared pool, and what the cancel handle points at.
pub record Serving {ℓ} (Idle : Type ℓ) : Type ℓ where
  pub client : Conn
  pub pool : BackendPool Idle
  pub target : Option CancelKey

-- The session waits, with or without a lease, or it has returned.
pub data Progress {ℓ} (Idle : Type ℓ) : Type ℓ where
  pending : Option Lease → Serving Idle → Progress Idle
  over : Result (Unit {0}) → List Event → Serving Idle → Progress Idle

abbrev pub key_or : Option CancelKey → Bytes → Bytes
key_or none throwaway = throwaway
key_or (some key) throwaway = key.bytes

module _ {ℓ} {Idle : Type ℓ} (connector : Connector Idle) where
  -- `if let Some(target) = lease.cancel_target() { handle.set(target) }`
  abbrev pub aim : Option CancelKey → Serving Idle → Serving Idle
  aim none s = s
  aim (some key) s = record s { target = some key }

  -- The end of a lease, and `handle.clear()`.
  abbrev pub settle : Disposition → Lease → Relay → Serving Idle → Serving Idle
  settle checked_in l r s = record s {
    client = r.client;
    pool = checkin connector (record l { conn = r.backend }) s.pool;
    target = none;
  }
  settle discarded l r s = record s { client = r.client; target = none }

  abbrev pub after_lease :
      Lease
      → Serving Idle
      → (List Event → Serving Idle → Option (Progress Idle))
      → Option (Wait LeaseEnd)
      → Option (Progress Idle)
  after_lease l s next none = none
  after_lease l s next (some (waiting r)) = some (pending (some l) (record s { client = r.client }))
  after_lease l s next (some (ended (fate, err e) es r)) =
      some (over (err e) es (settle fate l r s))
  after_lease l s next (some (ended (fate, ok false) es r)) =
      some (over (ok tt) es (settle fate l r s))
  after_lease l s next (some (ended (fate, ok true) es r)) = next es (settle fate l r s)

  -- A transaction, by the outcome of `lease`.
  abbrev pub run_first :
      PoolMode
      → Option Bytes
      → Bytes
      → List Event
      → (List Event → Serving Idle → Option (Progress Idle))
      → Serving Idle
      → Result Lease × BackendPool Idle
      → Option (Progress Idle)
  run_first mode reset first es next s (err e, pool) =
      some (over (err e) es (record s { pool = pool }))
  run_first mode reset first es next s (ok l, pool) =
      after_lease l (aim (lease_cancel l) (record s { pool = pool })) next
        (run_lease first mode reset es (record { client = s.client; backend = l.conn }))

  -- The loop of `relay_pooled`, on fuel. While it holds no lease it sees nothing of a backend.
  unfoldable pub relay_pooled :
      ℕ
      → PoolMode
      → Option Bytes
      → Bytes
      → Bytes
      → Bytes
      → List Event
      → Serving Idle
      → Option (Progress Idle)
  relay_pooled zero mode reset startup user database es s = none
  relay_pooled (suc n) mode reset startup user database [] s = some (pending none s)
  relay_pooled (suc n) mode reset startup user database (from_backend x ∷ es) s =
      relay_pooled n mode reset startup user database es s
  relay_pooled (suc n) mode reset startup user database (from_client (err e) ∷ es) s =
      some (over (err e) es s)
  relay_pooled (suc n) mode reset startup user database (from_client (ok none) ∷ es) s =
      some (over (ok tt) es s)
  relay_pooled (suc n) mode reset startup user database (from_client (ok (some first)) ∷ es) s =
      let served =
        run_first mode reset first.frame es (relay_pooled n mode reset startup user database) s
          (lease connector startup user database s.pool) in
      if tag first == Tag.terminate then some (over (ok tt) es s) else served

  -- The relay of session pooling. `copy` is `copy_bidirectional` on what the two sides send: it waits,
  -- or has returned.
  abbrev pub copied : Lease → Serving Idle → Wait (Result (Unit {0})) → Progress Idle
  copied l s (waiting r) = pending (some l) (record s { client = r.client })
  copied l s (ended x es r) = over x es (settle discarded l r s)

  abbrev pub relay_session :
      (List Event → Relay → Wait (Result (Unit {0})))
      → List Event
      → Serving Idle
      → Result Lease × BackendPool Idle
      → Progress Idle
  relay_session copy es s (err e, pool) = over (err e) es (record s { pool = pool })
  relay_session copy es s (ok l, pool) =
      copied l (aim (lease_cancel l) (record s { pool = pool }))
        (copy es (record { client = s.client; backend = l.conn }))

  -- The relay of the pool's mode.
  abbrev pub relay :
      (List Event → Relay → Wait (Result (Unit {0})))
      → Bytes
      → Bytes
      → Bytes
      → List Event
      → PoolMode
      → Serving Idle
      → Option (Progress Idle)
  relay copy startup user database es session s =
      some (relay_session copy es s (lease connector startup user database s.pool))
  relay copy startup user database es transaction s =
      relay_pooled (suc (length es)) transaction s.pool.reset_query startup user database es s
  relay copy startup user database es statement s =
      relay_pooled (suc (length es)) statement s.pool.reset_query startup user database es s

  abbrev pub answered : List Event → Serving Idle → Result (Unit {0}) × Conn → Progress Idle
  answered es s (x, c) = over x es (record s { client = c })

  abbrev pub after_synthesis :
      (Serving Idle → Option (Progress Idle))
      → List Event
      → Serving Idle
      → Result (Unit {0}) × Conn
      → Option (Progress Idle)
  after_synthesis next es s (err e, c) = some (over (err e) es (record s { client = c }))
  after_synthesis next es s (ok u, c) = next (record s { client = c })

  abbrev pub no_backend : Conn → Result (Unit {0}) × Conn
  no_backend = reject (codes "08006") (codes "rama-pg: could not establish a backend connection")

  abbrev pub after_params :
      (Serving Idle → Option (Progress Idle))
      → Bytes
      → List Event
      → Serving Idle
      → Result (List Bytes) × BackendPool Idle
      → Option (Progress Idle)
  after_params next key es s (err e, pool) =
      some (answered es (record s { pool = pool }) (no_backend s.client))
  after_params next key es s (ok ps, pool) =
      after_synthesis next es (record s { pool = pool }) (synthesize_startup ps key s.client)

  abbrev pub not_pooled : Conn → Result (Unit {0}) × Conn
  not_pooled =
      reject (codes "0A000")
        (codes "rama-pg: pooling requires a terminating auth mode (cleartext or scram)")

  -- `serve_pooled`
  unfoldable pub serve_pooled :
      (List Event → Relay → Wait (Result (Unit {0})))
      → Bytes
      → Bytes
      → Bytes
      → ClientAuth
      → Option CancelKey
      → Bytes
      → List Event
      → Serving Idle
      → Option (Progress Idle)
  serve_pooled copy startup user database pass_through key throwaway es s =
      some (answered es s (not_pooled s.client))
  serve_pooled copy startup user database (terminated auth) key throwaway es s =
      after_params (relay copy startup user database es s.pool.mode) (key_or key throwaway) es s
        (startup_params connector startup user database s.pool)

  -- `PooledForwarder::serve`, with the outcome of the provider's `begin`.
  unfoldable pub serve :
      (List Event → Relay → Wait (Result (Unit {0})))
      → Result (Option CancelKey)
      → Bytes
      → PgClient
      → List Event
      → Serving Idle
      → Option (Progress Idle)
  serve copy (err e) throwaway client es s = some (over (err e) es s)
  serve copy (ok key) throwaway client es s =
      serve_pooled copy client.startup_message.raw (or_empty (user client.startup_message))
        (or_empty (database client.startup_message)) client.auth key throwaway es s
