-- ===== src/Pool/Leases.antt =====
-- src/pool.rs: `BackendPool`. Rama's `PooledConnector`, which reuses an idle connection of a key or
-- establishes one, is a function on a state of its own, and so is the return of a connection to it.
pub mod Params
pub mod Turns
use rama_pg.Bytes.{Bytes, eqb}
use rama_pg.Codec.{RawMessage}
use rama_pg.Exec.{Exec, ◌>>=◌, and_then, Conn}
use rama_pg.Pool.{PoolMode, discard_all, next_replica}
use rama_pg.Pool.Connector.{BackendRequest, PgConnId, Captured}
use rama_pg.Prelude.{
  ℕ, zero, suc, List, [], ◌∷◌, length, Option, none, some, Bool, true, false, ◌&&◌, leb,
  if◌then◌else◌, Result, ok, err,
}
use rama_pg.Startup.{CancelKey}

-- A user and a database.
abbrev pub Role : Type 0
Role = Bytes × Bytes

abbrev pub eqb_role : Role → Role → Bool
eqb_role (u, d) (u', d') = eqb u u' && eqb d d'

-- The cache, a map from roles.
abbrev pub ParamsCache : Type 0
ParamsCache = List (Role × List Bytes)

unfoldable pub find_params : Role → ParamsCache → Option (List Bytes)
find_params role [] = none
find_params role ((r, ps) ∷ rest) = if eqb_role r role then some ps else find_params role rest

unfoldable pub insert_params : Role → List Bytes → ParamsCache → ParamsCache
insert_params role ps [] = (role, ps) ∷ []
insert_params role ps ((r, qs) ∷ rest) =
    let later = insert_params role ps rest in
    if eqb_role r role then (role, ps) ∷ rest else (r, qs) ∷ later

-- `BackendPool`, with the state of rama's connector.
pub record BackendPool {ℓ} (Idle : Type ℓ) : Type ℓ where
  pub replicas : List Bytes
  pub mode : PoolMode
  pub next : ℕ
  pub params : ParamsCache
  pub reset_query : Option Bytes
  pub idle : Idle

-- `Lease`: its connection, and what was captured of the connection's startup.
pub record Lease : Type 0 where
  pub conn : Conn
  pub captured : Captured

-- `Lease::params` and the key of `Lease::cancel_target`
abbrev pub lease_params : Lease → List Bytes
lease_params l = l.captured.params

abbrev pub lease_cancel : Lease → Option CancelKey
lease_cancel l = l.captured.cancel_key

-- `with_connector`: nothing where the source's assertion fails. `new_idle` builds rama's pool of a
-- size of at least 1.
unfoldable pub with_connector {ℓ} :
    {Idle : Type ℓ} → (ℕ → Idle) → List Bytes → ℕ → PoolMode → Option (BackendPool Idle)
with_connector new_idle [] max_size mode = none
with_connector new_idle (r ∷ rs) max_size mode = some (record {
  replicas = r ∷ rs;
  mode = mode;
  next = 0;
  params = [];
  reset_query = some discard_all;
  idle = new_idle (if leb 1 max_size then max_size else 1);
})

-- What rama's connector offers.
pub record Connector {ℓ} (Idle : Type ℓ) : Type ℓ where
  pub connect : BackendRequest → Exec Idle Lease
  pub give_back : Lease → Idle → Idle

abbrev pub request : Bytes → Bytes → Bytes → Bytes → BackendRequest
request startup user database shard = record {
  target = shard;
  startup = startup;
  id = record { user = user; database = database; shard = shard };
}

module _ {ℓ} {Idle : Type ℓ} where
  abbrev pub put_idle {κ} :
      {A : Type κ} → BackendPool Idle → Result A × Idle → Result A × BackendPool Idle
  put_idle pool (x, idle) = (x, record pool { idle = idle })

  -- `lease`
  unfoldable pub lease : Connector Idle → Bytes → Bytes → Bytes → Exec (BackendPool Idle) Lease
  unfolding next_replica
  lease connector startup user database pool =
      let (shard, next) = next_replica [] pool.replicas pool.next in
      put_idle (record pool { next = next })
        (connector.connect (request startup user database shard) pool.idle)

  -- `Lease::checkin`
  unfoldable pub checkin : Connector Idle → Lease → BackendPool Idle → BackendPool Idle
  checkin connector l pool = record pool { idle = connector.give_back l pool.idle }

  -- What `startup_params` does with its lease.
  abbrev pub keep_params : Connector Idle → Role → Lease → Exec (BackendPool Idle) (List Bytes)
  keep_params connector role l pool =
      let returned = checkin connector l pool in
      (
        ok (lease_params l),
        record returned { params = insert_params role (lease_params l) returned.params },
      )

  abbrev pub cached_or :
      Option (List Bytes)
      → Exec (BackendPool Idle) (List Bytes)
      → Exec (BackendPool Idle) (List Bytes)
  cached_or (some ps) fresh pool = (ok ps, pool)
  cached_or none fresh pool = fresh pool

  -- `startup_params`
  unfoldable pub startup_params :
      Connector Idle → Bytes → Bytes → Bytes → Exec (BackendPool Idle) (List Bytes)
  startup_params connector startup user database pool =
      cached_or (find_params (user, database) pool.params)
        (lease connector startup user database >>= keep_params connector (user, database)) pool
