-- ===== src/Pooled/Serve/Clean.antt =====
-- What a pooled session does to the pool, apart from its leases' runs.
use rama_pg.Bytes.{Bytes}
use rama_pg.Exec.{◌>>=◌}
use rama_pg.Exec.Loop.{Outcome, and_then-Outcome}
use rama_pg.Pool.{next_replica}
use rama_pg.Pool.Connector.{BackendRequest}
use rama_pg.Pool.Leases.{
  BackendPool, Lease, Connector, put_idle, request, lease, checkin, keep_params, cached_or,
  find_params, startup_params,
}
use rama_pg.Startup.{user, database}
use rama_pg.Prelude.{List, [], Option, none, some, ◌≡◌, refl, Result, ok, err}

-- Rama's connector and what its pool keeps, in the predicates of whoever relies on it: the pool as a
-- whole is `Clean`, and a lease that is `Fit` may be given back to it.
pub record KeepsClean {Idle : Type 0} (connector : Connector Idle) (Clean : Idle → Type 0)
    (Fit : Lease → Type 0) : Type 0 where
  pub hands_out :
      (req : BackendRequest) (idle : Idle)
      → Clean idle
      → Outcome Clean (λ l idle'. Fit l × Clean idle') (connector.connect req idle)
  pub takes_back :
      (l : Lease) (idle : Idle) → Clean idle → Fit l → Clean (connector.give_back l idle)

module _ {Idle : Type 0} (connector : Connector Idle) (Clean : Idle → Type 0) (Fit : Lease → Type 0)
    (keeps : KeepsClean connector Clean Fit) where
  abbrev pub CleanPool : BackendPool Idle → Type 0
  CleanPool pool = Clean pool.idle

  abbrev pub Handed : Lease → BackendPool Idle → Type 0
  Handed l pool = Fit l × Clean pool.idle

  put_idle-Handed :
      (pool : BackendPool Idle) (r : Result Lease × Idle)
      → Outcome Clean (λ l idle. Fit l × Clean idle) r
      → Outcome CleanPool Handed (put_idle pool r)
  put_idle-Handed pool (ok l, idle) h = h
  put_idle-Handed pool (err e, idle) h = h

  pub lease-Handed :
      (startup user database : Bytes) (pool : BackendPool Idle)
      → Clean pool.idle
      → Outcome CleanPool Handed (lease connector startup user database pool)
  unfolding lease
  lease-Handed startup user database pool clean =
      let (shard, next) = next_replica [] pool.replicas pool.next in
      put_idle-Handed (record pool { next = next }) _
        (keeps.hands_out (request startup user database shard) pool.idle clean)

  cached_or-Clean :
      (startup user database : Bytes) (pool : BackendPool Idle)
      → Clean pool.idle
      → (o : Option (List Bytes))
      → Outcome CleanPool
          (λ ps pool'. Clean pool'.idle)
          (cached_or o
            (lease connector startup user database >>= keep_params connector (user, database))
            pool)
  unfolding checkin
  cached_or-Clean startup user database pool clean (some ps) = clean
  cached_or-Clean startup user database pool clean none =
      and_then-Outcome CleanPool Handed (λ ps pool'. Clean pool'.idle)
        (lease connector startup user database pool) (keep_params connector (user, database))
        (lease-Handed startup user database pool clean)
        λ l pool1 (fit, clean1). keeps.takes_back l pool1.idle clean1 fit

  pub startup_params-Clean :
      (startup user database : Bytes) (pool : BackendPool Idle)
      → Clean pool.idle
      → Outcome CleanPool
          (λ ps pool'. Clean pool'.idle)
          (startup_params connector startup user database pool)
  unfolding startup_params
  startup_params-Clean startup user database pool clean =
      cached_or-Clean startup user database pool clean (find_params (user, database) pool.params)

  abbrev pub SameReset : Option Bytes → BackendPool Idle → Type 0
  SameReset reset pool = pool.reset_query ≡ reset

  put_idle-SameReset :
      (reset : Option Bytes) (pool : BackendPool Idle) (r : Result Lease × Idle)
      → pool.reset_query ≡ reset
      → Outcome (SameReset reset) (λ l pool. SameReset reset pool) (put_idle pool r)
  put_idle-SameReset reset pool (ok l, idle) h = h
  put_idle-SameReset reset pool (err e, idle) h = h

  cached_or-SameReset :
      (startup user database : Bytes) (pool : BackendPool Idle) (o : Option (List Bytes))
      → Outcome
          (SameReset pool.reset_query)
          (λ ps pool'. SameReset pool.reset_query pool')
          (cached_or o
            (lease connector startup user database >>= keep_params connector (user, database))
            pool)
  unfolding lease checkin
  cached_or-SameReset startup user database pool (some ps) = refl
  cached_or-SameReset startup user database pool none =
      let reset = pool.reset_query in
      let (shard, next) = next_replica [] pool.replicas pool.next in
      and_then-Outcome (SameReset reset) (λ l pool'. SameReset reset pool')
        (λ ps pool'. SameReset reset pool') (lease connector startup user database pool)
        (keep_params connector (user, database))
        (put_idle-SameReset reset (record pool { next = next })
          (connector.connect (request startup user database shard) pool.idle) refl)
        λ l pool1 same. same

  pub startup_params-SameReset :
      (startup user database : Bytes) (pool : BackendPool Idle)
      → Outcome
          (SameReset pool.reset_query)
          (λ ps pool'. SameReset pool.reset_query pool')
          (startup_params connector startup user database pool)
  unfolding startup_params
  startup_params-SameReset startup user database pool =
      cached_or-SameReset startup user database pool (find_params (user, database) pool.params)
