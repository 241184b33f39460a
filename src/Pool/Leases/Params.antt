-- ===== src/Pool/Leases/Params.antt =====
-- The cache of startup parameters.
use rama_pg.Bytes.{Bytes, eqb}
use rama_pg.Bytes.Search.{eqb_refl, eqb_sound}
use rama_pg.Exec.{◌>>=◌}
use rama_pg.Exec.Loop.{Outcome, and_then-Outcome}
use rama_pg.Exec.Ensures.{Leaves}
use rama_pg.Pool.{next_replica}
use rama_pg.Pool.Connector.{BackendRequest}
use rama_pg.Pool.Leases.{
  Role, eqb_role, ParamsCache, find_params, insert_params, BackendPool, Lease, lease_params,
  Connector, put_idle, request, lease, checkin, keep_params, cached_or, startup_params,
}
use rama_pg.Prelude.{
  List, [], ◌∷◌, Option, none, some, true, false, ◌≡◌, refl, sym, ap, ◌∙◌, subst, arith, Bool-cases,
  inl, inr, Result, ok, err,
}

eqb_role_refl : (role : Role) → eqb_role role role ≡ true
eqb_role_refl (u, d) = rw (eqb_refl u, eqb_refl d)

eqb_role_sound : (a b : Role) → eqb_role a b ≡ true → a ≡ b
eqb_role_sound (u, d) (u', d') h =
    let e : eqb u u' ≡ true = ground arith in
    let e' : eqb d d' ≡ true = ground arith in rw (eqb_sound u u' e, eqb_sound d d' e')

find_params-insert_params :
    (role : Role) (ps : List Bytes) (m : ParamsCache)
    → find_params role (insert_params role ps m) ≡ some ps
unfolding find_params insert_params
find_params-insert_params role ps [] = rw (eqb_role_refl role)
find_params-insert_params role ps ((r, qs) ∷ m) = elim (Bool-cases (eqb_role r role)) [
  | inl e ↦ rw (e, eqb_role_refl role)
  | inr e ↦ rw (e, e, find_params-insert_params role ps m)
]

find_params-insert_params_other :
    (role other : Role) (ps : List Bytes) (m : ParamsCache)
    → eqb_role role other ≡ false
    → find_params other (insert_params role ps m) ≡ find_params other m
unfolding find_params insert_params
find_params-insert_params_other role other ps [] h = rw h
find_params-insert_params_other role other ps ((r, qs) ∷ m) h =
    elim (Bool-cases (eqb_role r role)) [
      | inl e ↦
          let same : eqb_role r other ≡ false =
            subst (λ x. eqb_role x other ≡ false) (sym (eqb_role_sound r role e)) h in
          rw (e, h, same)
      | inr e ↦ rw (e, find_params-insert_params_other role other ps m h)
    ]

-- `Issued user database ps` is what the connections of a role are known to report. The theorem holds
-- of every such relation that rama's connector keeps: what it hands out for a role is of that role.
module _ {Idle : Type 0} (connector : Connector Idle)
    (Issued : Bytes → Bytes → List Bytes → Type 0) where
  abbrev pub IsConnector : Type 0
  IsConnector =
      (req : BackendRequest) (idle : Idle)
      → Leaves (λ l idle'. Issued req.id.user req.id.database (lease_params l))
          (connector.connect req idle)

  -- Every role's cached parameters were issued to that role.
  abbrev pub IsCache : ParamsCache → Type 0
  IsCache m =
      (role : Role) (ps : List Bytes) → find_params role m ≡ some ps → Issued role.0 role.1 ps

  insert_params-IsCache :
      (role : Role) (ps : List Bytes) (m : ParamsCache)
      → IsCache m
      → Issued role.0 role.1 ps
      → IsCache (insert_params role ps m)
  insert_params-IsCache role ps m h i other qs e = elim (Bool-cases (eqb_role role other)) [
    | inl same ↦
        let at : role ≡ other = eqb_role_sound role other same in
        let got : some ps ≡ some qs =
          sym (find_params-insert_params role ps m)
          ∙ ap (λ r. find_params r (insert_params role ps m)) at
          ∙ e in
        let value : ps ≡ qs = ground arith in
        subst (λ r. Issued r.0 r.1 qs) at (subst (λ x. Issued role.0 role.1 x) value i)
    | inr apart ↦ h other qs (sym (find_params-insert_params_other role other ps m apart) ∙ e)
  ]

  abbrev pub Unchanged : BackendPool Idle → BackendPool Idle → Type 0
  Unchanged pool pool' = pool'.params ≡ pool.params

  -- The answer is of the role, later calls for it answer the same at once, whatever their startup
  -- frame, and no other role's entry has changed.
  abbrev pub Answers : Bytes → Bytes → BackendPool Idle → List Bytes → BackendPool Idle → Type 0
  Answers user database pool ps pool' =
      Issued user database ps
      × IsCache pool'.params
      × ((frame : Bytes) → startup_params connector frame user database pool' ≡ (ok ps, pool'))
      × ((other : Role)
          → eqb_role (user, database) other ≡ false
          → find_params other pool'.params ≡ find_params other pool.params)

  abbrev Leased : Bytes → Bytes → BackendPool Idle → Lease → BackendPool Idle → Type 0
  Leased user database pool l pool' =
      Issued user database (lease_params l) × (pool'.params ≡ pool.params)

  put_idle-Leased :
      (user database : Bytes) (pool pool1 : BackendPool Idle)
      → pool1.params ≡ pool.params
      → (r : Result Lease × Idle) → Leaves (λ l idle. Issued user database (lease_params l)) r
      → Outcome (Unchanged pool) (Leased user database pool) (put_idle pool1 r)
  put_idle-Leased user database pool pool1 same (ok l, idle) h = (h, same)
  put_idle-Leased user database pool pool1 same (err e, idle) h = same

  lease-Leased :
      IsConnector
      → (startup user database : Bytes) (pool : BackendPool Idle)
      → Outcome
          (Unchanged pool)
          (Leased user database pool)
          (lease connector startup user database pool)
  unfolding lease
  lease-Leased honest startup user database pool =
      let (shard, next) = next_replica [] pool.replicas pool.next in
      put_idle-Leased user database pool (record pool { next = next }) refl _
        (honest (request startup user database shard) pool.idle)

  keep_params-Answers :
      (user database : Bytes) (pool : BackendPool Idle)
      → IsCache pool.params
      → (l : Lease) (pool1 : BackendPool Idle) → Leased user database pool l pool1
      → Outcome
          (Unchanged pool)
          (Answers user database pool)
          (keep_params connector (user, database) l pool1)
  unfolding startup_params checkin
  keep_params-Answers user database pool cache l pool1 (issued, same) =
      let role : Role = (user, database) in
      let ps = lease_params l in
      (
        issued,
        insert_params-IsCache role ps pool1.params (subst IsCache (sym same) cache) issued,
        λ frame. rw (find_params-insert_params role ps pool1.params) refl,
        λ other apart.
            find_params-insert_params_other role other ps pool1.params apart
            ∙ ap (find_params other) same,
      )

  cached_or-Answers :
      IsConnector
      → (startup user database : Bytes) (pool : BackendPool Idle) → IsCache pool.params
      → (o : Option (List Bytes)) → find_params (user, database) pool.params ≡ o
      → Outcome (Unchanged pool) (Answers user database pool) (
          cached_or o
            (lease connector startup user database >>= keep_params connector (user, database))
            pool)
  cached_or-Answers honest startup user database pool cache (some ps) found = (
    cache (user, database) ps found,
    cache,
    λ frame. unfold startup_params in rw found refl,
    λ other apart. refl,
  )
  cached_or-Answers honest startup user database pool cache none found =
      and_then-Outcome (Unchanged pool) (Leased user database pool) (Answers user database pool)
        (lease connector startup user database pool) (keep_params connector (user, database))
        (lease-Leased honest startup user database pool)
        (keep_params-Answers user database pool cache)

  -- Where rama's connector hands out for a role only connections of that role, the parameters that
  -- `startup_params` answers with were issued to the role asked for, and the cache still holds of
  -- each role only what was issued to it. Later calls for the role answer the same, whatever their
  -- startup frame, and leave the pool as it is; other roles' entries are untouched. A failure leaves
  -- the cache as it was.
  pub startup_params-Answers :
      IsConnector
      → (startup user database : Bytes) (pool : BackendPool Idle) → IsCache pool.params
      → Outcome
          (Unchanged pool)
          (Answers user database pool)
          (startup_params connector startup user database pool)
  unfolding startup_params
  startup_params-Answers honest startup user database pool cache =
      cached_or-Answers honest startup user database pool cache _ refl
