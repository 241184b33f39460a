-- ===== src/PgBouncer/Stats/Forward.antt =====
-- The forwarder's entry in the statistics.
use rama_pg.Auth.{or_empty}
use rama_pg.PgBouncer.Stats.{
  ClientEntry, Stats, register, retain, deregister, is_admin, unregister, forward,
}
use rama_pg.Proxy.{PgClient}
use rama_pg.Startup.{user, database}
use rama_pg.Prelude.{
  ℕ, List, [], ◌∷◌, All, false, ◌==◌, ◌≡◌, ◌≢◌, refl, arith, Bool-cases, inl, inr, Result,
}

-- No entry has this id.
abbrev pub Absent : ℕ → List ClientEntry → Type 0
Absent id = All λ c. c.id ≢ id

retain-Absent : (id : ℕ) (cs : List ClientEntry) → Absent id (retain id cs)
unfolding retain
retain-Absent id [] = tt
retain-Absent id (c ∷ cs) = elim (Bool-cases (c.id == id)) [
  | inl e ↦ rw e (retain-Absent id cs)
  | inr e ↦ rw e (ground arith, retain-Absent id cs)
]

-- The end of a session that the pool served.
abbrev pub Tracked :
    (PgClient → Stats → Result (Unit {0}) × Stats)
    → PgClient
    → Stats
    → Result (Unit {0}) × Stats
    → Type 0
Tracked pool client s r =
    let (id, s') =
      register (or_empty (user client.startup_message)) (or_empty (database client.startup_message))
        s in
    (r.0 ≡ (pool client s').0) × Absent id r.1.clients

tracked-Tracked :
    (id : ℕ) (r : Result (Unit {0}) × Stats)
    → ((unregister id r).0 ≡ r.0) × Absent id (unregister id r).1.clients
unfolding deregister
tracked-Tracked id (x, s) = (refl, retain-Absent id s.clients)

-- A client that does not ask for the admin database is served by the pool, entered before and with
-- what the pool returns, an error included; whatever the pool and other sessions have done to the
-- statistics by then, no entry with the client's id is left.
pub forward-Tracked :
    (admin pool : PgClient → Stats → Result (Unit {0}) × Stats) (client : PgClient) (s : Stats)
    → is_admin (database client.startup_message) ≡ false
    → Tracked pool client s (forward admin pool client s)
unfolding forward
forward-Tracked admin pool client s h =
    let entered =
      register (or_empty (user client.startup_message)) (or_empty (database client.startup_message))
        s in
    rw h (tracked-Tracked entered.0 (pool client entered.1))
