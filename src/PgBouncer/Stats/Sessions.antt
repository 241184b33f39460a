-- ===== src/PgBouncer/Stats/Sessions.antt =====
-- Interleaved sessions against an abstract list of those that are open.
use rama_pg.Bytes.{Bytes}
use rama_pg.Pool.{PoolMode}
use rama_pg.PgBouncer.Stats.{
  ClientEntry, Stats, new, draw_id, count_connection, push_client, retain, deregister, active,
}
use rama_pg.Prelude.{
  ℕ, zero, suc, ◌+◌, ◌^◌, ◌<◌, ◌≤◌, List, [], ◌∷◌, ◌++◌, length, length-append, length-map, map,
  get_elem?, Option, none, some, true, false, ◌==◌, if◌then◌else◌, ◌≡◌, refl, sym, ap, ◌∙◌, arith,
  Bool-cases, inl, inr,
}

abbrev pub Role : Type 0
Role = Bytes × Bytes

-- What sessions do to the statistics, each of it at once: one more draws its id, some session counts
-- its connection, and session `k`, by the order in which the ids were drawn, from 0, pushes its entry
-- or closes.
pub data Operation : Type 0 where
  drew : Bytes → Bytes → Operation
  counted : Operation
  pushed : ℕ → Operation
  closed : ℕ → Operation

-- The statistics, and the sessions' own ids and roles, in the order in which the ids were drawn.
pub record Running : Type 0 where
  pub stats : Stats
  pub drawn : List (ℕ × Role)

abbrev keep_id : Running → Role → ℕ × Stats → Running
keep_id r role (id, stats) = record { stats = stats; drawn = r.drawn ++ (id, role) ∷ [] }

abbrev push_entry : Running → Option (ℕ × Role) → Running
push_entry r none = r
push_entry r (some (id, (user, database))) = record r {
  stats = push_client id user database r.stats;
}

abbrev close_id : Running → Option (ℕ × Role) → Running
close_id r none = r
close_id r (some (id, role)) = record r { stats = deregister id r.stats }

abbrev perform : Operation → Running → Running
perform (drew user database) r = keep_id r (user, database) (draw_id r.stats)
perform counted r = record r { stats = count_connection r.stats }
perform (pushed k) r = push_entry r (get_elem? r.drawn k)
perform (closed k) r = close_id r (get_elem? r.drawn k)

abbrev pub perform_all : List Operation → Running → Running
perform_all [] r = r
perform_all (op ∷ ops) r = perform_all ops (perform op r)

-- The abstract view: the roles of the sessions, how many connections were counted, and which
-- sessions are listed, by their numbers and in the order in which their entries were pushed.
pub record Sessions : Type 0 where
  pub roles : List Role
  pub connections : ℕ
  pub live : List (ℕ × Role)

abbrev pub without : ℕ → List (ℕ × Role) → List (ℕ × Role)
without k [] = []
without k ((j, role) ∷ live) =
    let rest = without k live in if j == k then rest else (j, role) ∷ rest

abbrev list_role : ℕ → Sessions → Option Role → Sessions
list_role k s none = s
list_role k s (some role) = record s { live = s.live ++ (k, role) ∷ [] }

abbrev drop_role : ℕ → Sessions → Option Role → Sessions
drop_role k s none = s
drop_role k s (some role) = record s { live = without k s.live }

abbrev pub specify : Operation → Sessions → Sessions
specify (drew user database) s = record s { roles = s.roles ++ (user, database) ∷ [] }
specify counted s = record s { connections = suc s.connections }
specify (pushed k) s = list_role k s (get_elem? s.roles k)
specify (closed k) s = drop_role k s (get_elem? s.roles k)

abbrev pub specify_all : List Operation → Sessions → Sessions
specify_all [] s = s
specify_all (op ∷ ops) s = specify_all ops (specify op s)

-- The entry of session `k`: its id is `k + 1`.
abbrev pub entry : ℕ × Role → ClientEntry
entry (k, (user, database)) = record { id = suc k; user_name = user; database_name = database }

-- The ids that sessions from number `k` on have drawn.
abbrev pub numbered : ℕ → List Role → List (ℕ × Role)
numbered k [] = []
numbered k (role ∷ roles) = (suc k, role) ∷ numbered (suc k) roles

-- The statistics show the sessions.
abbrev pub Shows : Running → Sessions → Type 0
Shows r s =
    (r.stats.clients ≡ map entry s.live)
    × (r.stats.total_connections ≡ s.connections)
    × (r.stats.next_id ≡ suc (length s.roles))
    × (r.drawn ≡ numbered 0 s.roles)

numbered-snoc :
    (k : ℕ) (roles : List Role) (role : Role)
    → numbered k (roles ++ role ∷ []) ≡ numbered k roles ++ (suc (k + length roles), role) ∷ []
numbered-snoc k [] role = let e : suc k ≡ suc (k + 0) = omega arith in rw e refl
numbered-snoc k (x ∷ roles) role =
    let e : suc (suc k + length roles) ≡ suc (k + suc (length roles)) = omega arith in
    ap (λ l. (suc k, x) ∷ l)
      (numbered-snoc (suc k) roles role ∙ ap (λ n. numbered (suc k) roles ++ (n, role) ∷ []) e)

abbrev label : ℕ → Option Role → Option (ℕ × Role)
label k none = none
label k (some role) = some (suc k, role)

get_elem?-numbered :
    (start : ℕ) (roles : List Role) (k : ℕ)
    → get_elem? (numbered start roles) k ≡ label (start + k) (get_elem? roles k)
get_elem?-numbered start [] k = refl
get_elem?-numbered start (x ∷ roles) zero =
    let e : start ≡ start + 0 = omega arith in ap (λ n. some (suc n, x)) e
get_elem?-numbered start (x ∷ roles) (suc k) =
    let e : suc start + k ≡ start + suc k = omega arith in
    get_elem?-numbered (suc start) roles k ∙ ap (λ n. label n (get_elem? roles k)) e

plus_zero : (n : ℕ) → n ≡ 0 + n
plus_zero n = omega arith

get_elem?-ids :
    (roles : List Role) (k : ℕ) → get_elem? (numbered 0 roles) k ≡ label k (get_elem? roles k)
get_elem?-ids roles k =
    get_elem?-numbered 0 roles k ∙ ap (λ n. label n (get_elem? roles k)) (sym (plus_zero k))

retain-map :
    (k : ℕ) (live : List (ℕ × Role)) → retain (suc k) (map entry live) ≡ map entry (without k live)
unfolding retain
retain-map k [] = refl
retain-map k ((j, role) ∷ live) = elim (Bool-cases (j == k)) [
  | inl e ↦ let e' : suc j == suc k ≡ true = ground arith in rw (e, e', retain-map k live)
  | inr e ↦ let e' : suc j == suc k ≡ false = ground arith in rw (e, e', retain-map k live)
]

map-snoc :
    (live : List (ℕ × Role)) (x : ℕ × Role)
    → map entry (live ++ x ∷ []) ≡ map entry live ++ entry x ∷ []
map-snoc [] x = refl
map-snoc (y ∷ live) x = ap (◌∷◌ (entry y)) (map-snoc live x)

push_entry-Shows :
    (r : Running) (s : Sessions) (k : ℕ)
    → Shows r s
    → (role : Option Role) → Shows (push_entry r (label k role)) (list_role k s role)
unfolding push_client
push_entry-Shows r s k h none = h
push_entry-Shows r s k (clients, total, next, drawn) (some (user, database)) = (
  ap (λ l. l ++ entry (k, (user, database)) ∷ []) clients
      ∙ sym (map-snoc s.live (k, (user, database))),
  total,
  next,
  drawn,
)

close_id-Shows :
    (r : Running) (s : Sessions) (k : ℕ)
    → Shows r s
    → (role : Option Role) → Shows (close_id r (label k role)) (drop_role k s role)
unfolding deregister
close_id-Shows r s k h none = h
close_id-Shows r s k (clients, total, next, drawn) (some role) =
    (ap (retain (suc k)) clients ∙ retain-map k s.live, total, next, drawn)

perform-Shows :
    (op : Operation) (r : Running) (s : Sessions)
    → suc (suc (length s.roles)) < 2 ^ 64
    → suc s.connections < 2 ^ 64
    → Shows r s
    → Shows (perform op r) (specify op s)
unfolding draw_id count_connection
perform-Shows (drew user database) r s b b' (clients, total, next, drawn) = (
  clients,
  total,
  rw next (omega (arith, length-append s.roles ((user, database) ∷ []))),
  ap (λ l. l ++ (r.stats.next_id, (user, database)) ∷ []) drawn
      ∙ ap (λ n. numbered 0 s.roles ++ (n, (user, database)) ∷ []) next
      ∙ ap (λ n. numbered 0 s.roles ++ (suc n, (user, database)) ∷ []) (plus_zero (length s.roles))
      ∙ sym (numbered-snoc 0 s.roles (user, database)),
)
perform-Shows counted r s b b' (clients, total, next, drawn) =
    (clients, rw total (omega arith), next, drawn)
perform-Shows (pushed k) r s b b' h =
    let (clients, total, next, drawn) = h in
    let found : get_elem? r.drawn k ≡ label k (get_elem? s.roles k) =
      ap (λ l. get_elem? l k) drawn ∙ get_elem?-ids s.roles k in
    rw found (push_entry-Shows r s k h (get_elem? s.roles k))
perform-Shows (closed k) r s b b' h =
    let (clients, total, next, drawn) = h in
    let found : get_elem? r.drawn k ≡ label k (get_elem? s.roles k) =
      ap (λ l. get_elem? l k) drawn ∙ get_elem?-ids s.roles k in
    rw found (close_id-Shows r s k h (get_elem? s.roles k))

-- A start with no sessions.
abbrev pub no_sessions : Sessions
no_sessions = record { roles = []; connections = 0; live = [] }

abbrev pub start : PoolMode → ℕ → List Bytes → Running
start mode max_size replicas = record { stats = new mode max_size replicas; drawn = [] }

list_role-same :
    (k : ℕ) (s : Sessions) (role : Option Role)
    → (length (list_role k s role).roles ≡ length s.roles)
      × ((list_role k s role).connections ≡ s.connections)
list_role-same k s none = (refl, refl)
list_role-same k s (some role) = (refl, refl)

drop_role-same :
    (k : ℕ) (s : Sessions) (role : Option Role)
    → (length (drop_role k s role).roles ≡ length s.roles)
      × ((drop_role k s role).connections ≡ s.connections)
drop_role-same k s none = (refl, refl)
drop_role-same k s (some role) = (refl, refl)

specify-grows :
    (op : Operation) (s : Sessions)
    → (length (specify op s).roles ≤ suc (length s.roles))
      × ((specify op s).connections ≤ suc s.connections)
specify-grows (drew user database) s =
    (omega (arith, length-append s.roles ((user, database) ∷ [])), omega arith)
specify-grows counted s = (omega arith, omega arith)
specify-grows (pushed k) s =
    let (roles, connections) = list_role-same k s (get_elem? s.roles k) in
    (omega (arith, roles), omega (arith, connections))
specify-grows (closed k) s =
    let (roles, connections) = drop_role-same k s (get_elem? s.roles k) in
    (omega (arith, roles), omega (arith, connections))

perform_all-Shows :
    (ops : List Operation) (r : Running) (s : Sessions)
    → length s.roles + length ops + 1 < 2 ^ 64
    → s.connections + length ops + 1 < 2 ^ 64
    → Shows r s
    → Shows (perform_all ops r) (specify_all ops s)
perform_all-Shows [] r s b b' h = h
perform_all-Shows (op ∷ ops) r s b b' h =
    let (roles, connections) = specify-grows op s in
    perform_all-Shows ops (perform op r) (specify op s) (omega (arith, roles))
      (omega (arith, connections)) (perform-Shows op r s (omega arith) (omega arith) h)

-- However the steps of sessions interleave, short of 2^64 steps, the statistics list exactly the
-- sessions whose entries were pushed and not removed, in the order of the pushes, each with the id
-- that it drew, which is one more than its number in the order of the draws, and count every
-- connection that was counted.
pub perform_all_refines :
    (mode : PoolMode) (max_size : ℕ) (replicas : List Bytes) (ops : List Operation)
    → length ops + 1 < 2 ^ 64
    → Shows (perform_all ops (start mode max_size replicas)) (specify_all ops no_sessions)
      × (active (perform_all ops (start mode max_size replicas)).stats
          ≡ length (specify_all ops no_sessions).live)
unfolding active
perform_all_refines mode max_size replicas ops b =
    let r = perform_all ops (start mode max_size replicas) in
    let s = specify_all ops no_sessions in
    let shows : Shows r s =
      perform_all-Shows ops (start mode max_size replicas) no_sessions (omega arith) (omega arith)
        (refl, refl, refl, refl) in
    (shows, ap length shows.0 ∙ length-map entry s.live)
