-- ===== src/Pool.antt =====
-- src/pool.rs: what the pool decides. Frames that a peer sends are events, in the order in which the
-- tasks see them; rama's pool itself, and the dialling, are not modelled.
pub mod Connector
pub mod Ends
pub mod Leases
pub mod Reset
use rama_pg.Bytes.{Bytes, i32_at, codes}
use rama_pg.Codec.{RawMessage, tag, payload, frame}
use rama_pg.Codec.Tag
use rama_pg.Exec.{Exec, Conn, write_all, flush}
use rama_pg.Prelude.Int.{ℤ, negsuc}
use rama_pg.Prelude.{
  ℕ, suc, ◌+◌, ◌%◌, ◌^◌, List, [], ◌∷◌, ◌++◌, length, Option, none, some, Bool, true, false, ◌==◌,
  leb, if◌then◌else◌, Error, message, unexpected_eof, Result, ok, err, get_or,
}

pub data PoolMode : Type 0 where
  session : PoolMode
  transaction : PoolMode
  statement : PoolMode

-- `auth_subtype`
unfoldable pub auth_subtype : RawMessage → ℤ
auth_subtype m = if leb 4 (length (payload m)) then i32_at (payload m) else negsuc 0

-- What a `read_frame` that a task awaits resolves to: a frame, a clean end, or an error.
pub data Event : Type 0 where
  from_backend : Result (Option RawMessage) → Event
  from_client : Result (Option RawMessage) → Event

-- The two connections of a relay. Where a relay waits for both at once, what arrives is a list of
-- events, and the `input` of the connections plays no part.
pub record Relay : Type 0 where
  pub client : Conn
  pub backend : Conn

abbrev pub put_client {ℓ} : {A : Type ℓ} → Relay → Result A × Conn → Result A × Relay
put_client r (x, c) = (x, record r { client = c })

abbrev pub put_backend {ℓ} : {A : Type ℓ} → Relay → Result A × Conn → Result A × Relay
put_backend r (x, c) = (x, record r { backend = c })

abbrev pub on_client {ℓ} : {A : Type ℓ} → Exec Conn A → Exec Relay A
on_client m r = put_client r (m r.client)

abbrev pub on_backend {ℓ} : {A : Type ℓ} → Exec Conn A → Exec Relay A
on_backend m r = put_backend r (m r.backend)

-- A wait on a backend or a client: it goes on, or it ends with the events that are left.
pub data Wait {ℓ} (A : Type ℓ) : Type ℓ where
  waiting : Relay → Wait A
  ended : A → List Event → Relay → Wait A

-- `?` in a wait.
abbrev pub step {ℓ} :
    {A : Type ℓ}
    → Result (Unit {0}) × Relay
    → List Event
    → (Relay → Wait (Result A))
    → Wait (Result A)
step (err e, r) es next = ended (err e) es r
step (ok u, r) es next = next r

-- A client's event that the reset does not read stays where it is.
abbrev pub keep {ℓ} : {A : Type ℓ} → Event → Wait A → Wait A
keep e (waiting r) = waiting r
keep e (ended a es r) = ended a (e ∷ es) r

-- `msg.payload().first() == Some(b'I')`
abbrev pub is_idle : Bytes → Bool
is_idle [] = false
is_idle (b ∷ bs) = b == b'I'

abbrev pub reset_answer : Bool → Result (Unit {0})
reset_answer true = ok tt
reset_answer false = err (message "reset query left the backend in a transaction")

-- The answers to the reset query.
unfoldable pub drain : List Event → Relay → Wait (Result (Unit {0}))
drain [] r = waiting r
drain (from_client e ∷ es) r = keep (from_client e) (drain es r)
drain (from_backend (err e) ∷ es) r = ended (err e) es r
drain (from_backend (ok none) ∷ es) r = ended (err unexpected_eof) es r
drain (from_backend (ok (some m)) ∷ es) r =
    let rest = drain es r in
    if tag m == Tag.ready_for_query
    then ended (reset_answer (is_idle (payload m))) es r
    else if tag m == Tag.error_response
    then ended (err (message "reset query failed")) es r
    else rest

-- `Lease::reset`
unfoldable pub reset : Bytes → List Event → Relay → Wait (Result (Unit {0}))
reset reset_frame es r =
    step (on_backend (write_all reset_frame) r) es λ r. step (on_backend flush r) es λ r. drain es r

-- The reset query that the pool is built with.
abbrev pub discard_all : Bytes
discard_all = frame Tag.query (codes "DISCARD ALL" ++ 0 ∷ [])

-- `next_replica`: the counter is a `usize` that wraps.
unfoldable pub next_replica {ℓ} : {A : Type ℓ} → A → List A → ℕ → A × ℕ
next_replica default replicas next =
    (get_or replicas (next % length replicas) default, (next + 1) % 2 ^ 64)
