-- ===== src/Pooled.antt =====
-- src/proxy/pooled.rs: the relay of transaction and statement pooling. The order in which `select!`
-- sees frames is the order of a list of events.
pub mod Forward
pub mod Idle
pub mod Serve
pub mod Shorter
use rama_pg.Bytes.{Bytes}
use rama_pg.Codec.{RawMessage, tag, payload}
use rama_pg.Codec.Tag
use rama_pg.Exec.{write_all, flush}
use rama_pg.Pool.{
  PoolMode, session, transaction, statement, Event, from_backend, from_client, Relay, on_client,
  on_backend, Wait, waiting, ended, step, reset,
}
use rama_pg.Prelude.{
  ℕ, zero, suc, List, [], ◌∷◌, length, Option, none, some, Bool, true, false, ◌==◌, if◌then◌else◌,
  message, Result, ok, err,
}

-- `msg.payload().first().copied().unwrap_or(b'I')`
abbrev pub status_of : Bytes → ℕ
status_of [] = b'I'
status_of (b ∷ bs) = b

-- A frame of the backend, in `relay_to_next_rfq`.
abbrev pub backend_frame :
    RawMessage → List Event → (Relay → Wait (Result (Option ℕ))) → Relay → Wait (Result (Option ℕ))
backend_frame m es next r = step (on_client (write_all m.frame) r) es λ r.
    if tag m == Tag.ready_for_query
    then step (on_client flush r) es (λ r. ended (ok (some (status_of (payload m)))) es r)
    else if tag m == Tag.error_response
    then step (on_client flush r) es next
    else next r

abbrev pub ignore_write : Result (Unit {0}) × Relay → List Event → Wait (Result (Option ℕ))
ignore_write (x, r) es = ended (ok none) es r

-- A frame of the client, in `relay_to_next_rfq`.
abbrev pub client_frame :
    RawMessage → List Event → (Relay → Wait (Result (Option ℕ))) → Relay → Wait (Result (Option ℕ))
client_frame m es next r =
    if tag m == Tag.terminate
    then ignore_write (on_backend (write_all m.frame) r) es
    else step (on_backend (write_all m.frame) r) es λ r. step (on_backend flush r) es next

-- `relay_to_next_rfq`
unfoldable pub relay_to_next_rfq : List Event → Relay → Wait (Result (Option ℕ))
relay_to_next_rfq [] r = waiting r
relay_to_next_rfq (from_backend (err e) ∷ es) r = ended (err e) es r
relay_to_next_rfq (from_backend (ok none) ∷ es) r =
    ended (err (message "backend closed mid-statement")) es r
relay_to_next_rfq (from_backend (ok (some m)) ∷ es) r = backend_frame m es (relay_to_next_rfq es) r
relay_to_next_rfq (from_client (err e) ∷ es) r = ended (err e) es r
relay_to_next_rfq (from_client (ok none) ∷ es) r = ended (ok none) es r
relay_to_next_rfq (from_client (ok (some m)) ∷ es) r = client_frame m es (relay_to_next_rfq es) r

-- What becomes of the lease: `Lease::checkin` or `Lease::discard`.
pub data Disposition : Type 0 where
  checked_in : Disposition
  discarded : Disposition

-- The lease's fate, and what `run_lease` returns.
abbrev pub LeaseEnd : Type 0
LeaseEnd = Disposition × Result Bool

-- The end of the reset at an idle boundary.
abbrev pub after_reset : Wait (Result (Unit {0})) → Wait LeaseEnd
after_reset (waiting r) = waiting r
after_reset (ended (ok u) es r) = ended (checked_in, ok true) es r
after_reset (ended (err e) es r) = ended (discarded, ok true) es r

abbrev pub at_idle : Option Bytes → List Event → Relay → Wait LeaseEnd
at_idle none es r = ended (checked_in, ok true) es r
at_idle (some frame) es r = after_reset (reset frame es r)

-- The backend is still in a transaction block. A session never comes here.
abbrev in_transaction :
    PoolMode
    → (List Event → Relay → Option (Wait LeaseEnd))
    → List Event
    → Relay
    → Option (Wait LeaseEnd)
in_transaction transaction next es r = next es r
in_transaction statement next es r = some (ended (discarded, ok true) es r)
in_transaction session next es r = none

-- One turn of the loop of `run_lease`, after `relay_to_next_rfq`.
abbrev pub after_relay :
    PoolMode
    → Option Bytes
    → (List Event → Relay → Option (Wait LeaseEnd))
    → Wait (Result (Option ℕ))
    → Option (Wait LeaseEnd)
after_relay mode reset_frame next (waiting r) = some (waiting r)
after_relay mode reset_frame next (ended (err e) es r) = some (ended (discarded, err e) es r)
after_relay mode reset_frame next (ended (ok none) es r) = some (ended (discarded, ok false) es r)
after_relay mode reset_frame next (ended (ok (some status)) es r) =
    if status == b'I' then some (at_idle reset_frame es r) else in_transaction mode next es r

-- The loop of `run_lease`, on fuel. It has no result where the fuel runs out, or where the source
-- has `unreachable!`.
unfoldable pub lease_loop :
    ℕ → PoolMode → Option Bytes → List Event → Relay → Option (Wait LeaseEnd)
lease_loop zero mode reset_frame es r = none
lease_loop (suc n) mode reset_frame es r =
    after_relay mode reset_frame (lease_loop n mode reset_frame) (relay_to_next_rfq es r)

-- `forward_first`, and the discard where it fails.
abbrev pub forward_first :
    Result (Unit {0}) × Relay
    → List Event
    → (Relay → Option (Wait LeaseEnd))
    → Option (Wait LeaseEnd)
forward_first (err e, r) es next = some (ended (discarded, err e) es r)
forward_first (ok u, r) es next = next r

-- `run_lease`, with fuel for one turn per event and one more.
unfoldable pub run_lease :
    Bytes → PoolMode → Option Bytes → List Event → Relay → Option (Wait LeaseEnd)
run_lease first mode reset_frame es r = forward_first (on_backend (write_all first) r) es λ r.
    forward_first (on_backend flush r) es λ r. lease_loop (suc (length es)) mode reset_frame es r
