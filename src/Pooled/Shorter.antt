-- ===== src/Pooled/Shorter.antt =====
-- A lease leaves no more events than it was given.
use rama_pg.Bytes.{Bytes}
use rama_pg.Codec.{tag}
use rama_pg.Codec.Tag
use rama_pg.Exec.{write_room}
use rama_pg.Pool.{
  PoolMode, session, transaction, statement, Event, from_backend, from_client, Relay, put_backend,
  Wait, waiting, ended, drain, reset,
}
use rama_pg.Pool.Ends.{Ends, if-Ends, Ends-map, keep-Ends, write_backend-Ends, write_client-Ends}
use rama_pg.Pooled.{
  relay_to_next_rfq, LeaseEnd, after_reset, at_idle, in_transaction, after_relay, lease_loop,
  forward_first, run_lease,
}
use rama_pg.Prelude.{
  ℕ, zero, suc, ◌≤◌, List, [], ◌∷◌, length, Option, none, some, ◌==◌, if◌then◌else◌, true, false,
  Result, ok, err, arith, Bool,
}

-- At the end of a wait, as many events are left as in `es`, or fewer.
abbrev pub Within {ℓ} : {A : Type ℓ} → List Event → Wait A → Type 0
Within es w = Ends (λ x rest r. length rest ≤ length es) w

later {ℓ} :
    {A : Type ℓ} (e : Event) (es : List Event) (w : Wait A) → Within es w → Within (e ∷ es) w
later e es w h =
    Ends-map (λ x rest r. length rest ≤ length es) (λ x rest r. length rest ≤ length (e ∷ es)) w
      (λ x rest r less. omega arith) h

drain-Within : (es : List Event) (r : Relay) → Within es (drain es r)
unfolding drain
drain-Within [] r = tt
drain-Within (from_client e ∷ es) r =
    keep-Ends (λ x rest r. length rest ≤ length es) _ (from_client e) (drain es r)
      (λ x rest r less. omega arith) (drain-Within es r)
drain-Within (from_backend (err e) ∷ es) r = omega arith
drain-Within (from_backend (ok none) ∷ es) r = omega arith
drain-Within (from_backend (ok (some m)) ∷ es) r =
    if-Ends _ (tag m == Tag.ready_for_query) _ _ (λ e. omega arith)
      λ e.
        if-Ends _ (tag m == Tag.error_response) _ _ (λ e. omega arith)
          (λ e. later (from_backend (ok (some m))) es (drain es r) (drain-Within es r))

reset-Within : (frame : Bytes) (es : List Event) (r : Relay) → Within es (reset frame es r)
unfolding reset
reset-Within frame es r =
    write_backend-Ends _ frame r es _ (λ e. omega arith)
      λ r1 sent same.
        write_backend-Ends _ [] r1 es _ (λ e. omega arith) λ r2 sent same. drain-Within es r2

relay_to_next_rfq-Within : (es : List Event) (r : Relay) → Within es (relay_to_next_rfq es r)
unfolding relay_to_next_rfq
relay_to_next_rfq-Within [] r = tt
relay_to_next_rfq-Within (from_backend (err e) ∷ es) r = omega arith
relay_to_next_rfq-Within (from_backend (ok none) ∷ es) r = omega arith
relay_to_next_rfq-Within (from_backend (ok (some m)) ∷ es) r =
    let next : (r : Relay) → Within (from_backend (ok (some m)) ∷ es) (relay_to_next_rfq es r) =
      λ r.
        later (from_backend (ok (some m))) es (relay_to_next_rfq es r)
          (relay_to_next_rfq-Within es r) in
    write_client-Ends _ m.frame r es _ (λ e. omega arith)
      λ r1 sent same.
        if-Ends _ (tag m == Tag.ready_for_query) _ _
          (λ e. write_client-Ends _ [] r1 es _ (λ e. omega arith) λ r2 sent same. omega arith)
          λ e.
            if-Ends _ (tag m == Tag.error_response) _ _
              (λ e. write_client-Ends _ [] r1 es _ (λ e. omega arith) λ r2 sent same. next r2)
              (λ e. next r1)
relay_to_next_rfq-Within (from_client (err e) ∷ es) r = omega arith
relay_to_next_rfq-Within (from_client (ok none) ∷ es) r = omega arith
relay_to_next_rfq-Within (from_client (ok (some m)) ∷ es) r =
    if-Ends _ (tag m == Tag.terminate) _ _ (λ e. omega arith)
      λ e.
        write_backend-Ends _ m.frame r es _ (λ e. omega arith)
          λ r1 sent same.
            write_backend-Ends _ [] r1 es _ (λ e. omega arith)
              λ r2 sent same.
                later (from_client (ok (some m))) es (relay_to_next_rfq es r2)
                  (relay_to_next_rfq-Within es r2)

-- The same of a run on fuel, where it has a result.
abbrev pub Fewer : List Event → Option (Wait LeaseEnd) → Type 0
Fewer es none = Unit
Fewer es (some w) = Within es w

after_reset-Within :
    (es : List Event) (w : Wait (Result (Unit {0}))) → Within es w → Within es (after_reset w)
after_reset-Within es (waiting r) h = h
after_reset-Within es (ended (ok u) rest r) h = h
after_reset-Within es (ended (err e) rest r) h = h

at_idle-Within :
    (frame : Option Bytes) (es : List Event) (r : Relay) → Within es (at_idle frame es r)
at_idle-Within none es r = omega arith
at_idle-Within (some frame) es r =
    after_reset-Within es (reset frame es r) (reset-Within frame es r)

Fewer-map :
    (es rest : List Event) (w : Option (Wait LeaseEnd))
    → length rest ≤ length es
    → Fewer rest w
    → Fewer es w
Fewer-map es rest none less h = tt
Fewer-map es rest (some w) less h =
    Ends-map (λ x r' r. length r' ≤ length rest) (λ x r' r. length r' ≤ length es) w
      (λ x r' r l. omega arith) h

if-Fewer :
    (es : List Event) (b : Bool) (t e : Option (Wait LeaseEnd))
    → Fewer es t
    → Fewer es e
    → Fewer es (if b then t else e)
if-Fewer es true t e h k = h
if-Fewer es false t e h k = k

module _ (mode : PoolMode) (reset_frame : Option Bytes) where
  in_transaction-Fewer :
      (m : PoolMode) (next : List Event → Relay → Option (Wait LeaseEnd)) (es : List Event)
      (r : Relay)
      → Fewer es (next es r)
      → Fewer es (in_transaction m next es r)
  in_transaction-Fewer session next es r h = tt
  in_transaction-Fewer transaction next es r h = h
  in_transaction-Fewer statement next es r h = omega arith

  after_relay-Fewer :
      (next : List Event → Relay → Option (Wait LeaseEnd)) (es : List Event)
      → ((es : List Event) (r : Relay) → Fewer es (next es r))
      → (w : Wait (Result (Option ℕ))) → Within es w
      → Fewer es (after_relay mode reset_frame next w)
  after_relay-Fewer next es safe (waiting r) h = tt
  after_relay-Fewer next es safe (ended (err e) rest r) h = h
  after_relay-Fewer next es safe (ended (ok none) rest r) h = h
  after_relay-Fewer next es safe (ended (ok (some status)) rest r) h = Fewer-map es rest _ h (
      if-Fewer rest (status == b'I') _ _ (at_idle-Within reset_frame rest r)
        (in_transaction-Fewer mode next rest r (safe rest r)))

  lease_loop-Fewer :
      (n : ℕ) (es : List Event) (r : Relay) → Fewer es (lease_loop n mode reset_frame es r)
  unfolding lease_loop
  lease_loop-Fewer zero es r = tt
  lease_loop-Fewer (suc n) es r =
      after_relay-Fewer (lease_loop n mode reset_frame) es (lease_loop-Fewer n)
        (relay_to_next_rfq es r) (relay_to_next_rfq-Within es r)

  forward_first-Fewer :
      (bs : Bytes) (es : List Event) (next : Relay → Option (Wait LeaseEnd)) (r : Relay)
      → ((r : Relay) → Fewer es (next r))
      → (k : ℕ) → Fewer es (forward_first (put_backend r (write_room k bs r.backend)) es next)
  forward_first-Fewer bs es next r h zero = omega arith
  forward_first-Fewer bs es next r h (suc k) = h _

  pub run_lease-Fewer :
      (first : Bytes) (es : List Event) (r : Relay)
      → Fewer es (run_lease first mode reset_frame es r)
  unfolding run_lease
  run_lease-Fewer first es r =
      forward_first-Fewer first es _ r
        (λ r1.
          forward_first-Fewer [] es _ r1 (λ r2. lease_loop-Fewer (suc (length es)) es r2)
            r1.backend.room)
        r.backend.room
