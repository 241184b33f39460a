-- ===== src/Pooled/Idle.antt =====
-- When a lease returns to the pool.
use rama_pg.Bytes.{Bytes}
use rama_pg.Codec.{RawMessage, tag, payload}
use rama_pg.Codec.Tag
use rama_pg.Exec.{write_room}
use rama_pg.Pool.{
  PoolMode, session, transaction, statement, Event, from_backend, from_client, Relay, put_backend,
  Wait, waiting, ended, reset,
}
use rama_pg.Pool.Ends.{Ends, Ends-map}
use rama_pg.Pool.Reset.{
  backend_events, Quiet, arrivals, IsIdleReady, EndsIdle, Sent, reset-EndsIdle,
}
use rama_pg.Pooled.{
  relay_to_next_rfq, status_of, checked_in, discarded, LeaseEnd, after_reset, at_idle,
  in_transaction, after_relay, lease_loop, forward_first, run_lease,
}
use rama_pg.Pooled.Forward.{Forwarded, relay_to_next_rfq-Ends}
use rama_pg.Prelude.{
  ℕ, zero, suc, ◌<◌, List, [], ◌∷◌, ◌++◌, All, append_assoc, length, Option, none, some, true, ◌==◌,
  if◌then◌else◌, ◌≡◌, refl, sym, ap, ◌∙◌, Result, ok, err, ==-sound, arith, Bool-cases, inl, inr,
  subst,
}

-- Transaction and statement pooling; a session's lease is not run by `run_lease`.
abbrev pub IsRelayed : PoolMode → Type 0
IsRelayed session = ⊥
IsRelayed transaction = Unit
IsRelayed statement = Unit

-- What the backend sent after the client's last `ReadyForQuery`: nothing that was read where there is
-- no reset, else what a reset that succeeds reads.
abbrev pub Answered :
    Option Bytes → List (Result (Option RawMessage)) → List (Result (Option RawMessage)) → Type 0
Answered none after rest = after ≡ rest
Answered (some frame) after rest =
    (quiet : List RawMessage) × (m : RawMessage) × (after ≡ arrivals quiet ++ ok (some m) ∷ rest)
    × All Quiet quiet
    × IsIdleReady m

-- The backend's frames up to an idle `ReadyForQuery` and what the reset reads behind it. An empty
-- payload counts as idle in the former.
abbrev pub Idles :
    Option Bytes → List (Result (Option RawMessage)) → List (Result (Option RawMessage)) → Type 0
Idles reset_frame all rest =
    (seen : List (Result (Option RawMessage))) × (m : RawMessage) × (after : List
      (Result (Option RawMessage)))
    × (all ≡ seen ++ ok (some m) ∷ after)
    × (tag m ≡ Tag.ready_for_query)
    × (status_of (payload m) ≡ b'I')
    × Answered reset_frame after rest

abbrev pub EndsWith : Option Bytes → Bytes → Type 0
EndsWith none sent = Unit
EndsWith (some frame) sent = (before : Bytes) × (sent ≡ before ++ frame)

abbrev pub SafeEnd : Option Bytes → List Event → LeaseEnd → List Event → Relay → Type 0
SafeEnd reset_frame es (discarded, x) rest r = Unit
SafeEnd reset_frame es (checked_in, x) rest r =
    (x ≡ ok true)
    × Idles reset_frame (backend_events es) (backend_events rest)
    × EndsWith reset_frame r.backend.sent

-- The run has a result, or waits, and its end is safe.
abbrev pub Safely : Option Bytes → List Event → Option (Wait LeaseEnd) → Type 0
Safely reset_frame es none = ⊥
Safely reset_frame es (some w) = Ends (SafeEnd reset_frame es) w

backend_events-append :
    (a b : List Event) → backend_events (a ++ b) ≡ backend_events a ++ backend_events b
backend_events-append [] b = refl
backend_events-append (from_backend x ∷ a) b = ap (λ l. x ∷ l) (backend_events-append a b)
backend_events-append (from_client x ∷ a) b = backend_events-append a b

append-shorter : (a : List Event) (e : Event) (b : List Event) → length b < length (a ++ e ∷ b)
append-shorter [] e b = ground arith
append-shorter (x ∷ a) e b =
    let shorter : length b < length (a ++ e ∷ b) = append-shorter a e b in ground arith

-- Events of the backend before those of a safe end.
SafeEnd-later :
    (reset_frame : Option Bytes) (es later : List Event) (seen : List (Result (Option RawMessage)))
    → backend_events es ≡ seen ++ backend_events later
    → (x : LeaseEnd) (rest : List Event) (r : Relay) → SafeEnd reset_frame later x rest r
    → SafeEnd reset_frame es x rest r
SafeEnd-later reset_frame es later seen eq (discarded, x) rest r h = tt
SafeEnd-later reset_frame es later seen eq (checked_in, x) rest r
      (kept, (seen', m, after, eq', ready, idle, answer), sent) =
    (
      kept,
      (
        seen ++ seen',
        m,
        after,
        eq ∙ ap (λ l. seen ++ l) eq' ∙ sym (append_assoc seen seen' _),
        ready,
        idle,
        answer,
      ),
      sent,
    )

Safely-later :
    (reset_frame : Option Bytes) (es later : List Event) (seen : List (Result (Option RawMessage)))
    → backend_events es ≡ seen ++ backend_events later
    → (w : Option (Wait LeaseEnd)) → Safely reset_frame later w
    → Safely reset_frame es w
Safely-later reset_frame es later seen eq none h = h
Safely-later reset_frame es later seen eq (some w) h =
    Ends-map (SafeEnd reset_frame later) _ w (SafeEnd-later reset_frame es later seen eq) h

module _ (seen : List (Result (Option RawMessage))) (m : RawMessage) (es rest : List Event)
    (eq : backend_events es ≡ seen ++ ok (some m) ∷ backend_events rest)
    (ready : tag m ≡ Tag.ready_for_query) (idle : status_of (payload m) ≡ b'I') where
  after_reset-Ends :
      (frame : Bytes) (r : Relay) (w : Wait (Result (Unit {0})))
      → Ends (λ x last r'. EndsIdle rest x last × Sent frame r x r' × (r'.client ≡ r.client)) w
      → Ends (SafeEnd (some frame) es) (after_reset w)
  after_reset-Ends frame r (waiting r') h = tt
  after_reset-Ends frame r (ended (err e) last r') h = tt
  after_reset-Ends frame r (ended (ok u) last r')
        ((quiet, m', backend, all_quiet, client, ready'), sent, same) =
      (
        refl,
        (seen, m, backend_events rest, eq, ready, idle, (quiet, m', backend, all_quiet, ready')),
        (r.backend.sent, sent),
      )

  -- At an idle boundary: the frame `m` said so.
  at_idle-Safely :
      (reset_frame : Option Bytes) (r : Relay)
      → Ends (SafeEnd reset_frame es) (at_idle reset_frame rest r)
  at_idle-Safely none r = (refl, (seen, m, backend_events rest, eq, ready, idle, refl), tt)
  at_idle-Safely (some frame) r =
      after_reset-Ends frame r (reset frame rest r) (reset-EndsIdle frame rest r)

module _ (reset_frame : Option Bytes) where
  abbrev Next : ℕ → (List Event → Relay → Option (Wait LeaseEnd)) → Type 0
  Next n next = (es : List Event) (r : Relay) → length es < n → Safely reset_frame es (next es r)

  in_transaction-Safely :
      (mode : PoolMode)
      → IsRelayed mode
      → (next : List Event → Relay → Option (Wait LeaseEnd)) (es rest : List Event) (r : Relay)
      → Safely reset_frame es (next rest r)
      → Safely reset_frame es (in_transaction mode next rest r)
  in_transaction-Safely session is next es rest r h = elim is [ ]
  in_transaction-Safely transaction is next es rest r h = h
  in_transaction-Safely statement is next es rest r h = tt

  after_relay-Safely :
      (mode : PoolMode)
      → IsRelayed mode
      → (n : ℕ) (next : List Event → Relay → Option (Wait LeaseEnd)) → Next n next
      → (es : List Event) (r : Relay) → length es < suc n
      → (w : Wait (Result (Option ℕ))) → Ends (Forwarded es r) w
      → Safely reset_frame es (after_relay mode reset_frame next w)
  after_relay-Safely mode is n next safe es r fuel (waiting r') h = tt
  after_relay-Safely mode is n next safe es r fuel (ended (err e) rest r') h = tt
  after_relay-Safely mode is n next safe es r fuel (ended (ok none) rest r') h = tt
  after_relay-Safely mode is n next safe es r fuel (ended (ok (some status)) rest r')
        (used, m, eq, all, ready, at, sent, sent_back) =
      let seen_eq : backend_events es ≡ backend_events used ++ ok (some m) ∷ backend_events rest =
        ap backend_events eq ∙ backend_events-append used _ in
      let shorter : length rest < length es =
        subst (λ l. length rest < length l) (sym eq) (append-shorter used _ rest) in
      let less : length rest < n = omega arith in
      elim (Bool-cases (status == b'I')) [
        | inl idle ↦
            subst
              (λ b. Safely reset_frame es (
                if b then some (at_idle reset_frame rest r') else in_transaction mode next rest r'))
              (sym idle)
              (at_idle-Safely (backend_events used) m es rest seen_eq ready (at ∙ ==-sound idle)
                reset_frame r')
        | inr busy ↦
            subst
              (λ b. Safely reset_frame es (
                if b then some (at_idle reset_frame rest r') else in_transaction mode next rest r'))
              (sym busy)
              (in_transaction-Safely mode is next es rest r' (
                Safely-later reset_frame es rest (backend_events used ++ ok (some m) ∷ [])
                  (seen_eq ∙ sym (append_assoc (backend_events used) (ok (some m) ∷ []) _))
                  (next rest r') (safe rest r' less)))
      ]

  lease_loop-Safely :
      (mode : PoolMode)
      → IsRelayed mode
      → (n : ℕ) (es : List Event) (r : Relay) → length es < n
      → Safely reset_frame es (lease_loop n mode reset_frame es r)
  unfolding lease_loop
  lease_loop-Safely mode is zero es r fuel = ground arith
  lease_loop-Safely mode is (suc n) es r fuel =
      after_relay-Safely mode is n (lease_loop n mode reset_frame) (lease_loop-Safely mode is n) es
        r fuel (relay_to_next_rfq es r) (relay_to_next_rfq-Ends es r)

  forward_first-Safely :
      (bs : Bytes) (es : List Event) (next : Relay → Option (Wait LeaseEnd)) (r : Relay)
      → ((r : Relay) → Safely reset_frame es (next r))
      → (k : ℕ)
      → Safely reset_frame es (forward_first (put_backend r (write_room k bs r.backend)) es next)
  forward_first-Safely bs es next r h zero = tt
  forward_first-Safely bs es next r h (suc k) = h _

  -- In transaction and statement pooling, whatever the two sides send: the fuel is enough, and a
  -- lease is checked in only behind an idle `ReadyForQuery` of the backend, and with the client still
  -- served. Where a reset is configured it was sent last, and of the backend's frames behind that
  -- `ReadyForQuery` only the next one was read, which is idle too, and the frames before it, of which
  -- none is an `ErrorResponse`. That this next one answers the reset, and not a query that the client
  -- sent ahead, is not stated.
  pub run_lease-Safely :
      (first : Bytes) (mode : PoolMode)
      → IsRelayed mode
      → (es : List Event) (r : Relay)
      → Safely reset_frame es (run_lease first mode reset_frame es r)
  unfolding run_lease
  run_lease-Safely first mode is es r =
      forward_first-Safely first es _ r
        (λ r1.
          forward_first-Safely [] es _ r1
            (λ r2. lease_loop-Safely mode is (suc (length es)) es r2 (ground arith))
            r1.backend.room)
        r.backend.room
