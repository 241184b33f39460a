-- ===== src/Pool/Reset.antt =====
-- What a reset that succeeds has read from the backend.
use rama_pg.Bytes.{Bytes}
use rama_pg.Codec.{RawMessage, tag, payload}
use rama_pg.Codec.Tag
use rama_pg.Pool.{Event, from_backend, from_client, Relay, drain, reset, is_idle, reset_answer}
use rama_pg.Pool.Ends.{Ends, if-Ends, Ends-map, keep-Ends, write_backend-Ends}
use rama_pg.Prelude.{
  List, [], ◌∷◌, ◌++◌, All, ◌≢◌, arith, Option, none, some, Bool, true, false, ◌==◌, ◌≡◌, refl, ap,
  ◌∙◌, append-nil, ==-sound, Result, ok, err,
}

-- What the backend sends, in order.
abbrev pub backend_events : List Event → List (Result (Option RawMessage))
backend_events [] = []
backend_events (from_backend x ∷ es) = x ∷ backend_events es
backend_events (from_client x ∷ es) = backend_events es

-- What the client sends, in order.
abbrev pub client_events : List Event → List (Result (Option RawMessage))
client_events [] = []
client_events (from_backend x ∷ es) = client_events es
client_events (from_client x ∷ es) = x ∷ client_events es

-- A `ReadyForQuery` whose status byte is `I`.
abbrev pub IsIdleReady : RawMessage → Type 0
IsIdleReady m = (tag m ≡ Tag.ready_for_query) × (is_idle (payload m) ≡ true)

-- A frame that neither ends the answers to a query nor reports an error.
abbrev pub Quiet : RawMessage → Type 0
Quiet m = (tag m ≢ Tag.ready_for_query) × (tag m ≢ Tag.error_response)

abbrev pub arrivals : List RawMessage → List (Result (Option RawMessage))
arrivals [] = []
arrivals (m ∷ ms) = ok (some m) ∷ arrivals ms

-- The backend's first `ReadyForQuery` was idle, no `ErrorResponse` came before it, and nothing of
-- the client was taken.
abbrev pub EndsIdle : List Event → Result (Unit {0}) → List Event → Type 0
EndsIdle es (err e) rest = Unit
EndsIdle es (ok u) rest =
    (seen : List RawMessage) × (m : RawMessage) × (backend_events es
      ≡ arrivals seen ++ ok (some m) ∷ backend_events rest)
    × All Quiet seen
    × (client_events es ≡ client_events rest)
    × IsIdleReady m

client-EndsIdle :
    (e : Result (Option RawMessage)) (es : List Event) (x : Result (Unit {0})) (rest : List Event)
    → EndsIdle es x rest
    → EndsIdle (from_client e ∷ es) x (from_client e ∷ rest)
client-EndsIdle e es (err x) rest h = tt
client-EndsIdle e es (ok u) rest (seen, m, backend, quiet, client, idle) =
    (seen, m, backend, quiet, ap (λ l. e ∷ l) client, idle)

backend-EndsIdle :
    (m : RawMessage) (es : List Event)
    → Quiet m
    → (x : Result (Unit {0})) (rest : List Event) → EndsIdle es x rest
    → EndsIdle (from_backend (ok (some m)) ∷ es) x rest
backend-EndsIdle m es still (err x) rest h = tt
backend-EndsIdle m es still (ok u) rest (seen, last, backend, quiet, client, idle) =
    (m ∷ seen, last, ap (λ l. ok (some m) ∷ l) backend, (still, quiet), client, idle)

answer-EndsIdle :
    (m : RawMessage) (es : List Event)
    → tag m ≡ Tag.ready_for_query
    → (b : Bool) → is_idle (payload m) ≡ b
    → EndsIdle (from_backend (ok (some m)) ∷ es) (reset_answer b) es
answer-EndsIdle m es h true idle = ([], m, refl, tt, refl, (h, idle))
answer-EndsIdle m es h false idle = tt

drain-EndsIdle :
    (es : List Event) (r : Relay) → Ends (λ x rest r'. EndsIdle es x rest × (r' ≡ r)) (drain es r)
unfolding drain
drain-EndsIdle [] r = tt
drain-EndsIdle (from_client e ∷ es) r =
    keep-Ends (λ x rest r'. EndsIdle es x rest × (r' ≡ r)) _ (from_client e) (drain es r)
      (λ x rest r' (h, same). (client-EndsIdle e es x rest h, same)) (drain-EndsIdle es r)
drain-EndsIdle (from_backend (err e) ∷ es) r = (tt, refl)
drain-EndsIdle (from_backend (ok none) ∷ es) r = (tt, refl)
drain-EndsIdle (from_backend (ok (some m)) ∷ es) r =
    if-Ends _ (tag m == Tag.ready_for_query) _ _
      (λ e. (answer-EndsIdle m es (==-sound e) _ refl, refl))
      (λ e.
        if-Ends _ (tag m == Tag.error_response) _ _ (λ e'. (tt, refl))
          (λ e'.
            Ends-map (λ x rest r'. EndsIdle es x rest × (r' ≡ r)) _ (drain es r)
              (λ x rest r' (h, same).
                (backend-EndsIdle m es (ground arith, ground arith) x rest h, same))
              (drain-EndsIdle es r)))

-- After a success, what was sent to the backend.
abbrev pub Sent : Bytes → Relay → Result (Unit {0}) → Relay → Type 0
Sent bs r (err e) r' = Unit
Sent bs r (ok u) r' = r'.backend.sent ≡ r.backend.sent ++ bs

Sent-Result :
    (bs : Bytes) (r : Relay) (x : Result (Unit {0})) (r' : Relay)
    → r'.backend.sent ≡ r.backend.sent ++ bs
    → Sent bs r x r'
Sent-Result bs r (err e) r' h = tt
Sent-Result bs r (ok u) r' h = h

-- A reset that succeeds has sent its frame, and of the backend it read frames that are no
-- `ReadyForQuery` and no `ErrorResponse`, and then an idle `ReadyForQuery`; what follows is unread.
-- Whether or not it succeeds, the client's connection is as it was.
pub reset-EndsIdle :
    (frame : Bytes) (es : List Event) (r : Relay)
    → Ends
        (λ x rest r'. EndsIdle es x rest × Sent frame r x r' × (r'.client ≡ r.client))
        (reset frame es r)
unfolding reset
reset-EndsIdle frame es r =
    write_backend-Ends _ frame r es _ (λ e. (tt, tt, refl))
      (λ r1 sent same.
        write_backend-Ends _ [] r1 es _ (λ e. (tt, tt, same))
          (λ r2 sent' same'.
            Ends-map (λ x rest r'. EndsIdle es x rest × (r' ≡ r2)) _ (drain es r2)
              (λ x rest r' (h, e). (
                h,
                Sent-Result frame r x r' (ap (λ r. r.backend.sent) e ∙ sent' ∙ append-nil _ ∙ sent),
                ap (λ r. r.client) e ∙ same' ∙ same,
              ))
              (drain-EndsIdle es r2)))
