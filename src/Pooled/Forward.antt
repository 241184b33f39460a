-- ===== src/Pooled/Forward.antt =====
-- What the relay passes on, and where it stops.
use rama_pg.Bytes.{Bytes}
use rama_pg.Codec.{RawMessage, tag, payload}
use rama_pg.Codec.Tag
use rama_pg.Exec.{write_room}
use rama_pg.Pool.{Event, from_backend, from_client, Relay, put_backend, Wait, waiting, ended}
use rama_pg.Pool.Ends.{Ends, if-step, write_client-step, write_backend-step}
use rama_pg.Pooled.{relay_to_next_rfq, ignore_write, status_of}
use rama_pg.Prelude.{
  ℕ, List, [], ◌∷◌, ◌++◌, append-nil, append_assoc, Option, none, some, false, ◌==◌, ◌≡◌, refl, sym,
  ap, ◌∙◌, Result, ok, err, Error, broken_pipe, message, ==-sound, ◌⊎◌, inl, inr, subst, zero, suc,
}

-- The bytes that an event puts on the client's connection, and on the backend's.
abbrev pub to_client : Event → Bytes
to_client (from_backend (ok (some m))) = m.frame
to_client _ = []

abbrev pub to_backend : Event → Bytes
to_backend (from_client (ok (some m))) = m.frame
to_backend _ = []

abbrev pub all_to_client : List Event → Bytes
all_to_client [] = []
all_to_client (e ∷ es) = to_client e ++ all_to_client es

abbrev pub all_to_backend : List Event → Bytes
all_to_backend [] = []
all_to_backend (e ∷ es) = to_backend e ++ all_to_backend es

-- A frame, of the client or the backend, that does not end the relay.
abbrev pub GoesOn : Event → Type 0
GoesOn (from_backend (ok (some m))) = tag m == Tag.ready_for_query ≡ false
GoesOn (from_client (ok (some m))) = tag m == Tag.terminate ≡ false
GoesOn _ = ⊥

abbrev pub AllGoOn : List Event → Type 0
AllGoOn [] = Unit
AllGoOn (e ∷ es) = GoesOn e × AllGoOn es

-- The client closed its side, or said `Terminate`.
abbrev pub IsGone : Event → Type 0
IsGone (from_client (ok none)) = Unit
IsGone (from_client (ok (some m))) = tag m ≡ Tag.terminate
IsGone _ = ⊥

-- Why a relay fails at an event: a read fails, the backend is gone, or a write fails.
abbrev pub FailsAt : Event → Error → Relay → Type 0
FailsAt (from_backend (err e)) x r = x ≡ e
FailsAt (from_client (err e)) x r = x ≡ e
FailsAt (from_backend (ok none)) x r = x ≡ message "backend closed mid-statement"
FailsAt (from_client (ok none)) x r = ⊥
FailsAt e x r = (x ≡ broken_pipe) × ((r.client.room ≡ 0) ⊎ (r.backend.room ≡ 0))

-- `Terminate` goes to a backend that takes it; nothing goes there at the end of the client's stream.
abbrev pub Parted : Bytes → Event → Bytes → Type 0
Parted before last sent = (sent ≡ before) ⊎ (sent ≡ before ++ to_backend last)

-- The events `es` up to the first `ReadyForQuery`, the client's end or a failure were passed on
-- verbatim.
abbrev pub Forwarded : List Event → Relay → Result (Option ℕ) → List Event → Relay → Type 0
Forwarded es r (err e) rest r' =
    (used : List Event) × (last : Event) × (es ≡ used ++ last ∷ rest)
    × AllGoOn used
    × FailsAt last e r'
Forwarded es r (ok none) rest r' =
    (used : List Event) × (last : Event) × (es ≡ used ++ last ∷ rest)
    × AllGoOn used
    × IsGone last
    × (r'.client.sent ≡ r.client.sent ++ all_to_client used)
    × Parted (r.backend.sent ++ all_to_backend used) last r'.backend.sent
Forwarded es r (ok (some status)) rest r' =
    (used : List Event) × (m : RawMessage) × (es ≡ used ++ from_backend (ok (some m)) ∷ rest)
    × AllGoOn used
    × (tag m ≡ Tag.ready_for_query)
    × (status_of (payload m) ≡ status)
    × (r'.client.sent ≡ r.client.sent ++ (all_to_client used ++ m.frame))
    × (r'.backend.sent ≡ r.backend.sent ++ all_to_backend used)

-- A relay that still waits has passed on every event.
abbrev pub Relays : List Event → Relay → Wait (Result (Option ℕ)) → Type 0
Relays es r (waiting r') =
    AllGoOn es
    × (r'.client.sent ≡ r.client.sent ++ all_to_client es)
    × (r'.backend.sent ≡ r.backend.sent ++ all_to_backend es)
Relays es r (ended x rest r') = Forwarded es r x rest r'

then_sent : {s1 s2 : Bytes} (s a b : Bytes) → s1 ≡ s ++ a → s2 ≡ s1 ++ b → s2 ≡ s ++ (a ++ b)
then_sent s a b h k = k ∙ ap (λ x. x ++ b) h ∙ append_assoc s a b

-- One more event before those that the relay has passed on.
Relays-GoesOn :
    (e : Event) (es : List Event) (r r1 : Relay)
    → GoesOn e
    → r1.client.sent ≡ r.client.sent ++ to_client e
    → r1.backend.sent ≡ r.backend.sent ++ to_backend e
    → (w : Wait (Result (Option ℕ))) → Relays es r1 w
    → Relays (e ∷ es) r w
Relays-GoesOn e es r r1 on client backend (waiting r') (all, sent, sent') =
    ((on, all), then_sent _ (to_client e) _ client sent, then_sent _ (to_backend e) _ backend sent')
Relays-GoesOn e es r r1 on client backend (ended (err x) rest r') (used, last, eq, all, fails) =
    (e ∷ used, last, ap (λ l. e ∷ l) eq, (on, all), fails)
Relays-GoesOn e es r r1 on client backend (ended (ok none) rest r')
      (used, last, eq, all, gone, sent, parted) =
    let before : r1.backend.sent ++ all_to_backend used
        ≡ r.backend.sent ++ (to_backend e ++ all_to_backend used) =
      then_sent _ (to_backend e) _ backend refl in
    (
      e ∷ used,
      last,
      ap (λ l. e ∷ l) eq,
      (on, all),
      gone,
      then_sent _ (to_client e) _ client sent,
      subst (λ l. Parted l last r'.backend.sent) before parted,
    )
Relays-GoesOn e es r r1 on client backend (ended (ok (some status)) rest r')
      (used, m, eq, all, ready, is, sent, sent') =
    (
      e ∷ used,
      m,
      ap (λ l. e ∷ l) eq,
      (on, all),
      ready,
      is,
      then_sent _ (to_client e) _ client sent
          ∙ ap (λ l. r.client.sent ++ l)
              (sym (append_assoc (to_client e) (all_to_client used) m.frame)),
      then_sent _ (to_backend e) _ backend sent',
    )

-- After an idle write.
flushed : {t s1 s2 : Bytes} → s1 ≡ t → s2 ≡ s1 ++ [] → s2 ≡ t
flushed h k = k ∙ append-nil _ ∙ h

unchanged : {s s1 : Bytes} → s1 ≡ s → s1 ≡ s ++ []
unchanged h = h ∙ sym (append-nil _)

-- The last write to the backend of a client that says `Terminate`.
parted_room :
    (m : RawMessage) (es : List Event) (r : Relay)
    → tag m ≡ Tag.terminate
    → (n : ℕ)
    → Relays
        (from_client (ok (some m)) ∷ es)
        r
        (ignore_write (put_backend r (write_room n m.frame r.backend)) es)
parted_room m es r gone zero =
    ([], from_client (ok (some m)), refl, tt, gone, unchanged refl, inl (unchanged refl))
parted_room m es r gone (suc n) = (
  [],
  from_client (ok (some m)),
  refl,
  tt,
  gone,
  unchanged refl,
  inr (ap (λ l. l ++ m.frame) (unchanged refl)),
)

-- A failed write at a frame.
write_fails :
    (e : Event) (es : List Event) (r : Relay)
    → FailsAt e broken_pipe r
    → Relays (e ∷ es) r (ended (err broken_pipe) es r)
write_fails e es r fails = ([], e, refl, tt, fails)

-- However its frames interleave, the relay passes every frame on unchanged and in order, of the
-- backend to the client and of the client to the backend, until the first `ReadyForQuery` of the
-- backend, whose status it returns, or until the client is gone, when it returns none and the backend
-- has had at most the `Terminate` besides. It fails only where a read fails, the backend is gone or
-- a write fails, and waits only where every frame so far was passed on.
pub relay_to_next_rfq-Forwarded :
    (es : List Event) (r : Relay) → Relays es r (relay_to_next_rfq es r)
unfolding relay_to_next_rfq
relay_to_next_rfq-Forwarded [] r = (tt, unchanged refl, unchanged refl)
relay_to_next_rfq-Forwarded (from_backend (err e) ∷ es) r =
    ([], from_backend (err e), refl, tt, refl)
relay_to_next_rfq-Forwarded (from_backend (ok none) ∷ es) r =
    ([], from_backend (ok none), refl, tt, refl)
relay_to_next_rfq-Forwarded (from_backend (ok (some m)) ∷ es) r =
    let e : Event = from_backend (ok (some m)) in
    write_client-step (Relays (e ∷ es) r) m.frame r es _
      (λ full. write_fails e es r (refl, inl full))
      (λ r1 sent same.
        if-step (Relays (e ∷ es) r) (tag m == Tag.ready_for_query) _ _
          (λ ready.
            write_client-step (Relays (e ∷ es) r) [] r1 es _
              (λ full. ([], e, refl, tt, (refl, inl full)))
              (λ r2 sent' same'. (
                [],
                m,
                refl,
                tt,
                ==-sound ready,
                refl,
                flushed sent sent',
                unchanged (ap (λ c. c.sent) (same' ∙ same)),
              )))
          (λ busy.
            if-step (Relays (e ∷ es) r) (tag m == Tag.error_response) _ _
              (λ failed.
                write_client-step (Relays (e ∷ es) r) [] r1 es _
                  (λ full. ([], e, refl, tt, (refl, inl full)))
                  (λ r2 sent' same'.
                    Relays-GoesOn e es r r2 busy (flushed sent sent')
                      (unchanged (ap (λ c. c.sent) (same' ∙ same))) (relay_to_next_rfq es r2)
                      (relay_to_next_rfq-Forwarded es r2)))
              (λ other.
                Relays-GoesOn e es r r1 busy sent (unchanged (ap (λ c. c.sent) same))
                  (relay_to_next_rfq es r1) (relay_to_next_rfq-Forwarded es r1))))
relay_to_next_rfq-Forwarded (from_client (err e) ∷ es) r = ([], from_client (err e), refl, tt, refl)
relay_to_next_rfq-Forwarded (from_client (ok none) ∷ es) r =
    ([], from_client (ok none), refl, tt, tt, unchanged refl, inl (unchanged refl))
relay_to_next_rfq-Forwarded (from_client (ok (some m)) ∷ es) r =
    let e : Event = from_client (ok (some m)) in
    if-step (Relays (e ∷ es) r) (tag m == Tag.terminate) _ _
      (λ gone. parted_room m es r (==-sound gone) r.backend.room)
      (λ on.
        write_backend-step (Relays (e ∷ es) r) m.frame r es _
          (λ full. write_fails e es r (refl, inr full))
          (λ r1 sent same.
            write_backend-step (Relays (e ∷ es) r) [] r1 es _
              (λ full. ([], e, refl, tt, (refl, inr full)))
              (λ r2 sent' same'.
                Relays-GoesOn e es r r2 on (unchanged (ap (λ c. c.sent) (same' ∙ same)))
                  (flushed sent sent') (relay_to_next_rfq es r2)
                  (relay_to_next_rfq-Forwarded es r2))))

Relays-Ends :
    (es : List Event) (r : Relay) (w : Wait (Result (Option ℕ)))
    → Relays es r w
    → Ends (Forwarded es r) w
Relays-Ends es r (waiting r') h = tt
Relays-Ends es r (ended x rest r') h = h

pub relay_to_next_rfq-Ends :
    (es : List Event) (r : Relay) → Ends (Forwarded es r) (relay_to_next_rfq es r)
relay_to_next_rfq-Ends es r =
    Relays-Ends es r (relay_to_next_rfq es r) (relay_to_next_rfq-Forwarded es r)
