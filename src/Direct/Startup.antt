-- ===== src/Direct/Startup.antt =====
-- What the client sees of the backend's startup.
use rama_pg.Bytes.{Bytes}
use rama_pg.Codec.{RawMessage, tag, max_message_len}
use rama_pg.Codec.Frames.{receive, receive_sound, Received}
use rama_pg.Codec.Tag
use rama_pg.Direct.{
  Direct, put_relay, from_backend, startup_message, go_on, relay_loop, relay_startup,
}
use rama_pg.Exec.{◌>>=◌, received}
use rama_pg.Exec.Ensures.{Leaves, and_then-Leaves, Leaves-map}
use rama_pg.Pool.{put_backend}
use rama_pg.Prelude.{
  ℕ, zero, suc, ◌<◌, ◌+◌, List, [], ◌∷◌, ◌++◌, All, append_assoc, length, length-append, Option,
  none, some, Bool, true, false, ◌≡◌, refl, sym, ap, ◌∙◌, Result, ok, err, arith,
}
use rama_pg.Startup.{CancelKey}
use rama_pg.Direct.Message.{shown, LastIs, Passed, startup_message-Passed}

-- One turn: a message was taken from the backend, and what is shown for it was sent.
abbrev Turn : Option CancelKey → Direct → Bool → Direct → Type 0
Turn key d last d' =
    (m : RawMessage) × (receive max_message_len d.relay.backend.input
      ≡ ok (m, d'.relay.backend.input))
    × (d'.relay.client.sent ≡ d.relay.client.sent ++ shown key m)
    × LastIs m last

-- A message was taken from the backend.
abbrev Taken : Direct → RawMessage → Direct → Type 0
Taken d m d' =
    (receive max_message_len d.relay.backend.input ≡ ok (m, d'.relay.backend.input))
    × (d'.relay.client.sent ≡ d.relay.client.sent)

received-Taken :
    (d : Direct) (x : Result (RawMessage × Bytes))
    → receive max_message_len d.relay.backend.input ≡ x
    → Leaves (Taken d) (put_relay d (put_backend d.relay (received x d.relay.backend)))
received-Taken d (ok (m, rest)) e = (e, refl)
received-Taken d (err x) e = tt

startup_message-Turn :
    (key : Option CancelKey) (interactive : Bool) (d : Direct)
    → Leaves (Turn key d) ((from_backend >>= λ m. startup_message key interactive m) d)
startup_message-Turn key interactive d =
    and_then-Leaves (Taken d) (Turn key d) (from_backend d) _ (received-Taken d _ refl)
      λ m d1 (input, sent).
        Leaves-map (Passed d1 (shown key m) m) (Turn key d) _
          (λ last d2 ((sent', input'), is). (
            m,
            input ∙ ap (λ l. ok (m, l)) (sym input'),
            sent' ∙ ap (λ l. l ++ shown key m) sent,
            is,
          ))
          (startup_message-Passed key interactive m d1)

abbrev pub all_shown : Option CancelKey → List RawMessage → Bytes
all_shown key [] = []
all_shown key (m ∷ ms) = shown key m ++ all_shown key ms

-- The messages that were received of the backend, up to its first `ReadyForQuery`, and what the
-- client was sent.
abbrev pub Relayed : Option CancelKey → Direct → Unit {0} → Direct → Type 0
Relayed key d u d' =
    (ms : List RawMessage) × (last : RawMessage) × Received d.relay.backend.input (ms ++ last ∷ [])
      d'.relay.backend.input
    × All (λ m. LastIs m false) ms
    × (d'.relay.client.sent ≡ d.relay.client.sent ++ (all_shown key ms ++ shown key last))
    × (tag last ≡ Tag.ready_for_query)

-- The relay has a result, and where it succeeds `Relayed` holds.
abbrev pub Finishes : Option CancelKey → Direct → Option (Result (Unit {0}) × Direct) → Type 0
Finishes key d none = ⊥
Finishes key d (some r) = Leaves (Relayed key d) r

Relayed-later :
    (key : Option CancelKey) (d d1 : Direct)
    → Turn key d false d1
    → (u : Unit {0}) (d2 : Direct) → Relayed key d1 u d2
    → Relayed key d u d2
Relayed-later key d d1 (m, input, sent, is) u d2 (ms, last, input', more, sent', ready) = (
  m ∷ ms,
  last,
  (d1.relay.backend.input, input, input'),
  (is, more),
  sent'
      ∙ ap (λ l. l ++ (all_shown key ms ++ shown key last)) sent
      ∙ append_assoc d.relay.client.sent (shown key m) _
      ∙ ap (λ l. d.relay.client.sent ++ l) (sym (append_assoc (shown key m) (all_shown key ms) _)),
  ready,
)

Finishes-later :
    (key : Option CancelKey) (d d1 : Direct)
    → Turn key d false d1
    → (x : Option (Result (Unit {0}) × Direct)) → Finishes key d1 x
    → Finishes key d x
Finishes-later key d d1 turn none h = h
Finishes-later key d d1 turn (some r) h =
    Leaves-map (Relayed key d1) (Relayed key d) r (Relayed-later key d d1 turn) h

go_on-Finishes :
    (key : Option CancelKey) (n : ℕ) (next : Direct → Option (Result (Unit {0}) × Direct))
    → ((d1 : Direct) → length d1.relay.backend.input < n → Finishes key d1 (next d1))
    → (d : Direct) → length d.relay.backend.input < suc n
    → (r : Result Bool × Direct) → Leaves (Turn key d) r
    → Finishes key d (go_on next r)
go_on-Finishes key n next safe d fuel (err e, d1) h = tt
go_on-Finishes key n next safe d fuel (ok true, d1) (m, input, sent, is) =
    ([], m, (d1.relay.backend.input, input, refl), tt, sent, is)
go_on-Finishes key n next safe d fuel (ok false, d1) (m, input, sent, is) =
    let (framed, long, short) = receive_sound _ d.relay.backend.input input in
    let measured : length d.relay.backend.input ≡ length m.frame + length d1.relay.backend.input =
      ap length (sym framed) ∙ length-append m.frame _ in
    let less : length d1.relay.backend.input < n = ground (arith, measured) in
    Finishes-later key d d1 (m, input, sent, is) (next d1) (safe d1 less)

relay_loop-Finishes :
    (key : Option CancelKey) (interactive : Bool) (n : ℕ) (d : Direct)
    → length d.relay.backend.input < n
    → Finishes key d (relay_loop n key interactive d)
unfolding relay_loop
relay_loop-Finishes key interactive zero d fuel = ground arith
relay_loop-Finishes key interactive (suc n) d fuel =
    go_on-Finishes key n (relay_loop n key interactive) (relay_loop-Finishes key interactive n) d
      fuel _ (startup_message-Turn key interactive d)

-- Whatever the backend and the client send, the relay has a result. Where it succeeds, with
-- interactive authentication or without, it received the backend's messages up to the first
-- `ReadyForQuery`, none of which is an `ErrorResponse`, and no byte more, and the client was sent
-- each of them in order, but for a `BackendKeyData`, in whose place it was sent the proxy's own key
-- if there is one.
pub relay_startup-Finishes :
    (key : Option CancelKey) (interactive : Bool) (d : Direct)
    → Finishes key d (relay_startup key interactive d)
unfolding relay_startup
relay_startup-Finishes key interactive d =
    relay_loop-Finishes key interactive (suc (length d.relay.backend.input)) d (ground arith)
