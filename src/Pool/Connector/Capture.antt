-- ===== src/Pool/Connector/Capture.antt =====
-- What a connection to a backend has captured of its startup.
use rama_pg.Bytes.{Bytes}
use rama_pg.Codec.{RawMessage, tag, payload, max_message_len}
use rama_pg.Codec.Frames.{receive, Received, Received-append, Received-snoc, Received-shorter}
use rama_pg.Codec.Tag
use rama_pg.Exec.{Conn, write_all, flush, ◌>>◌, and_then}
use rama_pg.Exec.Loop.{
  Turn, again, Outcome, Finishes, Turned, Finishes-map, run_then-Finishes, send-Outcome,
  loop_messages, loop_messages-Finishes,
}
use rama_pg.Exec.Reads.{
  Reads, IsChallenge, Kept, Anything, lift_then-Kept, write_then-Kept, write-Kept,
}
use rama_pg.Pool.{auth_subtype}
use rama_pg.Pool.Connector.{
  BackendCredentials, BackendRequest, PgConnId, backend_password, send_password, challenge,
  auth_turn, Captured, capture_turn, nothing_seen, capture, authenticate, establish,
}
use rama_pg.Prelude.Int.{pos, eqb_ℤ}
use rama_pg.Prelude.{
  ℕ, suc, List, [], ◌∷◌, ◌++◌, append-nil, Option, none, some, true, false, ◌==◌, if◌then◌else◌,
  ◌≡◌, ◌≢◌, All, All-append, inl, inr, refl, sym, ap, ◌∙◌, arith, Bool-cases, ==-sound, Result, ok,
  err,
}
use rama_pg.Scram.Client.{authenticate_password}
use rama_pg.Scram.Client.Exchange.{authenticate_password-Kept}
use rama_pg.Scram.Primitives.{Primitives}
use rama_pg.Startup.{CancelKey}

-- The `ParameterStatus` frames of these messages, in order.
abbrev pub statuses : List RawMessage → List Bytes
statuses [] = []
statuses (m ∷ ms) =
    let rest = statuses ms in if tag m == Tag.parameter_status then m.frame ∷ rest else rest

abbrev key_in : RawMessage → Option CancelKey → Option CancelKey
key_in m (some key) = some key
key_in m none = if tag m == Tag.backend_key_data then some (record { bytes = payload m }) else none

-- The key of the last `BackendKeyData` of these messages.
abbrev pub last_key : List RawMessage → Option CancelKey
last_key [] = none
last_key (m ∷ ms) = key_in m (last_key ms)

statuses-append : (ms ns : List RawMessage) → statuses (ms ++ ns) ≡ statuses ms ++ statuses ns
statuses-append [] ns = refl
statuses-append (m ∷ ms) ns = elim (Bool-cases (tag m == Tag.parameter_status)) [
  | inl is ↦ rw (is, statuses-append ms ns)
  | inr other ↦ rw (other, statuses-append ms ns)
]

last_key-key :
    (ms : List RawMessage) (m : RawMessage)
    → tag m == Tag.backend_key_data ≡ true
    → last_key (ms ++ m ∷ []) ≡ some (record { bytes = payload m })
last_key-key [] m h = rw h
last_key-key (x ∷ ms) m h = rw (last_key-key ms m h)

last_key-other :
    (ms : List RawMessage) (m : RawMessage)
    → tag m == Tag.backend_key_data ≡ false
    → last_key (ms ++ m ∷ []) ≡ last_key ms
last_key-other [] m h = rw h
last_key-other (x ∷ ms) m h = ap (key_in x) (last_key-other ms m h)

-- What was captured is what these messages hold.
abbrev pub Holds : List RawMessage → Captured → Type 0
Holds ms got = (got.params ≡ statuses ms) × (got.cancel_key ≡ last_key ms)

-- A message of the startup that does not end it.
abbrev pub IsSetting : RawMessage → Type 0
IsSetting m = (tag m ≢ Tag.ready_for_query) × (tag m ≢ Tag.error_response)

abbrev Seeing : Bytes → Captured → Conn → Type 0
Seeing input got c =
    (ms : List RawMessage) × Received input ms c.input × All IsSetting ms × Holds ms got

-- The messages up to the first `ReadyForQuery`, none of which is an error.
abbrev pub Seen : Bytes → Captured → Conn → Type 0
Seen input got c =
    (ms : List RawMessage) × (ready : RawMessage) × Received input (ms ++ ready ∷ []) c.input
    × All IsSetting ms
    × (tag ready ≡ Tag.ready_for_query)
    × Holds ms got

capture_turn-Turned :
    (input : Bytes) (got : Captured) (c : Conn) (m : RawMessage) (rest : Bytes)
    → Seeing input got c
    → receive max_message_len c.input ≡ ok (m, rest)
    → Outcome Anything
        (Turned (Seeing input) (Seen input) rest)
        (capture_turn got m (record c { input = rest }))
unfolding capture_turn
capture_turn-Turned input got c m rest (ms, taken, quiet, (statuses_got, key_got)) e =
    let now : Received input (ms ++ m ∷ []) rest = Received-snoc input c.input rest ms m taken e in
    let more : IsSetting m → All IsSetting (ms ++ m ∷ []) =
      λ is. All-append IsSetting ms (m ∷ []) quiet (is, tt) in
    let other_status : tag m == Tag.parameter_status ≡ false
        → got.params ≡ statuses (ms ++ m ∷ []) =
      λ h.
        statuses_got
        ∙ sym (append-nil (statuses ms))
        ∙ ap (λ l. statuses ms ++ l) (rw h refl)
        ∙ sym (statuses-append ms (m ∷ [])) in
    let other_key : tag m == Tag.backend_key_data ≡ false
        → got.cancel_key ≡ last_key (ms ++ m ∷ []) =
      λ h. key_got ∙ sym (last_key-other ms m h) in
    elim (Bool-cases (tag m == Tag.parameter_status)) [
      | inl is ↦
          let all : got.params ++ m.frame ∷ [] ≡ statuses (ms ++ m ∷ []) =
            ap (λ l. l ++ m.frame ∷ []) statuses_got
            ∙ ap (λ l. statuses ms ++ l) (rw is refl)
            ∙ sym (statuses-append ms (m ∷ [])) in
          rw is (
            (ms ++ m ∷ [], now, more (ground arith, ground arith), (all, other_key (ground arith))),
            omega arith,
          )
      | inr e1 ↦ elim (Bool-cases (tag m == Tag.backend_key_data)) [
        | inl is ↦
            rw (e1, is)
              (
                (
                  ms ++ m ∷ [],
                  now,
                  more (ground arith, ground arith),
                  (other_status e1, sym (last_key-key ms m is)),
                ),
                omega arith,
              )
        | inr e2 ↦ elim (Bool-cases (tag m == Tag.ready_for_query)) [
          | inl is ↦ rw (e1, e2, is) (ms, m, now, quiet, ==-sound is, (statuses_got, key_got))
          | inr e3 ↦ elim (Bool-cases (tag m == Tag.error_response)) [
            | inl is ↦ rw (e1, e2, e3, is) tt
            | inr e4 ↦
                rw (e1, e2, e3, e4)
                  (
                    (
                      ms ++ m ∷ [],
                      now,
                      more (ground arith, ground arith),
                      (other_status e1, other_key e2),
                    ),
                    omega arith,
                  )
          ]
        ]
      ]
    ]

-- An `AuthenticationOk`.
abbrev pub IsAccepted : RawMessage → Type 0
IsAccepted m = (tag m ≡ Tag.authentication) × (eqb_ℤ (auth_subtype m) (pos 0) ≡ true)

-- The challenges up to the first `AuthenticationOk`.
abbrev pub Accepted : Bytes → Conn → Type 0
Accepted input c =
    (ms : List RawMessage) × (accepted : RawMessage) × Received input (ms ++ accepted ∷ []) c.input
    × All IsChallenge ms
    × IsAccepted accepted

module _ (input : Bytes) (c : Conn) (m : RawMessage) (rest : Bytes) (before : Reads input c)
    (taken : receive max_message_len c.input ≡ ok (m, rest)) where
  abbrev Goes : Turn ℕ (Unit {0}) → Conn → Type 0
  Goes = Turned (λ drawn c. Reads input c) (λ u c. Accepted input c) rest

  -- What was read behind the message was read behind all of them.
  Goes-again : (drawn : ℕ) (c' : Conn) → IsChallenge m → Reads rest c' → Goes (again drawn) c'
  Goes-again drawn c' is (ns, got, all) =
      let (ms, got0, all0) = before in
      (
        (
          ms ++ m ∷ ns,
          Received-append input c.input c'.input ms (m ∷ ns) got0 (rest, taken, got),
          All-append IsChallenge ms (m ∷ ns) all0 (is, all),
        ),
        Received-shorter rest c'.input ns got,
      )

  Goes-then :
      (drawn : ℕ) (r : Result (Unit {0}) × Conn)
      → IsChallenge m
      → Kept rest r
      → Outcome Anything Goes (and_then r λ u c. (ok (again drawn), c))
  Goes-then drawn (ok u, c') is h = Goes-again drawn c' is h
  Goes-then drawn (err e, c') is h = tt

  module _ (p : Primitives) (draws : ℕ → Bytes) (credentials : BackendCredentials) (id : PgConnId)
      (drawn : ℕ) where
    abbrev here : Conn
    here = record c { input = rest }

    answered-Kept :
        (password : Bytes) (c' : Conn) → Reads rest c' → Kept rest (send_password password c')
    answered-Kept password c' h = write_then-Kept rest _ _ c' h λ u c1 h1. write-Kept rest [] c1 h1

    auth_turn-Goes : Outcome Anything Goes (auth_turn p draws credentials id drawn m here)
    unfolding auth_turn challenge
    auth_turn-Goes =
        let start : Reads rest here = ([], refl, tt) in
        elim (Bool-cases (tag m == Tag.authentication)) [
          | inl is ↦ elim (Bool-cases (eqb_ℤ (auth_subtype m) (pos 0))) [
            | inl zero ↦
                let (ms, got0, all0) = before in
                rw (is, zero)
                  (
                    ms,
                    m,
                    Received-snoc input c.input rest ms m got0 taken,
                    all0,
                    (==-sound is, zero),
                  )
            | inr e0 ↦ elim (Bool-cases (eqb_ℤ (auth_subtype m) (pos 3))) [
              | inl three ↦
                  rw (is, e0, three)
                    (Goes-then drawn _ (==-sound is, e0)
                      (lift_then-Kept rest (backend_password credentials id) send_password here
                        start answered-Kept))
              | inr e3 ↦ elim (Bool-cases (eqb_ℤ (auth_subtype m) (pos 10))) [
                | inl ten ↦
                    rw (is, e0, e3, ten)
                      (Goes-then (suc drawn) _ (==-sound is, e0)
                        (lift_then-Kept rest (backend_password credentials id)
                          (λ password. authenticate_password p password (draws drawn) m) here start
                          λ password c1 h1.
                            authenticate_password-Kept p rest password (draws drawn) m c1 h1))
                | inr e10 ↦ elim (Bool-cases (eqb_ℤ (auth_subtype m) (pos 5))) [
                  | inl five ↦ rw (is, e0, e3, e10, five) tt
                  | inr e5 ↦ rw (is, e0, e3, e10, e5) tt
                ]
              ]
            ]
          ]
          | inr e1 ↦ elim (Bool-cases (tag m == Tag.error_response)) [
            | inl is ↦ rw (e1, is) tt
            | inr e2 ↦ rw (e1, e2) tt
          ]
        ]

-- The messages that are received one after another: challenges, the first `AuthenticationOk`, those
-- up to the first `ReadyForQuery`, none of which is an error, and that one. What was captured is what
-- the second part holds.
abbrev pub Established : Bytes → Captured → Conn → Type 0
Established input got c =
    (auth : List RawMessage) × (accepted : RawMessage) × (ms : List RawMessage)
    × (ready : RawMessage) × Received input ((auth ++ accepted ∷ []) ++ (ms ++ ready ∷ [])) c.input
    × All IsChallenge auth
    × IsAccepted accepted
    × All IsSetting ms
    × (tag ready ≡ Tag.ready_for_query)
    × Holds ms got

Established-Seen :
    (input : Bytes) (c1 : Conn)
    → Accepted input c1
    → (got : Captured) (c : Conn) → Seen c1.input got c
    → Established input got c
Established-Seen input c1 (auth, accepted, e, challenges, is) got c
      (ms, ready, e', quiet, at, holds) =
    (
      auth,
      accepted,
      ms,
      ready,
      Received-append input c1.input c.input (auth ++ accepted ∷ []) (ms ++ ready ∷ []) e e',
      challenges,
      is,
      quiet,
      at,
      holds,
    )

capture-Finishes :
    (input : Bytes) (u : Unit {0}) (c : Conn)
    → Accepted input c
    → Finishes Anything (Established input) (capture u c)
capture-Finishes input u c h =
    Finishes-map Anything (Seen c.input) (Established input) (capture u c)
      (Established-Seen input c h)
      (loop_messages-Finishes Anything (Seeing c.input) (Seen c.input) capture_turn (λ got c h. tt)
        (capture_turn-Turned c.input) nothing_seen c ([], refl, tt, (refl, refl)))

-- Whatever the backend sends and whenever a write to it fails, a connection to it is established or
-- refused. Where it is established, the messages received are challenges, the first
-- `AuthenticationOk`, messages that are no error, and the first `ReadyForQuery` behind it; nothing
-- more was read, and what was captured is, of the messages between the two, every `ParameterStatus`
-- frame in order and the payload of the last `BackendKeyData`.
pub establish-Established :
    (p : Primitives) (draws : ℕ → Bytes) (credentials : BackendCredentials) (req : BackendRequest)
    (c : Conn)
    → Finishes Anything (Established c.input) (establish p draws credentials req c)
unfolding establish
establish-Established p draws credentials req c =
    run_then-Finishes Anything (λ u c'. c'.input ≡ c.input) (Established c.input)
      (some ((write_all req.startup >> flush) c)) (authenticate p draws credentials req.id)
      (send-Outcome Anything (λ u c'. c'.input ≡ c.input) req.startup c tt (λ room. tt)
        (λ room. refl))
      λ u c1 same.
        run_then-Finishes Anything (λ u c'. Accepted c.input c') (Established c.input)
          (loop_messages (auth_turn p draws credentials req.id) 0 c1) capture
          (loop_messages-Finishes Anything (λ drawn c'. Reads c.input c')
            (λ u c'. Accepted c.input c') (auth_turn p draws credentials req.id) (λ b c h. tt)
            (λ drawn c' m rest h e.
              auth_turn-Goes c.input c' m rest h e p draws credentials req.id drawn)
            0 c1 ([], sym same, tt))
          (capture-Finishes c.input)
