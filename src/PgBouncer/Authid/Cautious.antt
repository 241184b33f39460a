-- ===== src/PgBouncer/Authid/Cautious.antt =====
-- What the lookup sends, however it ends.
use rama_pg.Bytes.{Bytes, codes, eqb}
use rama_pg.Bytes.Search.{eqb_sound}
use rama_pg.Codec.{RawMessage, tag, payload, max_message_len}
use rama_pg.Codec.Frames.{receive, Received, Received-snoc}
use rama_pg.Codec.Tag
use rama_pg.Exec.{Conn, write_room, write_all, flush, ◌>>◌}
use rama_pg.Exec.Loop.{
  Turn, again, last, Finishes, Outcome, Turned, send-Outcome, run_then-Finishes, loop_messages,
  loop_messages-Finishes,
}
use rama_pg.PgBouncer.Authid.{
  PgAuthidStore, parse_parameter_status, setting_name, noted, startup_turn, row_turn, query_frame,
  query_role, terminate, terminate_with, read_rows, finish, admin_startup, after_startup,
  fetch_rolpassword,
}
use rama_pg.Pool.{auth_subtype}
use rama_pg.Prelude.Int.{pos, eqb_ℤ}
use rama_pg.Prelude.{
  ℕ, zero, suc, List, [], ◌∷◌, ◌++◌, append_assoc, All, All-append, Option, none, some, Bool, true,
  false, ◌==◌, if◌then◌else◌, ◌≡◌, ◌≢◌, ok, ◌⊎◌, inl, inr, refl, sym, ap, ◌∙◌, arith, Bool-cases,
  ==-sound,
}

-- What a message reports of the setting, if anything.
abbrev pub about : Option (Bytes × Bytes) → Option Bytes
about none = none
about (some (name, value)) = if eqb name setting_name then some value else none

abbrev pub report : RawMessage → Option Bytes
report m =
    if tag m == Tag.parameter_status then about (parse_parameter_status (payload m)) else none

-- The last of these messages that reports the setting says that it is on.
abbrev pub ReportsOn : List RawMessage → Type 0
ReportsOn ms =
    (front : List RawMessage) × (m : RawMessage) × (back : List RawMessage) × (ms
      ≡ front ++ m ∷ back)
    × (report m ≡ some (codes "on"))
    × All (λ m. report m ≡ none) back

abbrev Says : Bool → List RawMessage → Type 0
Says true ms = ReportsOn ms
Says false ms = Unit

Says-quiet :
    (on : Bool) (ms : List RawMessage) (m : RawMessage)
    → report m ≡ none
    → Says on ms
    → Says on (ms ++ m ∷ [])
Says-quiet false ms m quiet h = tt
Says-quiet true ms m quiet (front, at, back, e, on, none_after) = (
  front,
  at,
  back ++ m ∷ [],
  ap (λ l. l ++ m ∷ []) e ∙ append_assoc front (at ∷ back) (m ∷ []),
  on,
  All-append (λ m. report m ≡ none) back (m ∷ []) none_after (quiet, tt),
)

Says-report :
    (ms : List RawMessage) (m : RawMessage) (value : Bytes)
    → report m ≡ some value
    → (b : Bool) → eqb value (codes "on") ≡ b
    → Says b (ms ++ m ∷ [])
Says-report ms m value e false is = tt
Says-report ms m value e true is =
    (ms, m, [], refl, e ∙ ap some (eqb_sound value (codes "on") is), tt)

-- The message is a `ParameterStatus` with this payload.
noted-Says :
    (on : Bool) (ms : List RawMessage) (m : RawMessage) (p : Option (Bytes × Bytes))
    → report m ≡ about p
    → Says on ms
    → Says (noted on p) (ms ++ m ∷ [])
noted-Says on ms m none e h = Says-quiet on ms m e h
noted-Says on ms m (some (name, value)) e h = elim (Bool-cases (eqb name setting_name)) [
  | inl is ↦ rw is (Says-report ms m value (e ∙ rw is refl) _ refl)
  | inr other ↦ rw other (Says-quiet on ms m (e ∙ rw other refl) h)
]

abbrev pub NotReady : RawMessage → Type 0
NotReady m = tag m ≢ Tag.ready_for_query

-- The messages taken off the input so far, and what was sent.
abbrev Heard : Bytes → Bytes → Bool → Conn → Type 0
Heard input sent on c =
    (ms : List RawMessage) × Received input ms c.input
    × All NotReady ms
    × (c.sent ≡ sent)
    × Says on ms

abbrev Ready : Bytes → Bytes → Bool → Conn → Type 0
Ready input sent on c =
    (ms : List RawMessage) × (ready : RawMessage) × Received input (ms ++ ready ∷ []) c.input
    × All NotReady ms
    × (tag ready ≡ Tag.ready_for_query)
    × (c.sent ≡ sent)
    × Says on ms

-- A startup message by its branches.
startup_turn-branches :
    (F : Conn → Type 0) (P : Turn Bool Bool → Conn → Type 0) (on : Bool) (m : RawMessage) (c : Conn)
    → F c
    → (tag m == Tag.parameter_status ≡ false → NotReady m → P (again on) c)
    → (tag m == Tag.parameter_status ≡ true
        → P (again (noted on (parse_parameter_status (payload m)))) c)
    → (tag m ≡ Tag.ready_for_query → P (last on) c)
    → Outcome F P (startup_turn on m c)
unfolding startup_turn
startup_turn-branches F P on m c failing quiet noting ready =
    elim (Bool-cases (tag m == Tag.authentication)) [
      | inl is ↦
          let other : tag m == Tag.parameter_status ≡ false = ground arith in
          elim (Bool-cases (eqb_ℤ (auth_subtype m) (pos 0))) [
            | inl accepted ↦ rw (is, accepted) (quiet other (ground arith))
            | inr bad ↦ rw (is, bad) failing
          ]
      | inr e1 ↦ elim (Bool-cases (tag m == Tag.parameter_status)) [
        | inl is ↦ rw (e1, is) (noting is)
        | inr e2 ↦ elim (Bool-cases (tag m == Tag.ready_for_query)) [
          | inl is ↦ rw (e1, e2, is) (ready (==-sound is))
          | inr e3 ↦ elim (Bool-cases (tag m == Tag.error_response)) [
            | inl is ↦ rw (e1, e2, e3, is) failing
            | inr e4 ↦ rw (e1, e2, e3, e4) (quiet e2 (ground arith))
          ]
        ]
      ]
    ]

-- The turns, where a failure needs no more than what was sent.
module _ (input sent : Bytes) (F : Conn → Type 0) (f : (c : Conn) → c.sent ≡ sent → F c) where
  abbrev Same : Option Bytes → Conn → Type 0
  Same v c = c.sent ≡ sent

  abbrev Startup : Bytes → Turn Bool Bool → Conn → Type 0
  Startup rest = Turned (Heard input sent) (Ready input sent) rest

  startup_turn-Turned :
      (on : Bool) (c : Conn) (m : RawMessage) (rest : Bytes)
      → Heard input sent on c
      → receive max_message_len c.input ≡ ok (m, rest)
      → Outcome F (Startup rest) (startup_turn on m (record c { input = rest }))
  unfolding startup_turn
  startup_turn-Turned on c m rest (ms, taken, busy, same, says) e =
      let c' : Conn = record c { input = rest } in
      let now : Received input (ms ++ m ∷ []) rest =
        Received-snoc input c.input rest ms m taken e in
      let more : NotReady m → All NotReady (ms ++ m ∷ []) =
        λ other. All-append NotReady ms (m ∷ []) busy (other, tt) in
      let quiet : tag m == Tag.parameter_status ≡ false → NotReady m → Startup rest (again on) c' =
        λ other not_ready.
          let silent : report m ≡ none = rw other refl in
          (
            (ms ++ m ∷ [], now, more not_ready, same, Says-quiet on ms m silent says),
            omega arith,
          ) in
      let noting : tag m == Tag.parameter_status ≡ true
          → Startup rest (again (noted on (parse_parameter_status (payload m)))) c' =
        λ is.
          let reported : report m ≡ about (parse_parameter_status (payload m)) = rw is refl in
          (
            (
              ms ++ m ∷ [],
              now,
              more (ground arith),
              same,
              noted-Says on ms m (parse_parameter_status (payload m)) reported says,
            ),
            omega arith,
          ) in
      let is_ready : tag m ≡ Tag.ready_for_query → Startup rest (last on) c' =
        λ is. (ms, m, now, busy, is, same, says) in
      startup_turn-branches F (Startup rest) on m c' (f c' same) quiet noting is_ready

  row_turn-Turned :
      (value : Option Bytes) (c : Conn) (m : RawMessage) (rest : Bytes)
      → c.sent ≡ sent
      → receive max_message_len c.input ≡ ok (m, rest)
      → Outcome F (Turned Same Same rest) (row_turn value m (record c { input = rest }))
  unfolding row_turn
  row_turn-Turned value c m rest same e = elim (Bool-cases (tag m == Tag.data_row)) [
    | inl is ↦ rw is (same, omega arith)
    | inr e1 ↦ elim (Bool-cases (tag m == Tag.ready_for_query)) [
      | inl is ↦ rw (e1, is) same
      | inr e2 ↦ elim (Bool-cases (tag m == Tag.error_response)) [
        | inl is ↦ rw (e1, e2, is) (f (record c { input = rest }) same)
        | inr e3 ↦ rw (e1, e2, e3) (same, omega arith)
      ]
    ]
  ]

-- The query was sent, and perhaps the terminate, to a server of which the messages up to the first
-- `ReadyForQuery` were received, and of those the last that reports the setting reports it on.
abbrev pub Queried : PgAuthidStore → Bytes → Conn → Conn → Type 0
Queried store rolname c c' =
    (ms : List RawMessage) × (ready : RawMessage) × (rest : Bytes) × Received c.input
      (ms ++ ready ∷ []) rest
    × All NotReady ms
    × (tag ready ≡ Tag.ready_for_query)
    × ReportsOn ms
    × ((c'.sent ≡ (c.sent ++ admin_startup store) ++ query_frame rolname)
        ⊎ (c'.sent ≡ ((c.sent ++ admin_startup store) ++ query_frame rolname) ++ terminate))

-- Nothing was sent, or the startup message alone, or the query under that condition.
abbrev pub Cautious : PgAuthidStore → Bytes → Conn → Conn → Type 0
Cautious store rolname c c' =
    (c'.sent ≡ c.sent) ⊎ (c'.sent ≡ c.sent ++ admin_startup store) ⊎ Queried store rolname c c'

terminate_with-Outcome :
    (F : Conn → Type 0) (P : Option Bytes → Conn → Type 0) (value : Option Bytes) (c : Conn)
    → P value c
    → ((room : ℕ) → P value (record c { sent = c.sent ++ terminate; room = room }))
    → (n : ℕ) → Outcome F P (terminate_with value (write_room n terminate c))
terminate_with-Outcome F P value c h k zero = h
terminate_with-Outcome F P value c h k (suc n) = k n

abbrev After : Bytes → Unit {0} → Conn → Type 0
After sent u c = c.sent ≡ sent

abbrev Started : Conn → Bytes → Unit {0} → Conn → Type 0
Started c sent u c' = (c'.sent ≡ sent) × (c'.input ≡ c.input)

read_rows-Finishes :
    (F : Conn → Type 0) (P : Option Bytes → Conn → Type 0) (sent : Bytes)
    → ((c : Conn) → c.sent ≡ sent → F c)
    → ((v : Option Bytes) (c : Conn) → c.sent ≡ sent → P v c)
    → ((v : Option Bytes) (c : Conn) → c.sent ≡ sent ++ terminate → P v c)
    → (u : Unit {0}) (c : Conn) → c.sent ≡ sent
    → Finishes F P (read_rows u c)
read_rows-Finishes F P sent f h k u c e =
    run_then-Finishes F (Same [] sent F f) P (loop_messages row_turn none c) finish
      (loop_messages-Finishes F (Same [] sent F f) (Same [] sent F f) row_turn
        (λ v c' same. f (record c' { input = [] }) same) (row_turn-Turned [] sent F f) none c e)
      λ v c' same.
        terminate_with-Outcome F P v c' (h v c' same)
          (λ room.
            k v (record c' { sent = c'.sent ++ terminate; room = room })
              (ap (λ l. l ++ terminate) same))
          c'.room

query_role-Cautious :
    (store : PgAuthidStore) (rolname : Bytes) (c : Conn) (on : Bool) (c1 : Conn)
    → Ready c.input (c.sent ++ admin_startup store) on c1
    → Finishes
        (Cautious store rolname c)
        (λ value c'. Queried store rolname c c')
        (query_role rolname on c1)
unfolding query_role
query_role-Cautious store rolname c false c1 (ms, ready, taken, busy, is, same, says) =
    inr (inl same)
query_role-Cautious store rolname c true c1 (ms, ready, taken, busy, is, same, says) =
    let started = c.sent ++ admin_startup store in
    let F = Cautious store rolname c in
    let queried : (c' : Conn)
        → c'.sent ≡ started ++ query_frame rolname
        → Queried store rolname c c' =
      λ c' e. (ms, ready, c1.input, taken, busy, is, says, inl e) in
    let ended : (c' : Conn)
        → c'.sent ≡ (started ++ query_frame rolname) ++ terminate
        → Queried store rolname c c' =
      λ c' e. (ms, ready, c1.input, taken, busy, is, says, inr e) in
    let asked : c1.sent ++ query_frame rolname ≡ started ++ query_frame rolname =
      ap (λ l. l ++ query_frame rolname) same in
    run_then-Finishes F (After (started ++ query_frame rolname))
      (λ value c'. Queried store rolname c c')
      (some ((write_all (query_frame rolname) >> flush) c1)) read_rows
      (send-Outcome F (After (started ++ query_frame rolname)) (query_frame rolname) c1
        (inr (inl same))
        (λ room.
          inr (
            inr (queried (record c1 { sent = c1.sent ++ query_frame rolname; room = room }) asked)))
        (λ room. asked))
      (read_rows-Finishes F (λ value c'. Queried store rolname c c')
        (started ++ query_frame rolname) (λ c' h. inr (inr (queried c' h))) (λ v c' h. queried c' h)
        (λ v c' h. ended c' h))

-- However the server answers and whenever a write fails, the lookup ends, and it has sent the query
-- only if, of the messages received before the first `ReadyForQuery`, the last `ParameterStatus`
-- for `standard_conforming_strings` says `on`. A lookup that succeeds has sent it.
pub fetch_rolpassword-Cautious :
    (store : PgAuthidStore) (rolname : Bytes) (c : Conn)
    → Finishes
        (Cautious store rolname c)
        (λ value c'. Queried store rolname c c')
        (fetch_rolpassword store rolname c)
unfolding fetch_rolpassword
fetch_rolpassword-Cautious store rolname c =
    let started = c.sent ++ admin_startup store in
    let F = Cautious store rolname c in
    run_then-Finishes F (Started c started) (λ value c'. Queried store rolname c c')
      (some ((write_all (admin_startup store) >> flush) c)) (after_startup rolname)
      (send-Outcome F (Started c started) (admin_startup store) c (inl refl)
        (λ room. inr (inl refl)) (λ room. (refl, refl)))
      λ u c1 (sent1, input1).
        run_then-Finishes F (Ready c.input started) (λ value c'. Queried store rolname c c')
          (loop_messages startup_turn false c1) (query_role rolname)
          (loop_messages-Finishes F (Heard c.input started) (Ready c.input started) startup_turn
            (λ on c' (ms, taken, busy, same, says). inr (inl same))
            (startup_turn-Turned c.input started F (λ c' h. inr (inl h))) false c1
            ([], sym input1, tt, sent1, tt))
          (query_role-Cautious store rolname c)
