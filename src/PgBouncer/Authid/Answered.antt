-- ===== src/PgBouncer/Authid/Answered.antt =====
-- A lookup that a server answers.
use rama_pg.Bytes.{Bytes, codes, eqb}
use rama_pg.Bytes.Search.{starts_with}
use rama_pg.Codec.{RawMessage, tag, payload, max_message_len}
use rama_pg.Codec.Frames.{receive, receive_sound, Received}
use rama_pg.Codec.Tag
use rama_pg.Exec.{Exec, Conn, write_room}
use rama_pg.Scram.Secret.RoundTrip.{IsSecret, parse-to_verifier_string}
use rama_pg.Exec.Loop.{Turn, again, last, read_loop, run_then, loop_messages}
use rama_pg.PgBouncer.Authid.Cautious.{about, report, ReportsOn}
use rama_pg.Prelude.Int.{pos, eqb_ℤ}
use rama_pg.PgBouncer.Authid.{
  noted, PgAuthidStore, parse_parameter_status, setting_name, startup_turn, row_turn, query_role,
  fetch_rolpassword, secret_of, get_secret, first_column, admin_startup, query_frame, finish,
  terminate, dialled, looked_up,
}
use rama_pg.Pool.{auth_subtype}
use rama_pg.Prelude.{
  All, length-append, ℕ, suc, ◌+◌, ◌<◌, [], ◌∷◌, ◌++◌, length, zero, List, sym, subst, Option, Bool,
  Bool-cases, inl, inr, ==-sound, ◌==◌, if◌then◌else◌, ◌≢◌, none, some, true, false, ◌≡◌, refl, ap,
  ◌∙◌, arith, Result, ok,
}
use rama_pg.Scram.Primitives.{Primitives}
use rama_pg.Scram.Secret.{ScramSecret, parse, to_verifier_string}

some-injective : {a b : Bytes} → some a ≡ some b → a ≡ b
some-injective e = cc

receive-shorter :
    (bs behind : Bytes) (m : RawMessage)
    → receive max_message_len bs ≡ ok (m, behind)
    → length behind < length bs
receive-shorter bs behind m e =
    let (framed, long, short) = receive_sound _ bs e in
    let measured : length bs ≡ length m.frame + length behind =
      ap length (sym framed) ∙ length-append m.frame behind in
    omega arith

-- A turn on a message that is there, when the loop goes on and when it ends.
read_loop-again {ℓ κ} :
    {B : Type ℓ} {R : Type κ} (n : ℕ) (turn : B → RawMessage → Exec Conn (Turn B R)) (b b' : B)
    (c : Conn) (m : RawMessage) (rest : Bytes)
    → receive max_message_len c.input ≡ ok (m, rest)
    → turn b m (record c { input = rest }) ≡ (ok (again b'), record c { input = rest })
    → read_loop (suc n) turn b c ≡ read_loop n turn b' (record c { input = rest })
read_loop-again n turn b b' c m rest got turned = rw (got, turned) refl

read_loop-last {ℓ κ} :
    {B : Type ℓ} {R : Type κ} (n : ℕ) (turn : B → RawMessage → Exec Conn (Turn B R)) (b : B) (r : R)
    (c : Conn) (m : RawMessage) (rest : Bytes)
    → receive max_message_len c.input ≡ ok (m, rest)
    → turn b m (record c { input = rest }) ≡ (ok (last r), record c { input = rest })
    → read_loop (suc n) turn b c ≡ some (ok r, record c { input = rest })
read_loop-last n turn b r c m rest got turned = rw (got, turned) refl

module _ {ℓ κ} {B : Type ℓ} {R : Type κ} (turn : B → RawMessage → Exec Conn (Turn B R))
    (goes_to : B → RawMessage → B) (Fine : RawMessage → Type 0)
    (goes : (b : B) (m : RawMessage) (c : Conn)
      → Fine m
      → turn b m c ≡ (ok (again (goes_to b m)), c)) where
  abbrev through : B → List RawMessage → B
  through b [] = b
  through b (m ∷ ms) = through (goes_to b m) ms

  through-append :
      (b : B) (front : List RawMessage) (m : RawMessage) (back : List RawMessage)
      → through b (front ++ m ∷ back) ≡ through (goes_to (through b front) m) back
  through-append b [] m back = refl
  through-append b (x ∷ front) m back = through-append (goes_to b x) front m back

  -- A loop over messages that go on and one that ends it has the result of that one.
  read_loop-ends :
      (ms : List RawMessage) (m : RawMessage) (n : ℕ) (b : B) (c : Conn) (rest : Bytes) (r : R)
      → All Fine ms
      → Received c.input (ms ++ m ∷ []) rest
      → length c.input < n
      → ((c' : Conn) → turn (through b ms) m c' ≡ (ok (last r), c'))
      → read_loop n turn b c ≡ some (ok r, record c { input = rest })
  read_loop-ends ms m zero b c rest r fine got fuel ends = absurd (omega arith)
  read_loop-ends [] m (suc n) b c rest r fine (behind, here, e) fuel ends =
      read_loop-last n turn b r c m behind here (ends _)
      ∙ ap (λ x. some (ok r, record c { input = x })) e
  read_loop-ends (x ∷ ms) m (suc n) b c rest r (fits, fine) (behind, here, got) fuel ends =
      let less : length behind < n = omega (arith, receive-shorter c.input behind x here) in
      read_loop-again n turn b (goes_to b x) c x behind here (goes b x _ fits)
      ∙ read_loop-ends ms m n (goes_to b x) (record c { input = behind }) rest r fine got less ends

-- A startup message that neither ends the startup nor asks for a password.
abbrev pub IsWelcome : RawMessage → Type 0
IsWelcome m =
    (tag m ≢ Tag.ready_for_query)
    × (tag m ≢ Tag.error_response)
    × ((tag m ≡ Tag.authentication) → eqb_ℤ (auth_subtype m) (pos 0) ≡ true)

abbrev heard : Bool → RawMessage → Bool
heard on m =
    if tag m == Tag.parameter_status then noted on (parse_parameter_status (payload m)) else on

startup_turn-heard :
    (on : Bool) (m : RawMessage) (c : Conn)
    → IsWelcome m
    → startup_turn on m c ≡ (ok (again (heard on m)), c)
unfolding startup_turn
startup_turn-heard on m c (not_ready, no_error, trusts) =
    elim (Bool-cases (tag m == Tag.authentication)) [
      | inl is ↦
          let zero_subtype : eqb_ℤ (auth_subtype m) (pos 0) ≡ true = trusts (==-sound is) in
          let other : tag m == Tag.parameter_status ≡ false = ground arith in
          rw (is, zero_subtype, other) refl
      | inr e1 ↦ elim (Bool-cases (tag m == Tag.parameter_status)) [
        | inl is ↦ rw (e1, is) refl
        | inr e2 ↦
            let e3 : tag m == Tag.ready_for_query ≡ false = ground arith in
            let e4 : tag m == Tag.error_response ≡ false = ground arith in rw (e1, e2, e3, e4) refl
      ]
    ]

about-on :
    (on : Bool) (p : Option (Bytes × Bytes)) → about p ≡ some (codes "on") → noted on p ≡ true
about-on on none e = cc
about-on on (some (name, value)) e = elim (Bool-cases (eqb name setting_name)) [
  | inl is ↦
      let said : value ≡ codes "on" = some-injective (sym (rw is refl) ∙ e) in rw (is, said) refl
  | inr other ↦ let e' = rw other at e in cc
]

about-none : (on : Bool) (p : Option (Bytes × Bytes)) → about p ≡ none → noted on p ≡ on
about-none on none e = refl
about-none on (some (name, value)) e = elim (Bool-cases (eqb name setting_name)) [
  | inl is ↦ let e' = rw is at e in cc
  | inr other ↦ rw other refl
]

heard-on : (on : Bool) (m : RawMessage) → report m ≡ some (codes "on") → heard on m ≡ true
heard-on on m e = elim (Bool-cases (tag m == Tag.parameter_status)) [
  | inl is ↦ rw is (about-on on (parse_parameter_status (payload m)) (sym (rw is refl) ∙ e))
  | inr other ↦ let e' = rw other at e in cc
]

heard-none : (on : Bool) (m : RawMessage) → report m ≡ none → heard on m ≡ on
heard-none on m e = elim (Bool-cases (tag m == Tag.parameter_status)) [
  | inl is ↦ rw is (about-none on (parse_parameter_status (payload m)) (sym (rw is refl) ∙ e))
  | inr other ↦ rw other refl
]

-- A message of the answer that neither ends it nor is an error.
abbrev pub IsPart : RawMessage → Type 0
IsPart m = (tag m ≢ Tag.ready_for_query) × (tag m ≢ Tag.error_response)

abbrev seen : Option Bytes → RawMessage → Option Bytes
seen value m = if tag m == Tag.data_row then first_column (payload m) else value

row_turn-seen :
    (value : Option Bytes) (m : RawMessage) (c : Conn)
    → IsPart m
    → row_turn value m c ≡ (ok (again (seen value m)), c)
unfolding row_turn
row_turn-seen value m c (not_ready, no_error) = elim (Bool-cases (tag m == Tag.data_row)) [
  | inl is ↦ rw is refl
  | inr e1 ↦
      let e2 : tag m == Tag.ready_for_query ≡ false = ground arith in
      let e3 : tag m == Tag.error_response ≡ false = ground arith in rw (e1, e2, e3) refl
]

-- The first column of the last row of these messages is this text.
abbrev pub LastRow : Bytes → List RawMessage → Type 0
LastRow verifier ms =
    (front : List RawMessage) × (row : RawMessage) × (back : List RawMessage) × (ms
      ≡ front ++ row ∷ back)
    × (tag row ≡ Tag.data_row)
    × (first_column (payload row) ≡ some verifier)
    × All (λ m. tag m ≢ Tag.data_row) back

-- What a server sends to a lookup that succeeds. Up to its first `ReadyForQuery` it sends any messages
-- that are no errors and ask for no password, and of those the last that reports the setting reports
-- it on. Then it sends any that are no errors, up to a `ReadyForQuery`, and the first column of the
-- last row among them is the verifier.
pub record Answers (input verifier : Bytes) : Type 0 where
  pub startup : List RawMessage
  pub ready : RawMessage
  pub behind : Bytes
  pub startup_received : Received input (startup ++ ready ∷ []) behind
  pub startup_welcomes : All IsWelcome startup
  pub startup_reports : ReportsOn startup
  pub is_ready : tag ready ≡ Tag.ready_for_query
  pub answer : List RawMessage
  pub ended : RawMessage
  pub rest : Bytes
  pub answer_received : Received behind (answer ++ ended ∷ []) rest
  pub answer_parts : All IsPart answer
  pub answer_row : LastRow verifier answer
  pub is_ended : tag ended ≡ Tag.ready_for_query

module _ {input verifier : Bytes} (server : Answers input verifier) where
  through-none :
      (on : Bool) (back : List RawMessage)
      → All (λ m. report m ≡ none) back
      → through startup_turn heard IsWelcome startup_turn-heard on back ≡ on
  through-none on [] h = refl
  through-none on (m ∷ back) (quiet, h) = through-none (heard on m) back h ∙ heard-none on m quiet

  startup_on : through startup_turn heard IsWelcome startup_turn-heard false server.startup ≡ true
  startup_on =
      let (front, m, back, e, on, quiet) = server.startup_reports in
      ap (through startup_turn heard IsWelcome startup_turn-heard false) e
      ∙ through-append startup_turn heard IsWelcome startup_turn-heard false front m back
      ∙ through-none _ back quiet
      ∙ heard-on _ m on

  through-no_row :
      (value : Option Bytes) (back : List RawMessage)
      → All (λ m. tag m ≢ Tag.data_row) back
      → through row_turn seen IsPart row_turn-seen value back ≡ value
  through-no_row value [] h = refl
  through-no_row value (m ∷ back) (other, h) =
      let none_here : tag m == Tag.data_row ≡ false = ground arith in
      through-no_row (seen value m) back h ∙ rw none_here refl

  answer_row : through row_turn seen IsPart row_turn-seen none server.answer ≡ some verifier
  answer_row =
      let (front, row, back, e, is, column, others) = server.answer_row in
      let is_row : tag row == Tag.data_row ≡ true = ground arith in
      ap (through row_turn seen IsPart row_turn-seen none) e
      ∙ through-append row_turn seen IsPart row_turn-seen none front row back
      ∙ through-no_row _ back others
      ∙ rw is_row column

  ready_turn :
      (on : Bool) (m : RawMessage) (c : Conn)
      → tag m ≡ Tag.ready_for_query
      → startup_turn on m c ≡ (ok (last on), c)
  unfolding startup_turn
  ready_turn on m c is = ground arith

  ended_turn :
      (value : Option Bytes) (m : RawMessage) (c : Conn)
      → tag m ≡ Tag.ready_for_query
      → row_turn value m c ≡ (ok (last value), c)
  unfolding row_turn
  ended_turn value m c is = ground arith

  startup_loop :
      (c : Conn)
      → c.input ≡ input
      → loop_messages startup_turn false c ≡ some (ok true, record c { input = server.behind })
  startup_loop c e =
      read_loop-ends startup_turn heard IsWelcome startup_turn-heard server.startup server.ready
        (suc (length c.input)) false c server.behind true server.startup_welcomes
        (subst (λ x. Received x (server.startup ++ server.ready ∷ []) server.behind) (sym e)
          server.startup_received)
        (omega arith)
        (λ c'.
          ready_turn _ server.ready c' server.is_ready ∙ ap (λ b. (ok (last b), c')) startup_on)

  rows_loop :
      (c : Conn)
      → c.input ≡ server.behind
      → loop_messages row_turn none c ≡ some (ok (some verifier), record c { input = server.rest })
  rows_loop c e =
      read_loop-ends row_turn seen IsPart row_turn-seen server.answer server.ended
        (suc (length c.input)) none c server.rest (some verifier) server.answer_parts
        (subst (λ x. Received x (server.answer ++ server.ended ∷ []) server.rest) (sym e)
          server.answer_received)
        (omega arith)
        (λ c'.
          ended_turn _ server.ended c' server.is_ended ∙ ap (λ v. (ok (last v), c')) answer_row)

  fetch_answered :
      (store : PgAuthidStore) (user sent : Bytes) (k : ℕ)
      → (c' : Conn) × (fetch_rolpassword store user
            (record { input = input; sent = sent; room = suc (suc (suc (suc k))) })
          ≡ some (ok (some verifier), c'))
  unfolding fetch_rolpassword query_role
  fetch_answered store user sent k =
      let asking : Conn = record {
        input = input;
        sent = (sent ++ admin_startup store) ++ [];
        room = suc (suc k);
      } in
      let asked : Conn = record {
        input = server.behind;
        sent = (asking.sent ++ query_frame user) ++ [];
        room = k;
      } in
      (
        (write_room k terminate (record asked { input = server.rest })).1,
        ap (λ r. run_then r (query_role user)) (startup_loop asking refl)
            ∙ ap (λ r. run_then r finish) (rows_loop asked refl),
      )

module _ (p : Primitives) where
  open p use {encode}

  secret_of-parse :
      (verifier : Bytes) (s : ScramSecret)
      → starts_with (codes "SCRAM-SHA-256$") verifier ≡ true
      → parse p verifier ≡ ok s
      → secret_of p (some verifier) ≡ ok (some s)
  unfolding secret_of
  secret_of-parse verifier s h e = rw (h, e) refl

  starts_with-append :
      (rest : Bytes) → starts_with (codes "SCRAM-SHA-256$") (codes "SCRAM-SHA-256$" ++ rest) ≡ true
  unfolding starts_with
  starts_with-append rest = refl

  starts_with-verifier :
      (s : ScramSecret) → starts_with (codes "SCRAM-SHA-256$") (to_verifier_string p s) ≡ true
  unfolding to_verifier_string
  starts_with-verifier s = starts_with-append _

  -- The server that the store's address leads to sends whatever it likes that is no error and no
  -- request for a password, reports the setting on last, and answers the query with rows of which
  -- the last has the verifier of a secret in its first column; the connection takes four writes. Then
  -- the lookup returns that secret.
  pub get_secret_answered :
      (connect : Bytes → Result Conn) (store : PgAuthidStore) (user input sent : Bytes) (k : ℕ)
      (s : ScramSecret)
      → IsSecret s
      → Answers input (to_verifier_string p s)
      → connect store.address
        ≡ ok (record { input = input; sent = sent; room = suc (suc (suc (suc k))) })
      → get_secret p connect store user ≡ some (ok (some s))
  unfolding get_secret
  get_secret_answered connect store user input sent k s h server dial =
      let (c', fetched) = fetch_answered server store user sent k in
      ap (dialled p store user) dial
      ∙ ap (looked_up p) fetched
      ∙ ap some (
          secret_of-parse (to_verifier_string p s) s (starts_with-verifier s)
            (parse-to_verifier_string p s h))
