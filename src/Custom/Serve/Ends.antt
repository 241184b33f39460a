-- ===== src/Custom/Serve/Ends.antt =====
-- The loop of a custom session ends.
use rama_pg.Auth.{ClientAuth, pass_through, terminated, or_empty}
use rama_pg.Startup.{CancelKey, user, database}
use rama_pg.Proxy.{PgClient}
use rama_pg.Bytes.{Bytes, codes}
use rama_pg.Codec.{RawMessage, tag, max_message_len, payload}
use rama_pg.Codec.Frames.{receive, receive_sound}
use rama_pg.Codec.Tag
use rama_pg.Custom.{
  Session, put_conn, on_conn, Verb, begin_verb, commit_verb, rollback_verb, other_verb, classify,
  write_rows, respond, fail_if, aborted, answer, write_ready, run_query,
}
use rama_pg.Custom.Serve.{
  Serving, put_session, on_session, query_message, unsupported, refusal, serve_message,
  next_message, after_read, serve_loop, after_startup, serve_custom, fresh, serve, key_bytes,
}
use rama_pg.Exec.{Exec, ◌>>◌, done, and_then, Conn, write_all, write_room, flush, received}
use rama_pg.Message.{command_complete, data_row, row_description, error_response, ready_for_query}
use rama_pg.Query.{
  TxnStatus, idle, in_transaction, failed, code, QueryResponse, rows, command, error, QueryHandler,
  trim_query, verb_of, query_sql,
}
use rama_pg.Prelude.{
  ℕ, zero, suc, ◌<◌, ◌+◌, List, [], ◌∷◌, Option, none, some, Bool, true, false, ◌==◌, if◌then◌else◌,
  ◌≡◌, refl, sym, ap, ◌∙◌, Result, ok, err, length, length-append, arith,
}

-- Nothing was read from the client.
abbrev Unread : {A : Type 0} → Bytes → Result A × Session → Type 0
Unread input r = r.1.conn.input ≡ input

and_then-Unread :
    (input : Bytes) (r : Result (Unit {0}) × Session) (k : Exec Session (Unit {0}))
    → Unread input r
    → ((s : Session) → s.conn.input ≡ input → Unread input (k s))
    → Unread input (and_then r λ u. k)
and_then-Unread input (ok u, s) k h f = f s h
and_then-Unread input (err e, s) k h f = h

room-Unread :
    (bs : Bytes) (s : Session) (n : ℕ) → Unread s.conn.input (put_conn s (write_room n bs s.conn))
room-Unread bs s zero = refl
room-Unread bs s (suc n) = refl

write-Unread :
    (input bs : Bytes) (s : Session)
    → s.conn.input ≡ input
    → Unread input (on_conn (write_all bs) s)
write-Unread input bs s h = room-Unread bs s s.conn.room ∙ h

write_rows-Unread :
    (input : Bytes) (rs : List (List (Option Bytes))) (s : Session)
    → s.conn.input ≡ input
    → Unread input (write_rows rs s)
write_rows-Unread input [] s h = h
write_rows-Unread input (r ∷ rs) s h =
    and_then-Unread input (on_conn (write_all (data_row r)) s) (write_rows rs)
      (write-Unread input (data_row r) s h) λ s1 h1. write_rows-Unread input rs s1 h1

fail_if-Unread :
    (input : Bytes) (status : TxnStatus) (s : Session)
    → s.conn.input ≡ input
    → Unread input (fail_if status s)
fail_if-Unread input idle s h = h
fail_if-Unread input in_transaction s h = h
fail_if-Unread input failed s h = h

respond-Unread :
    (input : Bytes) (status : TxnStatus) (response : QueryResponse) (s : Session)
    → s.conn.input ≡ input
    → Unread input (respond status response s)
respond-Unread input status (rows columns rs tag) s h =
    and_then-Unread input (on_conn (write_all (row_description columns)) s)
      (write_rows rs >> on_conn (write_all (command_complete tag)))
      (write-Unread input (row_description columns) s h)
      λ s1 h1.
        and_then-Unread input (write_rows rs s1) (on_conn (write_all (command_complete tag)))
          (write_rows-Unread input rs s1 h1)
          λ s2 h2. write-Unread input (command_complete tag) s2 h2
respond-Unread input status (command tag) s h = write-Unread input (command_complete tag) s h
respond-Unread input status (error sqlstate text) s h =
    and_then-Unread input (on_conn (write_all (error_response (codes "ERROR") sqlstate text)) s)
      (fail_if status) (write-Unread input _ s h) λ s1 h1. fail_if-Unread input status s1 h1

answer-Unread :
    (handler : QueryHandler) (user database sql input : Bytes) (status : TxnStatus) (verb : Verb)
    (s : Session)
    → s.conn.input ≡ input
    → Unread input (answer handler user database sql status verb s)
unfolding answer
answer-Unread handler user database sql input failed begin_verb s h = write-Unread input aborted s h
answer-Unread handler user database sql input failed other_verb s h = write-Unread input aborted s h
answer-Unread handler user database sql input idle begin_verb s h =
    write-Unread input _ (record s { txn = in_transaction }) h
answer-Unread handler user database sql input in_transaction begin_verb s h =
    write-Unread input _ (record s { txn = in_transaction }) h
answer-Unread handler user database sql input idle commit_verb s h =
    write-Unread input _ (record s { txn = idle }) h
answer-Unread handler user database sql input in_transaction commit_verb s h =
    write-Unread input _ (record s { txn = idle }) h
answer-Unread handler user database sql input failed commit_verb s h =
    write-Unread input _ (record s { txn = idle }) h
answer-Unread handler user database sql input idle rollback_verb s h =
    write-Unread input _ (record s { txn = idle }) h
answer-Unread handler user database sql input in_transaction rollback_verb s h =
    write-Unread input _ (record s { txn = idle }) h
answer-Unread handler user database sql input failed rollback_verb s h =
    write-Unread input _ (record s { txn = idle }) h
answer-Unread handler user database sql input idle other_verb s h =
    let r = handler user database idle sql in
    respond-Unread input idle r.0 (record s { txn = r.1 }) h
answer-Unread handler user database sql input in_transaction other_verb s h =
    let r = handler user database in_transaction sql in
    respond-Unread input in_transaction r.0 (record s { txn = r.1 }) h

-- `ReadyForQuery` and the flush, after anything that reads nothing.
ready-Unread :
    (input : Bytes) (s : Session)
    → s.conn.input ≡ input
    → Unread input ((on_conn (write_all (ready_for_query (code s.txn))) >> on_conn flush) s)
ready-Unread input s h =
    and_then-Unread input (on_conn (write_all (ready_for_query (code s.txn))) s) (on_conn flush)
      (write-Unread input (ready_for_query (code s.txn)) s h) λ s1 h1. write-Unread input [] s1 h1

run_query-Unread :
    (handler : QueryHandler) (user database sql : Bytes) (s : Session)
    → Unread s.conn.input (run_query handler user database sql s)
unfolding run_query
run_query-Unread handler user database sql s =
    and_then-Unread s.conn.input
      (answer handler user database (trim_query sql) s.txn (classify (verb_of (trim_query sql))) s)
      write_ready
      (answer-Unread handler user database (trim_query sql) s.conn.input s.txn
        (classify (verb_of (trim_query sql))) s refl)
      λ s1 h1. ready-Unread s.conn.input s1 h1

unsupported-Unread : (s : Session) → Unread s.conn.input (unsupported s)
unsupported-Unread s =
    and_then-Unread s.conn.input (on_conn (write_all refusal) s)
      (on_conn (write_all (ready_for_query (code s.txn))) >> on_conn flush)
      (write-Unread s.conn.input refusal s refl)
      λ s1 h1.
        and_then-Unread s.conn.input (on_conn (write_all (ready_for_query (code s.txn))) s1)
          (on_conn flush) (write-Unread s.conn.input (ready_for_query (code s.txn)) s1 h1)
          λ s2 h2. write-Unread s.conn.input [] s2 h2

-- After a message: nothing more was read, and the handle points at no token.
abbrev Cleared : {A : Type 0} → Bytes → Result A × Serving → Type 0
Cleared input r = (r.1.session.conn.input ≡ input) × (r.1.target ≡ none)

then-Cleared :
    (input : Bytes) (last : Bool) (r : Result (Unit {0}) × Serving)
    → Cleared input r
    → Cleared input (and_then r λ u s. (ok last, s))
then-Cleared input last (ok u, s) h = h
then-Cleared input last (err e, s) h = h

if-Cleared :
    (input : Bytes) (b : Bool) (t e : Exec Serving Bool) (s : Serving)
    → Cleared input (t s)
    → Cleared input (e s)
    → Cleared input ((if b then t else e) s)
if-Cleared input true t e s h k = h
if-Cleared input false t e s h k = k

serve_message-Cleared :
    (handler : QueryHandler) (user database : Bytes) (m : RawMessage) (s : Serving)
    → s.target ≡ none
    → Cleared s.session.conn.input (serve_message handler user database m s)
serve_message-Cleared handler user database m s h =
    if-Cleared _ (tag m == Tag.query) _ _ s
      (then-Cleared _ false (query_message handler user database m s)
        (run_query-Unread handler user database (query_sql (payload m)) s.session, refl))
      (if-Cleared _ (tag m == Tag.terminate) (done true) _ s (refl, h)
        (then-Cleared _ false (on_session unsupported s) (unsupported-Unread s.session, h)))

-- The session has ended, and a cancel request that arrives now has nothing to act on.
abbrev pub IsOver : Option (Result (Unit {0}) × Serving) → Type 0
IsOver none = ⊥
IsOver (some (x, s)) = s.target ≡ none

next_message-IsOver :
    (n : ℕ) (next : Serving → Option (Result (Unit {0}) × Serving))
    → ((s : Serving) → length s.session.conn.input < n → s.target ≡ none → IsOver (next s))
    → (input : Bytes) → length input < n
    → (r : Result Bool × Serving) → Cleared input r
    → IsOver (next_message next r)
next_message-IsOver n next safe input fuel (err e, s) (same, clear) = clear
next_message-IsOver n next safe input fuel (ok true, s) (same, clear) = clear
next_message-IsOver n next safe input fuel (ok false, s) (same, clear) =
    let less : length s.session.conn.input < n = rw same fuel in safe s less clear

-- A read, by what the bytes hold.
after_read-IsOver :
    (handler : QueryHandler) (user database : Bytes) (n : ℕ)
    (next : Serving → Option (Result (Unit {0}) × Serving))
    → ((s : Serving) → length s.session.conn.input < n → s.target ≡ none → IsOver (next s))
    → (s : Serving) → length s.session.conn.input < suc n
    → s.target ≡ none
    → (x : Result (RawMessage × Bytes)) → receive max_message_len s.session.conn.input ≡ x
    → IsOver (
        after_read next
          (serve_message handler user database)
          (put_session s (put_conn s.session (received x s.session.conn))))
after_read-IsOver handler user database n next safe s fuel clear (err e) at = clear
after_read-IsOver handler user database n next safe s fuel clear (ok (m, rest)) at =
    let (framed, long, short) = receive_sound _ s.session.conn.input at in
    let measured : length s.session.conn.input ≡ length m.frame + length rest =
      ap length (sym framed) ∙ length-append m.frame rest in
    let less : length rest < n = ground (arith, measured) in
    next_message-IsOver n next safe rest less _ (
      serve_message-Cleared handler user database m
        (put_session s (put_conn s.session (received (ok (m, rest)) s.session.conn))).1 clear)

serve_loop-IsOver :
    (handler : QueryHandler) (user database : Bytes) (n : ℕ) (s : Serving)
    → length s.session.conn.input < n
    → s.target ≡ none
    → IsOver (serve_loop n handler user database s)
unfolding serve_loop
serve_loop-IsOver handler user database zero s fuel clear = ground arith
serve_loop-IsOver handler user database (suc n) s fuel clear =
    after_read-IsOver handler user database n (serve_loop n handler user database)
      (serve_loop-IsOver handler user database n) s fuel clear _ refl

after_startup-IsOver :
    (handler : QueryHandler) (user database : Bytes) (r : Result (Unit {0}) × Conn)
    → IsOver (after_startup handler user database r)
after_startup-IsOver handler user database (err e, c) = refl
after_startup-IsOver handler user database (ok u, c) =
    serve_loop-IsOver handler user database (suc (length c.input)) (fresh c) (ground arith) refl

serve_custom-IsOver :
    (handler : QueryHandler) (user database : Bytes) (auth : ClientAuth) (key : Option Bytes)
    (throwaway : Bytes) (c : Conn)
    → IsOver (serve_custom handler user database auth key throwaway c)
unfolding serve_custom
serve_custom-IsOver handler user database pass_through key throwaway c = refl
serve_custom-IsOver handler user database (terminated auth) key throwaway c =
    after_startup-IsOver handler user database _

-- Whatever a client sends and whenever its writes fail, a custom session has a result, and no
-- query's token is left for a cancel request to fire.
pub serve-IsOver :
    (handler : QueryHandler) (begun : Result (Option CancelKey)) (throwaway : Bytes)
    (client : PgClient) (c : Conn)
    → IsOver (serve handler begun throwaway client c)
unfolding serve
serve-IsOver handler (err e) throwaway client c = refl
serve-IsOver handler (ok key) throwaway client c =
    serve_custom-IsOver handler (or_empty (user client.startup_message))
      (or_empty (database client.startup_message)) client.auth (key_bytes key) throwaway c
