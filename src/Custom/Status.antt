-- ===== src/Custom/Status.antt =====
-- The transaction status of a session whose queries the proxy answers.
use rama_pg.Bytes.{Bytes}
use rama_pg.Custom.{
  Session, put_conn, on_conn, Verb, begin_verb, commit_verb, rollback_verb, other_verb, classify,
  write_rows, fail_if, respond, aborted, answer, run_query,
}
use rama_pg.Exec.{write_all, write_room}
use rama_pg.Exec.Ensures.{Leaves, and_then-Leaves}
use rama_pg.Message.{ready_for_query, data_row, row_description, command_complete}
use rama_pg.Query.{
  TxnStatus, idle, in_transaction, failed, code, QueryResponse, rows, command, error, QueryHandler,
  trim_query, verb_of,
}
use rama_pg.Prelude.{
  ℕ, zero, suc, List, [], ◌∷◌, ◌++◌, append-nil, append_assoc, Option, ◌≡◌, refl, sym, ap, ◌∙◌,
}

-- PostgreSQL's status after a query: `response` is the handler's, with the status that it set.
abbrev pub after_error : QueryResponse → TxnStatus → TxnStatus
after_error (rows columns rs tag) txn = txn
after_error (command tag) txn = txn
after_error (error sqlstate text) txn = failed

abbrev pub next_status : TxnStatus → Verb → QueryResponse × TxnStatus → TxnStatus
next_status failed begin_verb response = failed
next_status failed other_verb response = failed
next_status idle begin_verb response = in_transaction
next_status in_transaction begin_verb response = in_transaction
next_status status commit_verb response = idle
next_status status rollback_verb response = idle
next_status idle other_verb (response, txn) = txn
next_status in_transaction other_verb (response, txn) = after_error response txn

-- The status is now `txn`, and the client has been sent something more.
abbrev pub Answered : Bytes → TxnStatus → Unit {0} → Session → Type 0
Answered before txn u s = (s.txn ≡ txn) × (body : Bytes) × (s.conn.sent ≡ before ++ body)

room-Leaves :
    (before bs : Bytes) (s : Session) (txn : TxnStatus)
    → Answered before txn tt s
    → (n : ℕ) → Leaves (Answered before txn) (put_conn s (write_room n bs s.conn))
room-Leaves before bs s txn h zero = tt
room-Leaves before bs s txn (same, body, sent) (suc n) =
    (same, body ++ bs, ap (λ l. l ++ bs) sent ∙ append_assoc before body bs)

write-Leaves :
    (before bs : Bytes) (s : Session) (txn : TxnStatus)
    → Answered before txn tt s
    → Leaves (Answered before txn) (on_conn (write_all bs) s)
write-Leaves before bs s txn h = room-Leaves before bs s txn h s.conn.room

write_rows-Leaves :
    (before : Bytes) (rs : List (List (Option Bytes))) (s : Session) (txn : TxnStatus)
    → Answered before txn tt s
    → Leaves (Answered before txn) (write_rows rs s)
write_rows-Leaves before [] s txn h = h
write_rows-Leaves before (r ∷ rs) s txn h =
    and_then-Leaves (Answered before txn) _ _ _ (write-Leaves before (data_row r) s txn h)
      λ u s' h'. write_rows-Leaves before rs s' txn h'

-- How a response to a query in `status` changes the status that the handler left.
abbrev responded : TxnStatus → QueryResponse → TxnStatus → TxnStatus
responded idle response txn = txn
responded failed response txn = txn
responded in_transaction response txn = after_error response txn

fail_if-Leaves :
    (before : Bytes) (status : TxnStatus) (sqlstate text : Bytes) (s : Session) (txn : TxnStatus)
    → Answered before txn tt s
    → Leaves (Answered before (responded status (error sqlstate text) txn)) (fail_if status s)
fail_if-Leaves before idle sqlstate text s txn h = h
fail_if-Leaves before failed sqlstate text s txn h = h
fail_if-Leaves before in_transaction sqlstate text s txn (same, body, sent) = (refl, body, sent)

responded-rows :
    (status : TxnStatus) (columns : List Bytes) (rs : List (List (Option Bytes))) (tag : Bytes)
    (txn : TxnStatus)
    → txn ≡ responded status (rows columns rs tag) txn
responded-rows idle columns rs tag txn = refl
responded-rows in_transaction columns rs tag txn = refl
responded-rows failed columns rs tag txn = refl

responded_command :
    (status : TxnStatus) (tag : Bytes) (txn : TxnStatus) → txn ≡ responded status (command tag) txn
responded_command idle tag txn = refl
responded_command in_transaction tag txn = refl
responded_command failed tag txn = refl

respond-Leaves :
    (before : Bytes) (status : TxnStatus) (response : QueryResponse) (s : Session) (txn : TxnStatus)
    → Answered before txn tt s
    → Leaves (Answered before (responded status response txn)) (respond status response s)
respond-Leaves before status (rows columns rs tag) s txn h =
    and_then-Leaves (Answered before txn) _ _ _
      (write-Leaves before (row_description columns) s txn h)
      λ u s1 h1.
        and_then-Leaves (Answered before txn) _ _ _ (write_rows-Leaves before rs s1 txn h1)
          λ v s2 (same, body, sent).
            write-Leaves before (command_complete tag) s2 _
              (same ∙ responded-rows status columns rs tag txn, body, sent)
respond-Leaves before status (command tag) s txn (same, body, sent) =
    write-Leaves before (command_complete tag) s _
      (same ∙ responded_command status tag txn, body, sent)
respond-Leaves before status (error sqlstate text) s txn h =
    and_then-Leaves (Answered before txn) _ _ _ (write-Leaves before _ s txn h)
      λ u s1 h1. fail_if-Leaves before status sqlstate text s1 txn h1

answer-Leaves :
    (handler : QueryHandler) (user database sql before : Bytes) (status : TxnStatus) (verb : Verb)
    (s : Session)
    → Answered before status tt s
    → Leaves
        (Answered before (next_status status verb (handler user database status sql)))
        (answer handler user database sql status verb s)
unfolding answer
answer-Leaves handler user database sql before failed begin_verb s h =
    write-Leaves before aborted s failed h
answer-Leaves handler user database sql before failed other_verb s h =
    write-Leaves before aborted s failed h
answer-Leaves handler user database sql before idle begin_verb s (same, body, sent) =
    write-Leaves before _ (record s { txn = in_transaction }) in_transaction (refl, body, sent)
answer-Leaves handler user database sql before in_transaction begin_verb s (same, body, sent) =
    write-Leaves before _ (record s { txn = in_transaction }) in_transaction (refl, body, sent)
answer-Leaves handler user database sql before idle commit_verb s (same, body, sent) =
    write-Leaves before _ (record s { txn = idle }) idle (refl, body, sent)
answer-Leaves handler user database sql before in_transaction commit_verb s (same, body, sent) =
    write-Leaves before _ (record s { txn = idle }) idle (refl, body, sent)
answer-Leaves handler user database sql before failed commit_verb s (same, body, sent) =
    write-Leaves before _ (record s { txn = idle }) idle (refl, body, sent)
answer-Leaves handler user database sql before idle rollback_verb s (same, body, sent) =
    write-Leaves before _ (record s { txn = idle }) idle (refl, body, sent)
answer-Leaves handler user database sql before in_transaction rollback_verb s (same, body, sent) =
    write-Leaves before _ (record s { txn = idle }) idle (refl, body, sent)
answer-Leaves handler user database sql before failed rollback_verb s (same, body, sent) =
    write-Leaves before _ (record s { txn = idle }) idle (refl, body, sent)
answer-Leaves handler user database sql before idle other_verb s (same, body, sent) =
    let r = handler user database idle sql in
    respond-Leaves before idle r.0 (record s { txn = r.1 }) r.1 (refl, body, sent)
answer-Leaves handler user database sql before in_transaction other_verb s (same, body, sent) =
    let r = handler user database in_transaction sql in
    respond-Leaves before in_transaction r.0 (record s { txn = r.1 }) r.1 (refl, body, sent)

-- The run ends with one `ReadyForQuery` that gives the status the session has.
abbrev pub EndsReady : Bytes → TxnStatus → Unit {0} → Session → Type 0
EndsReady before txn u s =
    (s.txn ≡ txn) × (body : Bytes) × (s.conn.sent ≡ before ++ (body ++ ready_for_query (code txn)))

ready_room-Leaves :
    (before : Bytes) (s : Session) (txn : TxnStatus)
    → Answered before txn tt s
    → (n : ℕ)
    → Leaves
        (EndsReady before txn)
        (put_conn s (write_room n (ready_for_query (code s.txn)) s.conn))
ready_room-Leaves before s txn h zero = tt
ready_room-Leaves before s txn (same, body, sent) (suc n) = (
  same,
  body,
  ap (λ l. l ++ ready_for_query (code s.txn)) sent
      ∙ append_assoc before body _
      ∙ ap (λ t. before ++ (body ++ ready_for_query (code t))) same,
)

flush_room-Leaves :
    (before : Bytes) (s : Session) (txn : TxnStatus)
    → EndsReady before txn tt s
    → (n : ℕ) → Leaves (EndsReady before txn) (put_conn s (write_room n [] s.conn))
flush_room-Leaves before s txn h zero = tt
flush_room-Leaves before s txn (same, body, sent) (suc n) = (same, body, append-nil _ ∙ sent)

-- A query that is answered leaves the session in the status that `next_status` gives, and ends with
-- a `ReadyForQuery` that says so; in a failed transaction only its end leaves that status, whatever
-- the handler would do.
pub run_query-Leaves :
    (handler : QueryHandler) (user database sql : Bytes) (s : Session)
    → Leaves
        (EndsReady s.conn.sent (
          next_status s.txn
            (classify (verb_of (trim_query sql)))
            (handler user database s.txn (trim_query sql))))
        (run_query handler user database sql s)
unfolding run_query
run_query-Leaves handler user database sql s =
    let verb = classify (verb_of (trim_query sql)) in
    let next = next_status s.txn verb (handler user database s.txn (trim_query sql)) in
    and_then-Leaves (Answered s.conn.sent next) _ _ _
      (answer-Leaves handler user database (trim_query sql) s.conn.sent s.txn verb s
        (refl, [], sym (append-nil _)))
      λ u s1 h1.
        and_then-Leaves (EndsReady s.conn.sent next) _ _ _
          (ready_room-Leaves s.conn.sent s1 next h1 s1.conn.room)
          λ v s2 h2. flush_room-Leaves s.conn.sent s2 next h2 s2.conn.room
