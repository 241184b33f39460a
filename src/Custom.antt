-- ===== src/Custom.antt =====
-- src/proxy/custom.rs: queries answered in the proxy.
pub mod Serve
pub mod Status
use rama_pg.Auth.{ClientAuth, pass_through, terminated}
use rama_pg.Bytes.{Bytes, codes, eqb}
use rama_pg.Codec.{RawMessage, tag, payload}
use rama_pg.Codec.Tag
use rama_pg.Exec.{Exec, ◌>>=◌, ◌>>◌, and_then, done, Conn, write_all, flush, read_message}
use rama_pg.Message.{
  error_response, command_complete, row_description, data_row, ready_for_query, parameter_status,
}
use rama_pg.Query.{
  TxnStatus, idle, in_transaction, failed, code, QueryResponse, rows, command, error, QueryHandler,
  trim_query, verb_of, query_sql,
}
use rama_pg.Prelude.{
  ℕ, zero, suc, List, [], ◌∷◌, ◌++◌, map, length, Option, none, some, Bool, true, false, ◌||◌, ◌==◌,
  if◌then◌else◌, Result, ok, err,
}

-- The client's connection and `SessionState`.
pub record Session : Type 0 where
  pub conn : Conn
  pub txn : TxnStatus

abbrev pub put_conn {ℓ} : {A : Type ℓ} → Session → Result A × Conn → Result A × Session
put_conn s (x, c) = (x, record s { conn = c })

abbrev pub on_conn {ℓ} : {A : Type ℓ} → Exec Conn A → Exec Session A
on_conn m s = put_conn s (m s.conn)

abbrev pub set_txn : TxnStatus → Exec Session (Unit {0})
set_txn txn s = (ok tt, record s { txn = txn })

-- What the verb of a query is to the session.
pub data Verb : Type 0 where
  begin_verb : Verb
  commit_verb : Verb
  rollback_verb : Verb
  other_verb : Verb

unfoldable pub classify : Bytes → Verb
classify verb =
    if eqb verb (codes "BEGIN") || eqb verb (codes "START")
    then begin_verb
    else if eqb verb (codes "COMMIT") || eqb verb (codes "END")
    then commit_verb
    else if eqb verb (codes "ROLLBACK") || eqb verb (codes "ABORT")
    then rollback_verb
    else other_verb

abbrev pub write_rows : List (List (Option Bytes)) → Exec Session (Unit {0})
write_rows [] = done tt
write_rows (r ∷ rs) = on_conn (write_all (data_row r)) >> write_rows rs

abbrev pub fail_if : TxnStatus → Exec Session (Unit {0})
fail_if in_transaction = set_txn failed
fail_if idle = done tt
fail_if failed = done tt

-- The handler's response; `status` is the status before the query.
abbrev pub respond : TxnStatus → QueryResponse → Exec Session (Unit {0})
respond status (rows columns rs tag) = do
  on_conn (write_all (row_description columns))
  write_rows rs
  on_conn (write_all (command_complete tag))
respond status (command tag) = on_conn (write_all (command_complete tag))
respond status (error sqlstate message) = do
  on_conn (write_all (error_response (codes "ERROR") sqlstate message))
  fail_if status

abbrev pub handled : TxnStatus → QueryResponse × TxnStatus → Exec Session (Unit {0})
handled status (response, txn) = set_txn txn >> respond status response

abbrev pub aborted : Bytes
aborted =
    error_response (codes "ERROR") (codes "25P02")
      (codes "current transaction is aborted, commands ignored until end of transaction block")

-- The answer to a query, by the status before it.
unfoldable pub answer :
    QueryHandler → Bytes → Bytes → Bytes → TxnStatus → Verb → Exec Session (Unit {0})
answer handler user database sql failed begin_verb = on_conn (write_all aborted)
answer handler user database sql failed other_verb = on_conn (write_all aborted)
answer handler user database sql idle begin_verb = do
  set_txn in_transaction
  on_conn (write_all (command_complete (codes "BEGIN")))
answer handler user database sql in_transaction begin_verb = do
  set_txn in_transaction
  on_conn (write_all (command_complete (codes "BEGIN")))
answer handler user database sql status commit_verb = do
  set_txn idle
  on_conn (write_all (command_complete (codes "COMMIT")))
answer handler user database sql status rollback_verb = do
  set_txn idle
  on_conn (write_all (command_complete (codes "ROLLBACK")))
answer handler user database sql idle other_verb = handled idle (handler user database idle sql)
answer handler user database sql in_transaction other_verb =
    handled in_transaction (handler user database in_transaction sql)

-- `ReadyForQuery` with the status that the session now has.
abbrev pub write_ready : Exec Session (Unit {0})
write_ready s = (on_conn (write_all (ready_for_query (code s.txn))) >> on_conn flush) s

-- `run_query`
unfoldable pub run_query : QueryHandler → Bytes → Bytes → Bytes → Exec Session (Unit {0})
run_query handler user database sql s =
    let trimmed = trim_query sql in
    (answer handler user database trimmed s.txn (classify (verb_of trimmed)) >> write_ready) s
