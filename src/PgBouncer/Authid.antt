-- ===== src/PgBouncer/Authid.antt =====
-- pgbouncer/src/pg_authid.rs: SCRAM verifiers looked up in `pg_authid`. Dialling the server is a
-- function from its address.
pub mod Literal
pub mod Column
pub mod Cautious
pub mod Answered
use rama_pg.Bytes.{Bytes, codes, eqb, i32_at}
use rama_pg.Bytes.Search.{split, starts_with}
use rama_pg.Bytes.Utf8.{from_utf8}
use rama_pg.Codec.{RawMessage, tag, payload, frame}
use rama_pg.Codec.Tag
use rama_pg.Exec.{Exec, ◌>>=◌, ◌>>◌, and_then, done, fail, lift, Conn, write_all, flush}
use rama_pg.Exec.Loop.{Turn, again, last, Run, run_then, loop_messages}
use rama_pg.Pool.{auth_subtype}
use rama_pg.Prelude.Int.{ℤ, pos, negsuc, eqb_ℤ}
use rama_pg.Prelude.{
  ℕ, ◌+◌, ◌*◌, List, [], ◌∷◌, ◌++◌, length, take, drop, get_or, Option, none, some, Bool, true,
  false, ◌||◌, ltb, leb, ◌==◌, if◌then◌else◌, Result, ok, err, message,
}
use rama_pg.Scram.Primitives.{Primitives}
use rama_pg.Scram.Secret.{ScramSecret, parse}
use rama_pg.Startup.{startup_message}

pub record PgAuthidStore : Type 0 where
  pub address : Bytes
  pub admin_user : Bytes
  pub admin_database : Bytes

abbrev text : Result Bytes → Option Bytes
text (ok s) = some s
text (err e) = none

abbrev both : Option Bytes → Option Bytes → Option (Bytes × Bytes)
both (some a) (some b) = some (a, b)
both _ _ = none

abbrev first_two : List Bytes → Option (Bytes × Bytes)
first_two [] = none
first_two (name ∷ []) = none
first_two (name ∷ value ∷ rest) = both (text (from_utf8 name)) (text (from_utf8 value))

-- `parse_parameter_status`
unfoldable pub parse_parameter_status : Bytes → Option (Bytes × Bytes)
parse_parameter_status payload = first_two (split 0 payload)

-- `payload.get(6..6 + len)` of the length in the bytes before it: negative is SQL NULL.
abbrev pub column_text : ℤ → Bytes → Option Bytes
column_text (negsuc n) rest = none
column_text (pos len) rest =
    if ltb (length rest) len then none else text (from_utf8 (take len rest))

-- `i16::from_be_bytes([payload[0], payload[1]]) < 1`
abbrev no_columns : Bytes → Bool
no_columns payload =
    let columns = get_or payload 0 0 * 256 + get_or payload 1 0 in columns == 0 || leb 32768 columns

-- `first_column`
unfoldable pub first_column : Bytes → Option Bytes
first_column payload =
    if ltb (length payload) 2
    then none
    else if no_columns payload || ltb (length payload) 6
    then none
    else column_text (i32_at (drop 2 payload)) (drop 6 payload)

abbrev pub setting_name : Bytes
setting_name = codes "standard_conforming_strings"

-- What a `ParameterStatus` says of the setting.
abbrev noted : Bool → Option (Bytes × Bytes) → Bool
noted on none = on
noted on (some (name, value)) = if eqb name setting_name then eqb value (codes "on") else on

-- A message of the admin connection's startup.
unfoldable pub startup_turn : Bool → RawMessage → Exec Conn (Turn Bool Bool)
startup_turn on m =
    if tag m == Tag.authentication
    then if eqb_ℤ (auth_subtype m) (pos 0)
      then done (again on)
      else fail (message "pg_authid admin connection requires auth (trust only)")
    else if tag m == Tag.parameter_status
    then done (again (noted on (parse_parameter_status (payload m))))
    else if tag m == Tag.ready_for_query
    then done (last on)
    else if tag m == Tag.error_response
    then fail (message "pg_authid admin startup rejected")
    else done (again on)

-- `rolname.replace('\'', "''")`
unfoldable pub escape : Bytes → Bytes
escape [] = []
escape (c ∷ cs) = if c == 39 then 39 ∷ 39 ∷ escape cs else c ∷ escape cs

-- The query's text.
unfoldable pub sql : Bytes → Bytes
unfolding escape
sql rolname =
    codes "SELECT rolpassword FROM pg_authid WHERE rolname = " ++ 39 ∷ (escape rolname ++ 39 ∷ [])

-- A message of the answer: the last row counts.
unfoldable pub row_turn : Option Bytes → RawMessage → Exec Conn (Turn (Option Bytes) (Option Bytes))
row_turn value m =
    if tag m == Tag.data_row
    then done (again (first_column (payload m)))
    else if tag m == Tag.ready_for_query
    then done (last value)
    else if tag m == Tag.error_response
    then fail (message "pg_authid query failed")
    else done (again value)

-- The best-effort terminate.
abbrev pub terminate_with : Option Bytes → Result (Unit {0}) × Conn → Result (Option Bytes) × Conn
terminate_with value (x, c) = (ok value, c)

abbrev pub terminate : Bytes
terminate = frame Tag.terminate []

abbrev pub query_frame : Bytes → Bytes
query_frame rolname = frame Tag.query (sql rolname ++ 0 ∷ [])

abbrev pub finish : Option Bytes → Run Conn (Option Bytes)
finish value c = some (terminate_with value (write_all terminate c))

abbrev pub read_rows : Unit {0} → Run Conn (Option Bytes)
read_rows u c = run_then (loop_messages row_turn none c) finish

-- The query, unless the server may read backslashes in a literal as escapes.
unfoldable pub query_role : Bytes → Bool → Run Conn (Option Bytes)
query_role rolname false c =
    some (fail (message "refusing to interpolate the role name into SQL") c)
query_role rolname true c = run_then (some ((write_all (query_frame rolname) >> flush) c)) read_rows

abbrev pub admin_startup : PgAuthidStore → Bytes
admin_startup store =
    startup_message
      ((codes "user", store.admin_user) ∷ (codes "database", store.admin_database) ∷ [])

abbrev pub after_startup : Bytes → Unit {0} → Run Conn (Option Bytes)
after_startup rolname u c = run_then (loop_messages startup_turn false c) (query_role rolname)

-- `fetch_rolpassword`, on the connection that was dialled.
unfoldable pub fetch_rolpassword : PgAuthidStore → Bytes → Run Conn (Option Bytes)
fetch_rolpassword store rolname c =
    run_then (some ((write_all (admin_startup store) >> flush) c)) (after_startup rolname)

abbrev pub found : Result ScramSecret → Result (Option ScramSecret)
found (ok secret) = ok (some secret)
found (err e) = err e

-- The secret in what was fetched: a role may have no password, or one of another kind.
unfoldable pub secret_of : Primitives → Option Bytes → Result (Option ScramSecret)
secret_of p none = ok none
secret_of p (some verifier) =
    if starts_with (codes "SCRAM-SHA-256$") verifier then found (parse p verifier) else ok none

abbrev pub looked_up :
    Primitives → Option (Result (Option Bytes) × Conn) → Option (Result (Option ScramSecret))
looked_up p none = none
looked_up p (some (err e, c)) = some (err e)
looked_up p (some (ok verifier, c)) = some (secret_of p verifier)

abbrev pub dialled :
    Primitives → PgAuthidStore → Bytes → Result Conn → Option (Result (Option ScramSecret))
dialled p store user (err e) = some (err e)
dialled p store user (ok c) = looked_up p (fetch_rolpassword store user c)

-- `get_secret`
unfoldable pub get_secret :
    Primitives
    → (Bytes → Result Conn)
    → PgAuthidStore
    → Bytes
    → Option (Result (Option ScramSecret))
get_secret p connect store user = dialled p store user (connect store.address)
