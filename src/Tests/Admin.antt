-- ===== src/Tests/Admin.antt =====
-- The pgbouncer program at concrete inputs.
use rama_pg.Auth.{terminated, trust}
use rama_pg.Bytes.{Bytes, codes}
use rama_pg.Bytes.Search.{split_once, split}
use rama_pg.Bytes.Utf8.{is_utf8, from_utf8}
use rama_pg.Codec.{payload}
use rama_pg.Exec.{Conn}
use rama_pg.Exec.Loop.{Finishes}
use rama_pg.Codec.{RawMessage, frame, parse_header, body_len}
use rama_pg.Codec.Frames.{receive}
use rama_pg.Message.{
  authentication_ok, parameter_status, backend_key_data_raw, ready_for_query, row_description,
  data_row, command_complete,
}
use rama_pg.PgBouncer.Authid.{
  setting_name, parse_parameter_status, PgAuthidStore, first_column, sql, fetch_rolpassword,
  get_secret,
}
use rama_pg.PgBouncer.Authid.Answered.{Answers, get_secret_answered}
use rama_pg.PgBouncer.Authid.Cautious.{Cautious, Queried, fetch_rolpassword-Cautious}
use rama_pg.PgBouncer.Authid.Column.{first_column-data_row}
use rama_pg.PgBouncer.Authid.Literal.{read_literal, statement, sql-read_literal}
use rama_pg.PgBouncer.Console.{console}
use rama_pg.PgBouncer.Console.Tables.{IsAnswer, console-IsAnswer}
use rama_pg.PgBouncer.Stats.{Stats, new, active, is_admin, forward}
use rama_pg.PgBouncer.Stats.Forward.{Tracked, forward-Tracked}
use rama_pg.PgBouncer.Stats.Sessions.{
  Operation, drew, counted, pushed, closed, perform_all, start, specify_all, no_sessions, Shows,
  perform_all_refines,
}
use rama_pg.Pool.{transaction, session, auth_subtype}
use rama_pg.Proxy.{PgClient}
use rama_pg.Query.{idle, trim_query, upper}
use rama_pg.Decimal.{to_string}
use rama_pg.Scram.Secret.{to_verifier_string}
use rama_pg.Startup.{v3_0, database, get, find_parameter, startup_message}
use rama_pg.Tests.Handshake.{secret, secret-IsSecret}
use rama_pg.Tests.Toy.{toy}
use rama_pg.Prelude.{
  ◌++◌, List, [], ◌∷◌, map, length, none, some, true, false, Result, ok, err, broken_pipe, ◌≡◌,
  refl, arith,
}

abbrev store : PgAuthidStore
store = record {
  address = codes "pg:5432";
  admin_user = codes "postgres";
  admin_database = codes "postgres";
}

abbrev setting_on : Bytes
setting_on = parameter_status setting_name (codes "on")

abbrev key_data : Bytes
key_data = backend_key_data_raw (1 ∷ 2 ∷ 3 ∷ 4 ∷ [])

abbrev ready : Bytes
ready = ready_for_query b'I'

abbrev columns : Bytes
columns = row_description (codes "rolpassword" ∷ [])

abbrev row : Bytes
row = data_row (some (to_verifier_string toy secret) ∷ [])

abbrev complete : Bytes
complete = command_complete (codes "SELECT 1")

abbrev server_answer : Bytes
server_answer = columns ++ (row ++ (complete ++ (ready ++ [])))

abbrev server_startup : Bytes
server_startup = authentication_ok ++ (setting_on ++ (key_data ++ (ready ++ server_answer)))

abbrev message : Bytes → RawMessage
message bs = record { frame = bs }

abbrev server : Conn
server = record { input = server_startup; sent = []; room = 10 }

fetch_rolpassword-Cautious_example :
    Finishes
      (Cautious store (codes "bob") server)
      (λ value c. Queried store (codes "bob") server c)
      (fetch_rolpassword store (codes "bob") server)
fetch_rolpassword-Cautious_example = fetch_rolpassword-Cautious store (codes "bob") server

sql-read_literal_example :
    (literal : Bytes) × (split_once 39 (sql (codes "o'brien")) ≡ some (statement, literal))
    × (read_literal literal ≡ some (codes "o'brien", []))
sql-read_literal_example = sql-read_literal (codes "o'brien")

md5-is_utf8 : is_utf8 (codes "md5") ≡ true
unfolding is_utf8
md5-is_utf8 = refl

first_column-data_row_example :
    first_column (payload (record { frame = data_row (some (codes "md5") ∷ none ∷ []) }))
    ≡ some (codes "md5")
first_column-data_row_example =
    first_column-data_row (some (codes "md5")) (none ∷ []) (md5-is_utf8, omega arith) (omega arith)

-- The server also sends its key, as every server does.
server-Answers : Answers server_startup (to_verifier_string toy secret)
unfolding receive authentication_ok frame parameter_status backend_key_data_raw ready_for_query
    row_description data_row to_verifier_string to_string command_complete parse_header body_len
    parse_parameter_status split from_utf8 is_utf8 first_column auth_subtype
server-Answers = record {
  startup = message authentication_ok ∷ message setting_on ∷ message key_data ∷ [];
  ready = message ready;
  behind = server_answer;
  startup_received = (_, refl, (_, refl, (_, refl, (_, refl, refl))));
  startup_welcomes = (
    (omega arith, omega arith, λ e. refl),
    (
      (omega arith, omega arith, λ e. absurd (omega arith)),
      ((omega arith, omega arith, λ e. absurd (omega arith)), tt),
    ),
  );
  startup_reports = (
    message authentication_ok ∷ [],
    message setting_on,
    message key_data ∷ [],
    refl,
    refl,
    (refl, tt),
  );
  is_ready = refl;
  answer = message columns ∷ message row ∷ message complete ∷ [];
  ended = message ready;
  rest = [];
  answer_received = (_, refl, (_, refl, (_, refl, (_, refl, refl))));
  answer_parts =
      ((omega arith, omega arith), ((omega arith, omega arith), ((omega arith, omega arith), tt)));
  answer_row = (
    message columns ∷ [],
    message row,
    message complete ∷ [],
    refl,
    refl,
    refl,
    (omega arith, tt),
  );
  is_ended = refl;
}

get_secret_answered_example :
    get_secret toy (λ address. ok server) store (codes "bob") ≡ some (ok (some secret))
get_secret_answered_example =
    get_secret_answered toy (λ address. ok server) store (codes "bob") server_startup [] 6 secret
      secret-IsSecret server-Answers refl

-- Two sessions whose steps cross, so that the second is listed first, and a third after the first
-- has closed.
abbrev trace : List Operation
trace =
    drew (codes "bob") (codes "db")
    ∷ drew (codes "eve") (codes "db")
    ∷ counted
    ∷ pushed 1
    ∷ counted
    ∷ pushed 0
    ∷ closed 0
    ∷ drew (codes "bob") (codes "shop")
    ∷ counted
    ∷ pushed 2
    ∷ []

perform_all_refines_example :
    Shows (perform_all trace (start transaction 10 [])) (specify_all trace no_sessions)
    × (active (perform_all trace (start transaction 10 [])).stats
        ≡ length (specify_all trace no_sessions).live)
perform_all_refines_example = perform_all_refines transaction 10 [] trace (omega arith)

abbrev stats : Stats
stats = (perform_all trace (start transaction 10 [])).stats

abbrev client : PgClient
client = record {
  startup_message = record {
    protocol_version = v3_0;
    parameters = (codes "user", codes "bob") ∷ (codes "database", codes "db") ∷ [];
    raw = startup_message ((codes "user", codes "bob") ∷ (codes "database", codes "db") ∷ []);
  };
  protocol_version = v3_0;
  sni = none;
  auth = terminated trust;
}

client-pooled : is_admin (database client.startup_message) ≡ false
unfolding database get find_parameter
client-pooled = refl

abbrev failing : PgClient → Stats → Result (Unit {0}) × Stats
failing _ s = (err broken_pipe, s)

forward-Tracked_example :
    Tracked failing client
      (new session 5 [])
      (forward (λ client s. (ok tt, s)) failing client (new session 5 []))
forward-Tracked_example =
    forward-Tracked (λ client s. (ok tt, s)) failing client (new session 5 []) client-pooled

console-IsAnswer_example :
    IsAnswer
      (map upper (trim_query (codes " show clients;")))
      (console stats (codes "bob") (codes "pgbouncer") idle (codes " show clients;")).0
    × ((console stats (codes "bob") (codes "pgbouncer") idle (codes " show clients;")).1 ≡ idle)
console-IsAnswer_example =
    console-IsAnswer stats (codes "bob") (codes "pgbouncer") idle (codes " show clients;")
