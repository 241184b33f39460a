-- ===== src/PgBouncer/Config.antt =====
-- pgbouncer/src/config.rs: the INI parser and the settings read from it. A `HashMap` is the list of
-- its entries; which of its values an iteration meets first is an argument. An error carries what
-- the text of the source's error names.
pub mod Lines
pub mod Settings
use rama_pg.Bytes.{Bytes, codes, eqb}
use rama_pg.Bytes.Map.{lookup, insert}
use rama_pg.Bytes.Search.{split, split_once, strip_prefix, starts_with}
use rama_pg.Decimal.{parse_uint}
use rama_pg.Pool.{PoolMode, session, transaction, statement}
use rama_pg.Query.{white_space, trim, trim_start, first_word}
use rama_pg.Startup.{or_else}
use rama_pg.Prelude.{
  ℕ, zero, suc, ◌^◌, List, [], ◌∷◌, ◌++◌, map, reverse, length, drop, Option, none, some, Bool,
  true, false, ◌||◌, ◌==◌, if◌then◌else◌,
}

pub data ConfigError : Type 0 where
  missing_databases : ConfigError
  no_entries : ConfigError
  bad_address : Bytes → ConfigError

pub record Config : Type 0 where
  pub listen : Bytes
  pub backend : Bytes
  pub pool_mode : PoolMode
  pub pool_size : ℕ
  pub auth_user : Bytes
  pub auth_dbname : Bytes

pub data Outcome : Type 0 where
  config : Config → Outcome
  refused : ConfigError → Outcome

abbrev pub unwrap_or {ℓ} : {A : Type ℓ} → Option A → A → A
unwrap_or none b = b
unwrap_or (some a) b = a

-- `s.strip_suffix(p)`
abbrev reversed : Option Bytes → Option Bytes
reversed none = none
reversed (some s) = some (reverse s)

unfoldable pub strip_suffix : Bytes → Bytes → Option Bytes
strip_suffix p s = reversed (strip_prefix (reverse p) (reverse s))

-- `text.lines()`: an ending of `\n` or `\r\n` each, which the last line may lack.
abbrev line_ends : List Bytes → List Bytes
line_ends [] = []
line_ends (last ∷ []) = if length last == 0 then [] else last ∷ []
line_ends (l ∷ m ∷ ls) =
    let rest = line_ends (m ∷ ls) in unwrap_or (strip_suffix (13 ∷ []) l) l ∷ rest

unfoldable pub lines : Bytes → List Bytes
lines text = line_ends (split 10 text)

-- What the parser sees in a line.
pub data Line : Type 0 where
  skipped : Line
  heading : Bytes → Line
  entry : Bytes → Bytes → Line

abbrev entry_of : Option (Bytes × Bytes) → Line
entry_of none = skipped
entry_of (some (key, value)) = entry (trim key) (trim value)

abbrev closed : Option Bytes → Option Bytes
closed none = none
closed (some l) = strip_suffix (codes "]") l

abbrev heading_or : Option Bytes → Bytes → Line
heading_or (some name) line = heading (trim name)
heading_or none line = entry_of (split_once b'=' line)

abbrev trimmed_line : Bytes → Line
trimmed_line line =
    if (length line == 0) || (starts_with (codes ";") line || starts_with (codes "#") line)
    then skipped
    else heading_or (closed (strip_prefix (codes "[") line)) line

unfoldable pub read_line : Bytes → Line
read_line line = trimmed_line (trim line)

abbrev pub Section : Type 0
Section = List (Bytes × Bytes)

pub record Ini : Type 0 where
  pub sections : List (Bytes × Section)
  pub current : Bytes

-- `sections.entry(name).or_default()`
abbrev pub section_of : Bytes → List (Bytes × Section) → Section
section_of name sections = unwrap_or (lookup name sections) []

-- One turn of the loop of `parse_ini`.
unfoldable pub take_line : Ini → Line → Ini
take_line ini skipped = ini
take_line ini (heading name) = record {
  sections = insert name (section_of name ini.sections) ini.sections;
  current = name;
}
take_line ini (entry key value) = record ini {
  sections =
      insert ini.current (insert key value (section_of ini.current ini.sections)) ini.sections;
}

unfoldable pub take_lines : Ini → List Line → Ini
take_lines ini [] = ini
take_lines ini (l ∷ ls) = take_lines (take_line ini l) ls

-- `parse_ini`
unfoldable pub parse_ini : Bytes → List (Bytes × Section)
parse_ini text =
    (take_lines (record { sections = []; current = [] }) (map read_line (lines text))).sections

-- `split_whitespace`: every word takes a byte at least, so the length is enough fuel.
abbrev word_then : (Bytes → List Bytes) → Bytes → List Bytes
word_then next [] = []
word_then next (b ∷ bs) =
    let word = first_word (b ∷ bs) in word ∷ next (drop (length word) (b ∷ bs))

abbrev words_loop : ℕ → Bytes → List Bytes
words_loop zero s = []
words_loop (suc n) s = word_then (words_loop n) (trim_start white_space s)

unfoldable pub split_whitespace : Bytes → List Bytes
split_whitespace s = words_loop (length s) s

-- The host and the port of `backend_address`, by the token that names one last.
abbrev token : Option Bytes × Option Bytes → Option (Bytes × Bytes) → Option Bytes × Option Bytes
token (host, port) none = (host, port)
token (host, port) (some (name, value)) =
    if eqb name (codes "host")
    then (some value, port)
    else if eqb name (codes "port")
    then (host, some value)
    else (host, port)

abbrev tokens : Option Bytes × Option Bytes → List Bytes → Option Bytes × Option Bytes
tokens acc [] = acc
tokens acc (t ∷ ts) = tokens (token acc (split_once b'=' t)) ts

abbrev address : Option Bytes × Option Bytes → Option Bytes
address (none, port) = none
address (some host, port) = some (host ++ b':' ∷ unwrap_or port (codes "5432"))

-- `backend_address`
unfoldable pub backend_address : Bytes → Option Bytes
backend_address connstring = address (tokens (none, none) (split_whitespace connstring))

abbrev pub pool_mode_of : Option Bytes → PoolMode
pool_mode_of none = transaction
pool_mode_of (some mode) =
    if eqb mode (codes "session")
    then session
    else if eqb mode (codes "statement")
    then statement
    else transaction

-- `usize` on a 64-bit target.
abbrev pub pool_size_of : Option Bytes → ℕ
pool_size_of none = 10
pool_size_of (some v) = unwrap_or (parse_uint (2 ^ 64) v) 10

abbrev pub setting : Section → Bytes → Bytes → Bytes
setting pg key default = unwrap_or (lookup key pg) default

abbrev pub with_backend : Section → Bytes → Option Bytes → Outcome
with_backend pg connstring none = refused (bad_address connstring)
with_backend pg connstring (some backend) = config (record {
  listen =
      setting pg (codes "listen_addr") (codes "127.0.0.1")
      ++ b':' ∷ setting pg (codes "listen_port") (codes "6432");
  backend = backend;
  pool_mode = pool_mode_of (lookup (codes "pool_mode") pg);
  pool_size = pool_size_of (lookup (codes "default_pool_size") pg);
  auth_user = setting pg (codes "auth_user") (codes "postgres");
  auth_dbname = setting pg (codes "auth_dbname") (codes "postgres");
})

abbrev pub with_connstring : Section → Option Bytes → Outcome
with_connstring pg none = refused no_entries
with_connstring pg (some connstring) = with_backend pg connstring (backend_address connstring)

abbrev pub with_databases : (Section → Option Bytes) → Section → Option Section → Outcome
with_databases first_value pg none = refused missing_databases
with_databases first_value pg (some databases) =
    with_connstring pg (or_else (lookup (codes "*") databases) (first_value databases))

-- `Config::from_ini`
unfoldable pub from_ini : (Section → Option Bytes) → Bytes → Outcome
from_ini first_value text =
    let ini = parse_ini text in
    with_databases first_value (section_of (codes "pgbouncer") ini) (lookup (codes "databases") ini)
