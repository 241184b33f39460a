-- ===== src/Auth.antt =====
-- src/auth.rs: the outcomes of client authentication, and the cleartext-password mechanism.
pub mod Cleartext
use rama_pg.Bytes.{Bytes, codes, eqb}
use rama_pg.Codec.{RawMessage, tag, payload, max_auth_message_len}
use rama_pg.Codec.Tag
use rama_pg.Exec.{Exec, ◌>>=◌, ◌>>◌, done, fail, lift, Conn, write_all, flush, read_message_capped}
use rama_pg.Message.{authentication_cleartext_password, fatal_error}
use rama_pg.Scram.Crypto.{ScramKeys}
use rama_pg.Startup.{StartupMessage, user}
use rama_pg.Bytes.Search.{split_once}
use rama_pg.Prelude.{
  ℕ, List, [], ◌∷◌, Option, none, some, Bool, true, false, not, ◌==◌, if◌then◌else◌, Result, ok,
  message,
}

-- The parsed startup message and the SNI.
pub record AuthContext : Type 0 where
  pub startup : StartupMessage
  pub sni : Option Bytes

pub data BackendAuth : Type 0 where
  trust : BackendAuth
  scram : ScramKeys → BackendAuth

pub data ClientAuth : Type 0 where
  pass_through : ClientAuth
  terminated : BackendAuth → ClientAuth

-- `unwrap_or_default` of a string
abbrev pub or_empty : Option Bytes → Bytes
or_empty none = []
or_empty (some s) = s

-- An `Authenticator`: its exchange with the client, and whether it ends authentication itself.
pub record Authenticator : Type 0 where
  pub authenticate : AuthContext → Exec Conn ClientAuth
  pub terminates : Bool

-- `PassThrough`
abbrev pub pass_through_auth : Authenticator
pass_through_auth = record { authenticate = λ ctx. done pass_through; terminates = false }

-- `StaticPasswordValidator`: a map from user names to passwords.
unfoldable pub find_password : Bytes → List (Bytes × Bytes) → Option Bytes
find_password name [] = none
find_password name ((u, p) ∷ rest) = if eqb u name then some p else find_password name rest

abbrev compare_password : Option Bytes → Bytes → Bool
compare_password (some expected) password = eqb expected password
compare_password none password = false

unfoldable pub static_validate : List (Bytes × Bytes) → AuthContext → Bytes → Result Bool
static_validate credentials ctx password =
    ok (compare_password (find_password (or_empty (user ctx.startup)) credentials) password)

-- `password_bytes`: the payload up to its first null.
abbrev before_null : Bytes → Option (Bytes × Bytes) → Bytes
before_null bs none = bs
before_null bs (some (s, rest)) = s

unfoldable pub password_bytes : Bytes → Bytes
password_bytes bs = before_null bs (split_once 0 bs)

abbrev pub cleartext_answer : Bool → Exec Conn ClientAuth
cleartext_answer true = done (terminated trust)
cleartext_answer false = do
  write_all (fatal_error (codes "28P01") (codes "password authentication failed"))
  flush
  fail (message "password authentication failed")

abbrev pub cleartext_reply :
    (AuthContext → Bytes → Result Bool) → AuthContext → RawMessage → Exec Conn ClientAuth
cleartext_reply validate ctx m =
    if not (tag m == Tag.password_message)
    then fail (message "expected PasswordMessage")
    else (do valid ← lift (validate ctx (password_bytes (payload m))); cleartext_answer valid)

-- `CleartextPassword::authenticate` over a given validator.
unfoldable pub cleartext_authenticate :
    (AuthContext → Bytes → Result Bool) → AuthContext → Exec Conn ClientAuth
cleartext_authenticate validate ctx = do
  write_all authentication_cleartext_password
  flush
  m ← read_message_capped max_auth_message_len
  cleartext_reply validate ctx m

abbrev pub cleartext_password : (AuthContext → Bytes → Result Bool) → Authenticator
cleartext_password validate = record {
  authenticate = cleartext_authenticate validate;
  terminates = true;
}
