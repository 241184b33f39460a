-- ===== src/Scram/Secret.antt =====
-- src/scram/secret.rs: the verifiers that Postgres stores.
pub mod RoundTrip
use rama_pg.Bytes.{Bytes, codes, eqb}
use rama_pg.Bytes.Search.{split_once, strip_prefix}
use rama_pg.Decimal.{parse_uint, to_string}
use rama_pg.Scram.Crypto.{ScramKeys, from_password}
use rama_pg.Scram.Primitives.{Primitives}
use rama_pg.Prelude.{
  ℕ, ◌^◌, List, [], ◌∷◌, ◌++◌, length, Option, none, some, Result, ok, err, ◌>>=◌, ok_or, message,
  ◌==◌, if◌then◌else◌,
}

pub record ScramSecret : Type 0 where
  pub iterations : ℕ
  pub salt : Bytes
  pub stored_key : Bytes
  pub server_key : Bytes

module _ (p : Primitives) where
  open p use {encode, decode}

  unfoldable pub decode_key : Bytes → Result Bytes
  decode_key b64 = do
    key ← decode b64
    if length key == 32 then ok key else err (message "scram secret: key is not 32 bytes")

  -- `ScramSecret::parse`
  unfoldable pub parse : Bytes → Result ScramSecret
  parse s = do
    rest ←
        ok_or (strip_prefix (codes "SCRAM-SHA-256$") s)
          (message "scram secret: not a SCRAM-SHA-256 verifier")
    (params, keys) ← ok_or (split_once b'$' rest) (message "scram secret: missing key section")
    (iterations, salt) ← ok_or (split_once b':' params) (message "scram secret: missing salt")
    (stored_key, server_key) ←
        ok_or (split_once b':' keys) (message "scram secret: missing server key")
    iterations ←
        ok_or (parse_uint (2 ^ 32) iterations) (message "scram secret: invalid iteration count")
    salt ← decode salt
    stored_key ← decode_key stored_key
    server_key ← decode_key server_key
    ok (record {
      iterations = iterations;
      salt = salt;
      stored_key = stored_key;
      server_key = server_key;
    })

  -- `ScramSecret::to_verifier_string`
  unfoldable pub to_verifier_string : ScramSecret → Bytes
  to_verifier_string s =
      codes "SCRAM-SHA-256$"
      ++ ((to_string s.iterations ++ b':' ∷ encode s.salt)
          ++ b'$' ∷ (encode s.stored_key ++ b':' ∷ encode s.server_key))

  -- `ScramSecret::from_password`
  unfoldable pub secret_of_password : Bytes → Bytes → ℕ → ScramSecret
  secret_of_password password salt iterations =
      let keys = from_password p password salt iterations in
      record {
        iterations = iterations;
        salt = salt;
        stored_key = keys.stored_key;
        server_key = keys.server_key;
      }

-- `StaticSecretStore`: a map from user names; a later entry replaces an earlier one.
abbrev pub StaticSecretStore : Type 0
StaticSecretStore = List (Bytes × ScramSecret)

unfoldable pub with_secret : Bytes → ScramSecret → StaticSecretStore → StaticSecretStore
with_secret user secret [] = (user, secret) ∷ []
with_secret user secret ((u, s) ∷ rest) =
    if eqb u user then (user, secret) ∷ rest else (u, s) ∷ with_secret user secret rest

unfoldable pub get_secret : Bytes → StaticSecretStore → Option ScramSecret
get_secret user [] = none
get_secret user ((u, s) ∷ rest) = if eqb u user then some s else get_secret user rest
