-- ===== src/Scram/Server.antt =====
-- src/scram/mod.rs: `ScramSha256::authenticate`, the server side of the exchange. The random bytes
-- and the store are arguments; the store has already been asked for the secret.
pub mod Complete
pub mod Parsed
pub mod Sound
use rama_pg.Auth.{ClientAuth, terminated, scram}
use rama_pg.Bytes.{Bytes, codes, eqb}
use rama_pg.Bytes.Utf8.{from_utf8}
use rama_pg.Codec.{RawMessage, tag, payload, max_auth_message_len}
use rama_pg.Codec.Tag
use rama_pg.Decimal.{to_string}
use rama_pg.Exec.{Exec, ◌>>=◌, ◌>>◌, done, fail, lift, Conn, write_all, flush, read_message_capped}
use rama_pg.Message.{
  authentication_sasl, authentication_sasl_continue, authentication_sasl_final, fatal_error,
}
use rama_pg.Scram.Crypto.{hmac_sha256, recover_client_key, random_nonce}
use rama_pg.Scram.Fields.{
  CbindFlag, flag_p, flag_y, flag_n, ClientFirst, ClientFinal, parse_sasl_initial,
  parse_client_first, parse_client_final,
}
use rama_pg.Scram.Primitives.{Primitives}
use rama_pg.Scram.Secret.{ScramSecret}
use rama_pg.Prelude.{
  ℕ, List, [], ◌∷◌, ◌++◌, length, Option, none, some, Bool, true, false, not, ◌&&◌, ◌||◌, ◌==◌,
  if◌then◌else◌, message,
}
use Prim.Native.String.{String}

abbrev pub mechanism_name : Bytes
mechanism_name = codes "SCRAM-SHA-256"

abbrev pub mechanism_plus : Bytes
mechanism_plus = codes "SCRAM-SHA-256-PLUS"

abbrev pub cb_type : Bytes
cb_type = codes "tls-server-end-point"

abbrev pub default_iterations : ℕ
default_iterations = 4096

abbrev pub is_some {ℓ} : {A : Type ℓ} → Option A → Bool
is_some none = false
is_some (some a) = true

abbrev or_default : Option Bytes → Bytes
or_default none = []
or_default (some b) = b

-- `mock_secret` of the random bytes drawn for an unknown user.
pub record MockBytes : Type 0 where
  pub salt : Bytes
  pub stored_key : Bytes
  pub server_key : Bytes

abbrev pub mock_secret : MockBytes → ScramSecret
mock_secret m = record {
  iterations = default_iterations;
  salt = m.salt;
  stored_key = m.stored_key;
  server_key = m.server_key;
}

abbrev secret_or : Option ScramSecret → ScramSecret → ScramSecret
secret_or none mock = mock
secret_or (some s) mock = s

-- `deny`
unfoldable pub deny {ℓ} : {A : Type ℓ} → String → Exec Conn A
deny detail = do
  write_all (fatal_error (codes "28P01") (codes "password authentication failed"))
  flush
  fail (message detail)

-- Which mechanism the client chose: `true` for `-PLUS`, nothing where it was not offered.
unfoldable pub choose_plus : Bytes → Bool → Option Bool
choose_plus mechanism plus_offered =
    if eqb mechanism mechanism_name
    then some false
    else if eqb mechanism mechanism_plus && plus_offered
    then some true
    else none

-- The expected `c=` value, or why the flag is refused.
pub data Binding : Type 0 where
  expected : Bytes → Binding
  refused : String → Binding

abbrev name_matches : Option Bytes → Bool
name_matches none = false
name_matches (some name) = eqb name cb_type

unfoldable pub binding_for : ClientFirst → CbindFlag → Bool → Option Bytes → Binding
binding_for first flag_p true cb =
    if not (name_matches first.cbind_name)
    then refused "scram: unsupported channel-binding type"
    else expected (first.gs2_header ++ or_default cb)
binding_for first flag_p false cb = refused "scram: channel binding on a non-PLUS mechanism"
binding_for first flag_y plus (some cb) = refused "scram: channel-binding downgrade detected"
binding_for first flag_y false none = expected first.gs2_header
binding_for first flag_y true none = refused "scram: -PLUS selected without channel binding"
binding_for first flag_n false cb = expected first.gs2_header
binding_for first flag_n true cb = refused "scram: -PLUS selected without channel binding"

-- `r=<nonce>,s=<salt>,i=<iterations>`
unfoldable pub server_first_message : Primitives → ScramSecret → Bytes → Bytes
server_first_message p secret full_nonce =
    codes "r="
    ++ (full_nonce
        ++ (codes ",s=" ++ (p.encode secret.salt ++ (codes ",i=" ++ to_string secret.iterations))))

-- `<client-first-bare>,<server-first>,<client-final-without-proof>`
unfoldable pub auth_message : Bytes → Bytes → Bytes → Bytes
auth_message bare server_first without_proof = bare ++ b',' ∷ (server_first ++ b',' ∷ without_proof)

-- What the proxy configured and drew for one exchange.
pub record Setup : Type 0 where
  pub channel_binding : Option Bytes
  pub secret : Option ScramSecret
  pub mock : MockBytes
  pub nonce_bytes : Bytes

abbrev pub offered : Option Bytes → List Bytes
offered none = mechanism_name ∷ []
offered (some cb) = mechanism_plus ∷ mechanism_name ∷ []

module _ (p : Primitives) (setup : Setup) where
  open p use {encode, decode, sha256}

  abbrev pub used_secret : ScramSecret
  used_secret = secret_or setup.secret (mock_secret setup.mock)

  -- Step 6: the server signature, and the keys for the backend.
  unfoldable pub finish : Bytes → Bytes → Exec Conn ClientAuth
  finish transcript client_key = do
    write_all (
        authentication_sasl_final
          (codes "v=" ++ encode (hmac_sha256 p used_secret.server_key transcript)))
    flush
    done (
        terminated (
          scram (record {
            client_key = client_key;
            stored_key = used_secret.stored_key;
            server_key = used_secret.server_key;
          })))

  -- Step 5: the proof.
  unfoldable pub check_proof : Bytes → Bytes → Exec Conn ClientAuth
  check_proof transcript proof =
      let client_key = recover_client_key proof (hmac_sha256 p used_secret.stored_key transcript) in
      if not (length proof == 32)
      then deny "scram: malformed client proof"
      else if not (is_some setup.secret) || not (eqb (sha256 client_key) used_secret.stored_key)
      then deny "scram: client proof verification failed"
      else finish transcript client_key

  -- What the client must echo.
  unfoldable pub check_final :
      ClientFirst → Bytes → Bytes → Bytes → ClientFinal → Exec Conn ClientAuth
  check_final first wanted full_nonce server_first final =
      if not (eqb final.nonce full_nonce) then deny "scram: client nonce mismatch" else (do
        binding ← lift (decode final.channel_binding)
        if not (eqb binding wanted) then deny "scram: channel binding mismatch" else (do
          proof ← lift (decode final.proof)
          check_proof (auth_message first.bare server_first final.without_proof) proof))

  abbrev final_of : RawMessage → Exec Conn ClientFinal
  final_of m =
      if not (tag m == Tag.password_message)
      then fail (message "scram: expected SASL response")
      else (do text ← lift (from_utf8 (payload m)); lift (parse_client_final text))

  -- Steps 3 and 4: the server's first message and the client's final one.
  unfoldable pub challenge : ClientFirst → Bytes → Exec Conn ClientAuth
  challenge first wanted = do
    let full_nonce = first.client_nonce ++ random_nonce p setup.nonce_bytes
    let server_first = server_first_message p used_secret full_nonce
    write_all (authentication_sasl_continue server_first)
    flush
    response ← read_message_capped max_auth_message_len
    final ← final_of response
    check_final first wanted full_nonce server_first final

  abbrev bound : ClientFirst → Binding → Exec Conn ClientAuth
  bound first (refused detail) = deny detail
  bound first (expected wanted) = challenge first wanted

  abbrev chosen : Bytes → Option Bool → Exec Conn ClientAuth
  chosen client_first none = deny "unsupported SASL mechanism"
  chosen client_first (some plus) = do
    first ← lift (parse_client_first client_first)
    bound first (binding_for first first.cbind_flag plus setup.channel_binding)

  abbrev initial_of : RawMessage → Exec Conn (Bytes × Bytes)
  initial_of m =
      if not (tag m == Tag.password_message)
      then fail (message "scram: expected SASL response")
      else lift (parse_sasl_initial (payload m))

  -- `authenticate`
  unfoldable pub authenticate : Exec Conn ClientAuth
  authenticate = do
    write_all (authentication_sasl (offered setup.channel_binding))
    flush
    initial ← read_message_capped max_auth_message_len
    (mechanism, client_first) ← initial_of initial
    chosen client_first (choose_plus mechanism (is_some setup.channel_binding))
