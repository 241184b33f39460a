-- ===== src/Scram/Client.antt =====
-- src/scram/client.rs: the proxy as a SCRAM client of a backend.
pub mod Complete
pub mod Exchange
use rama_pg.Bytes.{Bytes, codes, eqb}
use rama_pg.Bytes.Search.{starts_with}
use rama_pg.Bytes.Utf8.{from_utf8}
use rama_pg.Codec.{RawMessage, payload}
use rama_pg.Decimal.{parse_uint}
use rama_pg.Exec.{Exec, ◌>>=◌, ◌>>◌, done, fail, lift, Conn, write_all, flush, read_message}
use rama_pg.Message.{auth_sasl, auth_sasl_continue, auth_sasl_final}
use rama_pg.Scram.Crypto.{ScramKeys, hmac_sha256, client_proof, random_nonce, from_password}
use rama_pg.Scram.Fields.{
  expect_auth, parse_mechanisms, offers, sasl_initial_response, sasl_response, field,
}
use rama_pg.Scram.Primitives.{Primitives}
use rama_pg.Scram.Server.{mechanism_name, auth_message}
use rama_pg.Prelude.{ℕ, ◌^◌, ◌++◌, drop, not, if◌then◌else◌, ok_or, message}

-- `n=,r=<nonce>` and the message with its GS2 header in front.
abbrev pub first_bare : Bytes → Bytes
first_bare nonce = codes "n=,r=" ++ nonce

abbrev pub first_message : Bytes → Bytes
first_message nonce = codes "n,," ++ first_bare nonce

module _ (p : Primitives) where
  open p use {encode, decode}

  -- `c=<base64 of "n,,">,r=<nonce>`
  unfoldable pub final_without_proof : Bytes → Bytes
  final_without_proof server_nonce =
      codes "c=" ++ (encode (codes "n,,") ++ (codes ",r=" ++ server_nonce))

  unfoldable pub final_message : Bytes → Bytes → Bytes
  final_message without_proof proof = without_proof ++ (codes ",p=" ++ encode proof)

  -- Step 5: the server signature.
  unfoldable pub check_signature : Bytes → Bytes → Exec Conn (Unit {0})
  check_signature server_key transcript = do
    final ← read_message
    lift (expect_auth final auth_sasl_final)
    server_final ← lift (from_utf8 (drop 4 (payload final)))
    signature ←
        lift (ok_or (field server_final (codes "v=")) (message "backend SASLFinal missing v="))
    bytes ← lift (decode signature)
    if not (eqb bytes (hmac_sha256 p server_key transcript))
        then fail (message "backend server signature verification failed")
        else done tt

  -- Step 4: the proof.
  unfoldable pub prove : ScramKeys → Bytes → Bytes → Bytes → Exec Conn (Unit {0})
  prove keys bare server_first server_nonce = do
    let without_proof = final_without_proof server_nonce
    let transcript = auth_message bare server_first without_proof
    let proof = client_proof keys.client_key (hmac_sha256 p keys.stored_key transcript)
    write_all (sasl_response (final_message without_proof proof))
    flush
    check_signature keys.server_key transcript

  -- The end of step 3: the nonce, the salt and the iteration count of the server's message.
  unfoldable pub answer : (Bytes → ℕ → ScramKeys) → Bytes → Bytes → Exec Conn (Unit {0})
  answer derive client_nonce server_first = do
    server_nonce ←
        lift (ok_or (field server_first (codes "r=")) (message "backend server-first missing r="))
    if not (starts_with client_nonce server_nonce)
        then fail (message "backend server nonce does not extend client nonce")
        else (do
          encoded ←
              lift (
                ok_or (field server_first (codes "s=")) (message "backend server-first missing s="))
          salt ← lift (decode encoded)
          count ←
              lift (
                ok_or (field server_first (codes "i=")) (message "backend server-first missing i="))
          iterations ← lift (
              ok_or (parse_uint (2 ^ 32) count)
                (message "backend server-first has a non-numeric i="))
          prove (derive salt iterations) (first_bare client_nonce) server_first server_nonce)

  abbrev after_offer : (Bytes → ℕ → ScramKeys) → Bytes → Exec Conn (Unit {0})
  after_offer derive client_nonce = do
    write_all (sasl_initial_response mechanism_name (first_message client_nonce))
    flush
    cont ← read_message
    lift (expect_auth cont auth_sasl_continue)
    server_first ← lift (from_utf8 (drop 4 (payload cont)))
    answer derive client_nonce server_first

  -- `run_scram`, with the bytes drawn for the nonce.
  unfoldable pub run_scram : (Bytes → ℕ → ScramKeys) → Bytes → RawMessage → Exec Conn (Unit {0})
  run_scram derive nonce_bytes sasl = do
    lift (expect_auth sasl auth_sasl)
    if not (offers mechanism_name (parse_mechanisms (drop 4 (payload sasl))))
        then fail (message "backend did not offer SCRAM-SHA-256")
        else after_offer derive (random_nonce p nonce_bytes)

  -- `reauth_upstream`
  unfoldable pub reauth_upstream : ScramKeys → Bytes → Exec Conn (Unit {0})
  reauth_upstream keys nonce_bytes = do
    sasl ← read_message
    run_scram (λ salt iterations. keys) nonce_bytes sasl

  -- `authenticate_password`
  unfoldable pub authenticate_password : Bytes → Bytes → RawMessage → Exec Conn (Unit {0})
  authenticate_password password nonce_bytes sasl =
      run_scram (from_password p password) nonce_bytes sasl
