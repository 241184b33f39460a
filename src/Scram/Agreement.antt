-- ===== src/Scram/Agreement.antt =====
-- The server of src/scram/mod.rs and the client of src/scram/client.rs, with each other.
use rama_pg.Bytes.{Bytes, IsBytes}
use rama_pg.Message.{authentication_sasl, authentication_sasl_continue, authentication_sasl_final}
use rama_pg.Scram.Client.{first_message, run_scram}
use rama_pg.Scram.Client.Complete.{run_scram_accepts}
use rama_pg.Scram.Crypto.{ScramKeys}
use rama_pg.Scram.Fields.{sasl_initial_response, sasl_response}
use rama_pg.Scram.Primitives.{Primitives}
use rama_pg.Scram.Secret.{ScramSecret}
use rama_pg.Scram.Secret.RoundTrip.{IsSecret}
use rama_pg.Scram.Server.{MockBytes, mechanism_name, offered, authenticate}
use rama_pg.Scram.Server.Complete
use rama_pg.Scram.Server.Complete.{authenticate_accepts}
use rama_pg.Prelude.{ℕ, suc, ◌+◌, ◌^◌, ◌≤◌, [], ◌++◌, append_assoc, length, Option, ◌≡◌, arith, ok}

module _ (p : Primitives) (cb : Option Bytes) (secret : ScramSecret) (mock : MockBytes)
    (nonce_bytes client_nonce_bytes client_key : Bytes) where
  open p use {sha256}

  abbrev client_nonce : Bytes
  client_nonce = Complete.client_nonce p cb secret mock nonce_bytes client_nonce_bytes client_key

  abbrev server_first : Bytes
  server_first = Complete.server_first p cb secret mock nonce_bytes client_nonce_bytes client_key

  abbrev verifier : Bytes
  verifier = Complete.verifier p cb secret mock nonce_bytes client_nonce_bytes client_key

  abbrev final_text : Bytes
  final_text = Complete.final_text p cb secret mock nonce_bytes client_nonce_bytes client_key

  -- The two messages of the client, and the two of the server behind its offer.
  abbrev pub from_client : Bytes
  from_client =
      sasl_initial_response mechanism_name (first_message client_nonce) ++ sasl_response final_text

  abbrev pub from_server : Bytes
  from_server = authentication_sasl_continue server_first ++ authentication_sasl_final verifier

  -- Every message of the exchange fits what its reader accepts.
  pub record Fits : Type 0 where
    pub first : length (first_message client_nonce) + 22 ≤ 2 ^ 16
    pub final : length final_text + 4 ≤ 2 ^ 16
    pub server_first : length server_first + 8 ≤ 2 ^ 30
    pub server_final : length verifier + 8 ≤ 2 ^ 30

  -- The proxy's SCRAM server and its SCRAM client accept each other. The server holds a secret, and
  -- the client its keys: a client key whose hash is the stored key, and the server key, as it
  -- derives them from the salt and the iteration count that it is told. Where the server reads what
  -- the client sends and the client what the server sends, all messages fit and all writes succeed,
  -- the server ends with the client's key and the client without an error, whatever comes behind,
  -- with channel binding offered or not; each has sent what the other has read.
  pub exchange_agrees :
      (derive : Bytes → ℕ → ScramKeys)
      → IsSecret secret
      → derive secret.salt secret.iterations ≡ record {
        client_key = client_key;
        stored_key = secret.stored_key;
        server_key = secret.server_key;
      }
      → IsBytes client_key
      → length client_key ≡ 32
      → sha256 client_key ≡ secret.stored_key
      → Fits
      → (behind_client behind_server : Bytes) (k j : ℕ)
      → (authenticate p
            (Complete.setup p cb secret mock nonce_bytes client_nonce_bytes client_key)
            (record {
              input = from_client ++ behind_client;
              sent = [];
              room = suc (suc (suc (suc (suc (suc k)))));
            })
          ≡ (
            ok (Complete.accepted p cb secret mock nonce_bytes client_nonce_bytes client_key),
            record {
              input = behind_client;
              sent = authentication_sasl (offered cb) ++ from_server;
              room = k;
            },
          ))
        × (run_scram p derive client_nonce_bytes
              (record { frame = authentication_sasl (offered cb) })
              (record {
                input = from_server ++ behind_server;
                sent = [];
                room = suc (suc (suc (suc j)));
              })
            ≡ (ok tt, record { input = behind_server; sent = from_client; room = j }))
  exchange_agrees derive secret_is derived key_bytes length_key stored fits behind_client
        behind_server k j =
      (
        rw
            (append_assoc (sasl_initial_response mechanism_name (first_message client_nonce))
              (sasl_response final_text) behind_client)
            (authenticate_accepts p cb secret mock nonce_bytes client_nonce_bytes client_key
              key_bytes length_key stored behind_client [] k (omega (arith, fits.first))
              fits.final),
        rw
            (append_assoc (authentication_sasl_continue server_first)
              (authentication_sasl_final verifier) behind_server)
            (run_scram_accepts p secret secret_is client_key client_nonce_bytes nonce_bytes derive
              derived cb behind_server [] j fits.server_first fits.server_final),
      )
