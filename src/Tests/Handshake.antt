-- ===== src/Tests/Handshake.antt =====
-- Startup and authentication at concrete inputs.
use rama_pg.Auth.{AuthContext, terminated, scram, cleartext_authenticate}
use rama_pg.Auth.Cleartext.{Accepted, cleartext_authenticate-Accepted}
use rama_pg.Bytes.{Bytes, codes, eqb}
use rama_pg.Codec.{frame}
use rama_pg.Codec.Tag
use rama_pg.Exec.Ensures.{Ensures, Leaves}
use rama_pg.Proxy.{serve}
use rama_pg.Proxy.Plaintext.{PlainFinishes, serve-PlainFinishes}
use rama_pg.Scram.Crypto.{ScramKeys, hmac_sha256, xor_bytes, random_nonce, client_proof}
use rama_pg.Scram.Secret.{ScramSecret, parse, to_verifier_string}
use rama_pg.Scram.Secret.RoundTrip.{IsSecret, parse-to_verifier_string}
use rama_pg.Scram.Client.{run_scram, final_without_proof, final_message}
use rama_pg.Scram.Server.{Setup, offered, server_first_message, authenticate}
use rama_pg.Scram.Agreement.{from_client, from_server, Fits, exchange_agrees}
use rama_pg.Message.{authentication_sasl}
use rama_pg.Decimal.{to_string}
use rama_pg.Scram.Server.Sound.{Proved, authenticate-Proved}
use rama_pg.Startup.{startup_message, v3_0}
use rama_pg.Tests.Toy.{toy, peer, replicate-IsBytes}
use rama_pg.Prelude.{[], ◌∷◌, ◌++◌, none, some, Bool, Result, ok, ◌≡◌, refl, replicate, arith}

abbrev pub secret : ScramSecret
secret = record {
  iterations = 4096;
  salt = replicate 16 5;
  stored_key = replicate 32 32;
  server_key = replicate 32 2;
}

pub secret-IsSecret : IsSecret secret
secret-IsSecret = record {
  iterations_u32 = omega arith;
  salt_bytes = replicate-IsBytes 16 5 (omega arith);
  stored_bytes = replicate-IsBytes 32 32 (omega arith);
  length_stored = refl;
  server_bytes = replicate-IsBytes 32 2 (omega arith);
  length_server = refl;
}

parse-to_verifier_string_example : parse toy (to_verifier_string toy secret) ≡ ok secret
parse-to_verifier_string_example = parse-to_verifier_string toy secret secret-IsSecret

abbrev setup : Setup
setup = record {
  channel_binding = none;
  secret = some secret;
  mock = record { salt = replicate 16 0; stored_key = replicate 32 0; server_key = replicate 32 0 };
  nonce_bytes = replicate 18 9;
}

-- The two messages of a client.
abbrev exchange : Bytes
exchange =
    frame Tag.password_message
      (codes "SCRAM-SHA-256" ++ 0 ∷ 0 ∷ 0 ∷ 0 ∷ 20 ∷ codes "n,,n=,r=abcdefghijkl")
    ++ frame Tag.password_message (
        codes "c="
        ++ (toy.encode (codes "n,,")
            ++ (codes ",r=abcdefghijkl"
                ++ (toy.encode (replicate 18 9) ++ (codes ",p=" ++ toy.encode (replicate 32 0))))))

authenticate-Proved_example : Ensures (Proved toy setup) (authenticate toy setup (peer exchange))
authenticate-Proved_example = authenticate-Proved toy setup (peer exchange)

abbrev client_says : Bytes
client_says =
    from_client toy none secret setup.mock (replicate 18 9) (replicate 18 4) (replicate 32 7)

abbrev server_says : Bytes
server_says =
    from_server toy none secret setup.mock (replicate 18 9) (replicate 18 4) (replicate 32 7)

abbrev keys : ScramKeys
keys = record {
  client_key = replicate 32 7;
  stored_key = replicate 32 32;
  server_key = replicate 32 2;
}

messages-Fits : Fits toy none secret setup.mock (replicate 18 9) (replicate 18 4) (replicate 32 7)
unfolding random_nonce final_message final_without_proof client_proof xor_bytes hmac_sha256
    server_first_message to_string
messages-Fits = record {
  first = omega arith;
  final = omega arith;
  server_first = omega arith;
  server_final = omega arith;
}

exchange_agrees_example :
    (authenticate toy setup (record { input = client_says ++ codes "Q"; sent = []; room = 100 }) ≡ (
      ok (terminated (scram keys)),
      record {
        input = codes "Q";
        sent = authentication_sasl (offered none) ++ server_says;
        room = 94;
      },
    ))
    × (run_scram toy
          (λ salt iterations. keys)
          (replicate 18 4)
          (record { frame = authentication_sasl (offered none) })
          (record { input = server_says ++ codes "R"; sent = []; room = 10 })
        ≡ (ok tt, record { input = codes "R"; sent = client_says; room = 6 }))
exchange_agrees_example =
    exchange_agrees toy none secret setup.mock (replicate 18 9) (replicate 18 4) (replicate 32 7)
      (λ salt iterations. keys) secret-IsSecret refl (replicate-IsBytes 32 7 (omega arith)) refl
      refl messages-Fits (codes "Q") (codes "R") 94 6

abbrev validator : AuthContext → Bytes → Result Bool
validator ctx password = ok (eqb password (codes "pw"))

abbrev context : AuthContext
context = record {
  startup = record {
    protocol_version = v3_0;
    parameters = (codes "user", codes "bob") ∷ [];
    raw = startup_message ((codes "user", codes "bob") ∷ []);
  };
  sni = none;
}

abbrev password : Bytes
password = frame Tag.password_message (codes "pw" ++ 0 ∷ [])

cleartext_authenticate-Accepted_example :
    Leaves
      (Accepted validator context (peer password))
      (cleartext_authenticate validator context (peer password))
cleartext_authenticate-Accepted_example =
    cleartext_authenticate-Accepted validator context (peer password)

abbrev hello : Bytes
hello = startup_message ((codes "user", codes "bob") ∷ []) ++ password

-- A request for GSSAPI encryption, then one for TLS.
abbrev requests : Bytes
requests = 0 ∷ 0 ∷ 0 ∷ 8 ∷ 4 ∷ 210 ∷ 22 ∷ 48 ∷ 0 ∷ 0 ∷ 0 ∷ 8 ∷ 4 ∷ 210 ∷ 22 ∷ 47 ∷ []

serve-PlainFinishes_example : PlainFinishes (peer requests) (serve (peer requests))
serve-PlainFinishes_example = serve-PlainFinishes (peer requests) refl
