-- ===== src/Scram/Server/Complete.antt =====
-- An honest client is accepted.
use rama_pg.Auth.{ClientAuth, terminated, scram}
use rama_pg.Bytes.{Bytes, IsBytes, codes}
use rama_pg.Bytes.Search.{eqb_refl, Free}
use rama_pg.Bytes.Utf8.{from_utf8, is_utf8, is_utf8_ascii}
use rama_pg.Codec.Frames.{receive-frame}
use rama_pg.Codec.Tag
use rama_pg.Message.{
  put_i32, authentication_sasl, authentication_sasl_continue, authentication_sasl_final,
}
use rama_pg.Scram.Client.{first_bare, first_message, final_without_proof, final_message}
use rama_pg.Scram.Crypto.{hmac_sha256, client_proof, recover_client_key, random_nonce}
use rama_pg.Scram.Crypto.Xor.{
  recover_client_key-client_proof, client_proof-IsBytes, length-client_proof,
}
use rama_pg.Scram.Fields.{sasl_initial_response, sasl_response}
use rama_pg.Scram.Fields.Sasl.{tag-frame, payload-frame, written_twice}
use rama_pg.Scram.Primitives.{Primitives}
use rama_pg.Scram.Secret.{ScramSecret}
use rama_pg.Scram.Secret.RoundTrip.{encode-Free, encode-ascii}
use rama_pg.Scram.Server.{
  MockBytes, Setup, mechanism_name, choose_plus, binding_for, offered, server_first_message,
  auth_message, finish, check_proof, check_final, challenge, authenticate,
}
use rama_pg.Scram.Server.Parsed.{
  read_first, read_final, parse_sasl_initial-response, parse_client_first-first_message,
  parse_client_final-final_message,
}
use rama_pg.Prelude.{
  ap, [], ℕ, suc, ◌+◌, ◌^◌, ◌≤◌, ◌<◌, ◌∷◌, ◌++◌, length, All, append-nil, append_assoc, All-append,
  Option, some, true, ◌≡◌, refl, sym, ◌∙◌, arith, inr, ok,
}

module _ (p : Primitives) (cb : Option Bytes) (secret : ScramSecret) (mock : MockBytes)
    (nonce_bytes client_nonce_bytes client_key : Bytes) where
  open p use {encode, decode, decode-encode, sha256, length-sha256, sha256-IsBytes}

  -- The server of a user with this secret.
  abbrev pub setup : Setup
  setup = record {
    channel_binding = cb;
    secret = some secret;
    mock = mock;
    nonce_bytes = nonce_bytes;
  }

  abbrev pub accepted : ClientAuth
  accepted = terminated (
      scram (record {
        client_key = client_key;
        stored_key = secret.stored_key;
        server_key = secret.server_key;
      }))

  -- What the client computes, as `run_scram` does.
  abbrev pub client_nonce : Bytes
  client_nonce = random_nonce p client_nonce_bytes

  abbrev pub full_nonce : Bytes
  full_nonce = client_nonce ++ random_nonce p nonce_bytes

  abbrev pub server_first : Bytes
  server_first = server_first_message p secret full_nonce

  abbrev pub transcript : Bytes
  transcript =
      auth_message (first_bare client_nonce) server_first (final_without_proof p full_nonce)

  abbrev pub proof : Bytes
  proof = client_proof client_key (hmac_sha256 p secret.stored_key transcript)

  abbrev pub verifier : Bytes
  verifier = codes "v=" ++ encode (hmac_sha256 p secret.server_key transcript)

  abbrev pub final_text : Bytes
  final_text = final_message p (final_without_proof p full_nonce) proof

  module _ (key_bytes : IsBytes client_key) (length_key : length client_key ≡ 32)
      (stored : sha256 client_key ≡ secret.stored_key) where
    signature-IsBytes : (key text : Bytes) → IsBytes (hmac_sha256 p key text)
    unfolding hmac_sha256
    signature-IsBytes key text = sha256-IsBytes _

    length-signature : (key text : Bytes) → length (hmac_sha256 p key text) ≡ 32
    unfolding hmac_sha256
    length-signature key text = length-sha256 _

    length-proof : length proof ≡ 32
    length-proof =
        length-client_proof client_key (hmac_sha256 p secret.stored_key transcript)
          (length_key ∙ sym (length-signature secret.stored_key transcript))
        ∙ length_key

    recovered : recover_client_key proof (hmac_sha256 p secret.stored_key transcript) ≡ client_key
    recovered =
        recover_client_key-client_proof client_key (hmac_sha256 p secret.stored_key transcript)
          key_bytes (signature-IsBytes secret.stored_key transcript)
          (omega (arith, length_key, length-signature secret.stored_key transcript))

    finish_accepts :
        (input sent : Bytes) (k : ℕ)
        → (finish p setup transcript client_key
            (record { input = input; sent = sent; room = suc (suc k) }))
          ≡ (
            ok accepted,
            record {
              input = input;
              sent = (sent ++ authentication_sasl_final verifier) ++ [];
              room = k;
            },
          )
    unfolding finish
    finish_accepts input sent k = refl

    check_proof_accepts :
        (input sent : Bytes) (k : ℕ)
        → (check_proof p setup transcript proof
            (record { input = input; sent = sent; room = suc (suc k) }))
          ≡ (
            ok accepted,
            record {
              input = input;
              sent = (sent ++ authentication_sasl_final verifier) ++ [];
              room = k;
            },
          )
    unfolding check_proof
    check_proof_accepts input sent k =
        rw (length-proof, recovered, stored, eqb_refl secret.stored_key)
          (finish_accepts input sent k)

    check_final_accepts :
        (input sent : Bytes) (k : ℕ)
        → (check_final p setup
            (read_first client_nonce)
            (codes "n,,")
            full_nonce
            server_first
            (read_final p full_nonce proof)
            (record { input = input; sent = sent; room = suc (suc k) }))
          ≡ (
            ok accepted,
            record {
              input = input;
              sent = (sent ++ authentication_sasl_final verifier) ++ [];
              room = k;
            },
          )
    unfolding check_final
    check_final_accepts input sent k =
        let proof_bytes : IsBytes proof =
          client_proof-IsBytes client_key (hmac_sha256 p secret.stored_key transcript) key_bytes
            (signature-IsBytes secret.stored_key transcript) in
        rw
          (
            eqb_refl full_nonce,
            decode-encode (codes "n,,") (ground arith),
            decode-encode proof proof_bytes,
          )
          (check_proof_accepts input sent k)

    nonce-Free : Free b',' client_nonce
    unfolding random_nonce
    nonce-Free = encode-Free p b',' client_nonce_bytes (inr (inr refl))

    full_nonce-Free : Free b',' full_nonce
    unfolding random_nonce
    full_nonce-Free =
        All-append _ client_nonce _ nonce-Free (encode-Free p b',' nonce_bytes (inr (inr refl)))

    client_nonce-ascii : All (λ b. b < 128) client_nonce
    unfolding random_nonce
    client_nonce-ascii = encode-ascii p client_nonce_bytes

    full_nonce-ascii : All (λ b. b < 128) full_nonce
    unfolding random_nonce
    full_nonce-ascii = All-append _ client_nonce _ client_nonce-ascii (encode-ascii p nonce_bytes)

    first_message-utf8 : is_utf8 (first_message client_nonce) ≡ true
    first_message-utf8 =
        is_utf8_ascii (first_message client_nonce)
          (All-append _ (codes "n,,n=,r=") client_nonce (omega arith) client_nonce-ascii)

    final_text-utf8 : is_utf8 final_text ≡ true
    unfolding final_message final_without_proof
    final_text-utf8 = is_utf8_ascii final_text (
        All-append _ (codes "c=" ++ (encode (codes "n,,") ++ (codes ",r=" ++ full_nonce))) _
          (All-append _ (codes "c=") _ (omega arith) (
            All-append _ (encode (codes "n,,")) _ (encode-ascii p (codes "n,,"))
              (All-append _ (codes ",r=") full_nonce (omega arith) full_nonce-ascii)))
          (All-append _ (codes ",p=") (encode proof) (omega arith) (encode-ascii p proof)))

    -- The final message that is in the stream is accepted.
    challenge_accepts :
        (rest sent : Bytes) (k : ℕ)
        → length final_text + 4 ≤ 2 ^ 16
        → challenge p setup (read_first client_nonce) (codes "n,,") (record {
          input = sasl_response final_text ++ rest;
          sent = sent;
          room = suc (suc (suc (suc k)));
        })
          ≡ (
            ok accepted,
            record {
              input = rest;
              sent =
                  sent
                  ++ (authentication_sasl_continue server_first
                      ++ authentication_sasl_final verifier);
              room = k;
            },
          )
    unfolding challenge sasl_response from_utf8
    challenge_accepts rest sent k fits =
        rw
          (
            receive-frame Tag.password_message final_text rest (2 ^ 16) fits (omega arith),
            tag-frame final_text,
            payload-frame final_text,
            final_text-utf8,
            parse_client_final-final_message p full_nonce proof full_nonce-Free,
          )
          (check_final_accepts rest ((sent ++ authentication_sasl_continue server_first) ++ []) k
            ∙ ap (λ x. (ok accepted, record { input = rest; sent = x; room = k }))
                (written_twice sent (authentication_sasl_continue server_first)
                  (authentication_sasl_final verifier)))

    abbrev initial_body : Bytes
    initial_body =
        mechanism_name
        ++ 0 ∷ (put_i32 (length (first_message client_nonce)) ++ first_message client_nonce)

    -- A client that holds the client key whose hash is the stored one, and answers as `run_scram`
    -- does to the server's nonce, is accepted with that key and sent the offer, the
    -- server's first message and its last one, whether or not channel binding is
    -- offered and whatever it sends afterwards, where the connection takes the six writes and
    -- flushes and both of its messages fit the cap on messages before authentication.
    pub authenticate_accepts :
        (rest sent : Bytes) (k : ℕ)
        → length initial_body + 4 ≤ 2 ^ 16
        → length final_text + 4 ≤ 2 ^ 16
        → authenticate p setup (record {
          input =
              sasl_initial_response mechanism_name (first_message client_nonce)
              ++ (sasl_response final_text ++ rest);
          sent = sent;
          room = suc (suc (suc (suc (suc (suc k)))));
        })
          ≡ (
            ok accepted,
            record {
              input = rest;
              sent =
                  sent
                  ++ (authentication_sasl (offered cb)
                      ++ (authentication_sasl_continue server_first
                          ++ authentication_sasl_final verifier));
              room = k;
            },
          )
    unfolding authenticate sasl_initial_response choose_plus binding_for
    authenticate_accepts rest sent k small fits =
        rw
          (
            receive-frame Tag.password_message initial_body (sasl_response final_text ++ rest)
                (2 ^ 16) small (omega arith),
            tag-frame initial_body,
            payload-frame initial_body,
            parse_sasl_initial-response (first_message client_nonce),
            parse_client_first-first_message client_nonce first_message-utf8 nonce-Free,
          )
          (challenge_accepts rest ((sent ++ authentication_sasl (offered cb)) ++ []) k fits
            ∙ ap (λ x. (ok accepted, record { input = rest; sent = x; room = k }))
                (ap
                    (λ x.
                      x
                      ++ (authentication_sasl_continue server_first
                          ++ authentication_sasl_final verifier))
                    (append-nil (sent ++ authentication_sasl (offered cb)))
                  ∙ append_assoc sent (authentication_sasl (offered cb)) _))
