-- ===== src/Scram/Client/Complete.antt =====
-- An honest server is accepted.
use rama_pg.Bytes.{Bytes, IsBytes, codes}
use rama_pg.Bytes.Search.{
  eqb_refl, Free, split_once, split, split-append, split-Free, strip_prefix, strip_prefix-append,
  starts_with, find_field,
}
use rama_pg.Bytes.Utf8.{from_utf8, is_utf8, is_utf8_ascii}
use rama_pg.Codec.{payload, frame}
use rama_pg.Decimal.{to_string, to_string-IsDigits, parse_uint-to_string}
use rama_pg.Message.{
  auth_sasl, auth_sasl_continue, auth_sasl_final, authentication_sasl, authentication_sasl_continue,
  authentication_sasl_final,
}
use rama_pg.Scram.Client.{
  first_bare, first_message, final_without_proof, final_message, check_signature, prove, answer,
  after_offer, run_scram,
}
use rama_pg.Scram.Crypto.{ScramKeys, hmac_sha256, client_proof, random_nonce}
use rama_pg.Scram.Fields.{
  expect_auth, parse_mechanisms, mechanisms_loop, offers, field, sasl_initial_response,
  sasl_response,
}
use rama_pg.Scram.Fields.Sasl.{receive-sasl_message, expect_auth-sasl_message, payload-sasl_message}
use rama_pg.Scram.Primitives.{Primitives}
use rama_pg.Scram.Secret.{ScramSecret}
use rama_pg.Scram.Secret.RoundTrip.{IsSecret, encode-Free, encode-ascii}
use rama_pg.Scram.Server.{mechanism_name, offered, server_first_message, auth_message}
use rama_pg.Prelude.{
  ℕ, suc, ◌+◌, ◌^◌, ◌≤◌, [], ◌∷◌, ◌++◌, append_assoc, append-nil, length, drop, All-append, All-map,
  Option, none, some, true, ◌≡◌, refl, ap, ◌∙◌, arith, inr, ok,
}

module _ (p : Primitives) (secret : ScramSecret) (secret_is : IsSecret secret)
    (client_key client_nonce_bytes nonce_bytes : Bytes) where
  open p use {encode, decode, decode-encode, sha256-IsBytes}

  abbrev client_nonce : Bytes
  client_nonce = random_nonce p client_nonce_bytes

  abbrev full_nonce : Bytes
  full_nonce = client_nonce ++ random_nonce p nonce_bytes

  abbrev pub server_first : Bytes
  server_first = server_first_message p secret full_nonce

  abbrev pub transcript : Bytes
  transcript =
      auth_message (first_bare client_nonce) server_first (final_without_proof p full_nonce)

  abbrev pub signature : Bytes
  signature = hmac_sha256 p secret.server_key transcript

  abbrev pub verifier : Bytes
  verifier = codes "v=" ++ encode signature

  -- What the client sends as its last message.
  abbrev pub response : Bytes
  response = sasl_response (
      final_message p (final_without_proof p full_nonce)
        (client_proof client_key (hmac_sha256 p secret.stored_key transcript)))

  signature-IsBytes : IsBytes signature
  unfolding hmac_sha256
  signature-IsBytes = sha256-IsBytes _

  full_nonce-Free : Free b',' full_nonce
  unfolding random_nonce
  full_nonce-Free =
      All-append _ client_nonce _ (encode-Free p b',' client_nonce_bytes (inr (inr refl)))
        (encode-Free p b',' nonce_bytes (inr (inr refl)))

  split-server_first :
      split b',' server_first
      ≡ (codes "r=" ++ full_nonce)
        ∷ (codes "s=" ++ encode secret.salt)
        ∷ (codes "i=" ++ to_string secret.iterations)
        ∷ []
  unfolding server_first_message
  split-server_first =
      let r = codes "r=" ++ full_nonce in
      let s = codes "s=" ++ encode secret.salt in
      let i = codes "i=" ++ to_string secret.iterations in
      let free_i : Free b',' i = (
        ground arith,
        (
          ground arith,
          All-map (λ c k. ground arith) (to_string secret.iterations)
              (to_string-IsDigits secret.iterations),
        ),
      ) in
      split-append b',' r (s ++ b',' ∷ i) (ground arith, (ground arith, full_nonce-Free))
      ∙ ap (λ l. r ∷ l)
          (split-append b',' s i
              (ground arith, (ground arith, encode-Free p b',' secret.salt (inr (inr refl))))
            ∙ ap (λ l. s ∷ l) (split-Free b',' i free_i))

  server_first-utf8 : is_utf8 server_first ≡ true
  unfolding server_first_message random_nonce
  server_first-utf8 = is_utf8_ascii server_first (
      All-append _ (codes "r=") _ (omega arith) (
        All-append _ full_nonce _
          (All-append _ client_nonce _ (encode-ascii p client_nonce_bytes)
            (encode-ascii p nonce_bytes))
          (All-append _ (codes ",s=") _ (omega arith) (
            All-append _ (encode secret.salt) _ (encode-ascii p secret.salt) (
              All-append _ (codes ",i=") _ (omega arith) (
                All-map (λ c k. omega arith) (to_string secret.iterations)
                  (to_string-IsDigits secret.iterations)))))))

  verifier-utf8 : is_utf8 verifier ≡ true
  verifier-utf8 =
      is_utf8_ascii verifier (All-append _ (codes "v=") _ (omega arith) (encode-ascii p signature))

  verifier-field : field verifier (codes "v=") ≡ some (encode signature)
  unfolding field find_field strip_prefix hmac_sha256
  verifier-field =
      rw
        (split-Free b',' verifier
          (ground arith, (ground arith, encode-Free p b',' signature (inr (inr refl)))))
        refl

  check_signature_accepts :
      (rest sent : Bytes) (k : ℕ)
      → length verifier + 8 ≤ 2 ^ 30
      → check_signature p secret.server_key transcript
          (record { input = authentication_sasl_final verifier ++ rest; sent = sent; room = k })
        ≡ (ok tt, record { input = rest; sent = sent; room = k })
  unfolding check_signature authentication_sasl_final from_utf8
  check_signature_accepts rest sent k fits =
      rw
        (
          receive-sasl_message auth_sasl_final verifier rest fits,
          expect_auth-sasl_message auth_sasl_final verifier (omega arith),
          payload-sasl_message auth_sasl_final verifier,
          verifier-utf8,
          verifier-field,
          decode-encode signature signature-IsBytes,
          eqb_refl signature,
        )
        refl

  nonce-field : field server_first (codes "r=") ≡ some full_nonce
  unfolding field find_field strip_prefix
  nonce-field = rw split-server_first refl

  salt-field : field server_first (codes "s=") ≡ some (encode secret.salt)
  unfolding field find_field strip_prefix
  salt-field = rw split-server_first refl

  count-field : field server_first (codes "i=") ≡ some (to_string secret.iterations)
  unfolding field find_field strip_prefix
  count-field = rw split-server_first refl

  extends : starts_with client_nonce full_nonce ≡ true
  unfolding starts_with
  extends = rw (strip_prefix-append client_nonce (random_nonce p nonce_bytes)) refl

  abbrev pub keys : ScramKeys
  keys = record {
    client_key = client_key;
    stored_key = secret.stored_key;
    server_key = secret.server_key;
  }

  prove_accepts :
      (rest sent : Bytes) (k : ℕ)
      → length verifier + 8 ≤ 2 ^ 30
      → prove p keys (first_bare client_nonce) server_first full_nonce (record {
        input = authentication_sasl_final verifier ++ rest;
        sent = sent;
        room = suc (suc k);
      })
        ≡ (ok tt, record { input = rest; sent = sent ++ response; room = k })
  unfolding prove
  prove_accepts rest sent k fits =
      check_signature_accepts rest ((sent ++ response) ++ []) k fits
      ∙ ap (λ x. (ok tt, record { input = rest; sent = x; room = k }))
          (append-nil (sent ++ response))

  module _ (derive : Bytes → ℕ → ScramKeys)
      (derived : derive secret.salt secret.iterations ≡ keys) where
    answer_accepts :
        (rest sent : Bytes) (k : ℕ)
        → length verifier + 8 ≤ 2 ^ 30
        → answer p derive client_nonce server_first (record {
          input = authentication_sasl_final verifier ++ rest;
          sent = sent;
          room = suc (suc k);
        })
          ≡ (ok tt, record { input = rest; sent = sent ++ response; room = k })
    unfolding answer
    answer_accepts rest sent k fits =
        rw
          (
            nonce-field,
            extends,
            salt-field,
            decode-encode secret.salt secret_is.salt_bytes,
            count-field,
            parse_uint-to_string (2 ^ 32) secret.iterations secret_is.iterations_u32 (omega arith),
            derived,
          )
          (prove_accepts rest sent k fits)

    abbrev initial : Bytes
    initial = sasl_initial_response mechanism_name (first_message client_nonce)

    after_offer_accepts :
        (rest sent : Bytes) (k : ℕ)
        → length server_first + 8 ≤ 2 ^ 30
        → length verifier + 8 ≤ 2 ^ 30
        → after_offer p derive client_nonce (record {
          input =
              authentication_sasl_continue server_first
              ++ (authentication_sasl_final verifier ++ rest);
          sent = sent;
          room = suc (suc (suc (suc k)));
        })
          ≡ (ok tt, record { input = rest; sent = ((sent ++ initial) ++ []) ++ response; room = k })
    unfolding authentication_sasl_continue from_utf8
    after_offer_accepts rest sent k small fits =
        rw
          (
            receive-sasl_message auth_sasl_continue server_first
                (authentication_sasl_final verifier ++ rest) small,
            expect_auth-sasl_message auth_sasl_continue server_first (omega arith),
            payload-sasl_message auth_sasl_continue server_first,
            server_first-utf8,
          )
          (answer_accepts rest ((sent ++ initial) ++ []) k fits)

    offer_accepted :
        (cb : Option Bytes)
        → (expect_auth (record { frame = authentication_sasl (offered cb) }) auth_sasl ≡ ok tt)
          × (offers mechanism_name (
                parse_mechanisms
                  (drop 4 (payload (record { frame = authentication_sasl (offered cb) }))))
              ≡ true)
    unfolding authentication_sasl expect_auth frame offers parse_mechanisms mechanisms_loop
        split_once is_utf8
    offer_accepted none = (refl, refl)
    offer_accepted (some b) = (refl, refl)

    -- A server that holds a secret and answers as `authenticate` does is accepted by the client that
    -- holds the keys of that secret. The client has then read the two messages behind the offer, and
    -- sent its two.
    pub run_scram_accepts :
        (cb : Option Bytes) (rest sent : Bytes) (k : ℕ)
        → length server_first + 8 ≤ 2 ^ 30
        → length verifier + 8 ≤ 2 ^ 30
        → run_scram p derive client_nonce_bytes
            (record { frame = authentication_sasl (offered cb) })
            (record {
              input =
                  authentication_sasl_continue server_first
                  ++ (authentication_sasl_final verifier ++ rest);
              sent = sent;
              room = suc (suc (suc (suc k)));
            })
          ≡ (ok tt, record { input = rest; sent = sent ++ (initial ++ response); room = k })
    unfolding run_scram
    run_scram_accepts cb rest sent k small fits =
        let offer = offer_accepted cb in
        rw (offer.0, offer.1)
          (after_offer_accepts rest sent k small fits
            ∙ ap (λ x. (ok tt, record { input = rest; sent = x; room = k }))
                (ap (λ x. x ++ response) (append-nil (sent ++ initial))
                  ∙ append_assoc sent initial response))
