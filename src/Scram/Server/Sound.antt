-- ===== src/Scram/Server/Sound.antt =====
-- Whom the SCRAM server lets in.
use Prim.Native.String.{String}
use rama_pg.Auth.{ClientAuth, terminated, scram}
use rama_pg.Bytes.{Bytes, eqb}
use rama_pg.Bytes.Search.{eqb_sound}
use rama_pg.Exec.{Conn, write_all, flush, read_message_capped}
use rama_pg.Exec.Ensures.{Ensures, and_then-Ensures, if-Ensures}
use rama_pg.Scram.Crypto.{ScramKeys, recover_client_key, hmac_sha256}
use rama_pg.Scram.Fields.{ClientFirst, ClientFinal, parse_client_first}
use rama_pg.Scram.Primitives.{Primitives}
use rama_pg.Scram.Secret.{ScramSecret}
use rama_pg.Scram.Server.{
  Setup, used_secret, deny, finish, check_proof, check_final, challenge, authenticate, chosen,
  bound, Binding, expected, refused, is_some, secret_or, mock_secret, final_of, initial_of,
}
use rama_pg.Prelude.{
  ◌≡◌, refl, ap, ◌∙◌, Option, none, some, Bool, true, not, ◌||◌, ◌==◌, length, arith,
}

known-Option :
    (s : Option ScramSecret) → is_some s ≡ true → (secret : ScramSecret) × (s ≡ some secret)
known-Option none h = cc
known-Option (some secret) h = (secret, refl)

module _ (p : Primitives) (setup : Setup) where
  -- The outcome hands over keys of a known secret, with a client key that hashes to the stored one.
  abbrev pub Proved : ClientAuth → Type 0
  Proved auth =
      (secret : ScramSecret) × (keys : ScramKeys) × (setup.secret ≡ some secret)
      × (auth ≡ terminated (scram keys))
      × (p.sha256 keys.client_key ≡ secret.stored_key)
      × (keys.stored_key ≡ secret.stored_key)
      × (keys.server_key ≡ secret.server_key)

  deny-Proved : (detail : String) (c : Conn) → Ensures Proved (deny detail c)
  unfolding deny
  deny-Proved detail c =
      and_then-Ensures Proved (write_all _ c) _
        λ u s. and_then-Ensures Proved (flush s) _ λ v s'. tt

  used : {secret : ScramSecret} → setup.secret ≡ some secret → used_secret p setup ≡ secret
  used known = ap (λ s. secret_or s (mock_secret setup.mock)) known

  Proved-finish :
      (client_key : Bytes)
      → is_some setup.secret ≡ true
      → p.sha256 client_key ≡ (used_secret p setup).stored_key
      → Proved (
          terminated (
            scram (record {
              client_key = client_key;
              stored_key = (used_secret p setup).stored_key;
              server_key = (used_secret p setup).server_key;
            })))
  Proved-finish client_key is_known hashed =
      let (secret, known) = known-Option setup.secret is_known in
      (
        secret,
        _,
        known,
        refl,
        hashed ∙ ap (λ s. s.stored_key) (used known),
        ap (λ s. s.stored_key) (used known),
        ap (λ s. s.server_key) (used known),
      )

  check_proof-Proved :
      (transcript proof : Bytes) (c : Conn)
      → Ensures Proved (check_proof p setup transcript proof c)
  unfolding check_proof finish
  check_proof-Proved transcript proof c =
      if-Ensures Proved (not (length proof == 32)) (deny _) _ c (λ e. deny-Proved _ c)
        (λ e.
          if-Ensures Proved
            (not (is_some setup.secret)
              || not (
                  eqb
                    (p.sha256 (
                      recover_client_key proof
                        (hmac_sha256 p (used_secret p setup).stored_key transcript)))
                    (used_secret p setup).stored_key))
            (deny _) _ c (λ e'. deny-Proved _ c)
            (λ e'.
              let known : is_some setup.secret ≡ true = ground arith in
              let hashed : eqb
                    (p.sha256 (
                      recover_client_key proof
                        (hmac_sha256 p (used_secret p setup).stored_key transcript)))
                    (used_secret p setup).stored_key
                  ≡ true =
                ground arith in
              and_then-Ensures Proved (write_all _ c) _ λ u s.
                and_then-Ensures Proved (flush s) _
                  λ v s'. Proved-finish _ known (eqb_sound _ _ hashed)))

  check_final-Proved :
      (first : ClientFirst) (wanted full_nonce server_first : Bytes) (final : ClientFinal)
      (c : Conn)
      → Ensures Proved (check_final p setup first wanted full_nonce server_first final c)
  unfolding check_final
  check_final-Proved first wanted full_nonce server_first final c =
      if-Ensures Proved (not (eqb final.nonce full_nonce)) (deny _) _ c (λ e. deny-Proved _ c)
        (λ e.
          and_then-Ensures Proved (p.decode final.channel_binding, c) _
            λ binding s.
              if-Ensures Proved (not (eqb binding wanted)) (deny _) _ s (λ e'. deny-Proved _ s)
                (λ e'.
                  and_then-Ensures Proved (p.decode final.proof, s) _
                    λ proof s'. check_proof-Proved _ proof s'))

  challenge-Proved :
      (first : ClientFirst) (wanted : Bytes) (c : Conn)
      → Ensures Proved (challenge p setup first wanted c)
  unfolding challenge
  challenge-Proved first wanted c = and_then-Ensures Proved (write_all _ c) _ λ u s.
      and_then-Ensures Proved (flush s) _ λ v s2.
        and_then-Ensures Proved (read_message_capped _ s2) _ λ m s3.
          and_then-Ensures Proved (final_of p setup m s3) _
            λ final s4. check_final-Proved first wanted _ _ final s4

  bound-Proved :
      (first : ClientFirst) (b : Binding) (c : Conn) → Ensures Proved (bound p setup first b c)
  bound-Proved first (refused detail) c = deny-Proved detail c
  bound-Proved first (expected wanted) c = challenge-Proved first wanted c

  chosen-Proved :
      (client_first : Bytes) (plus : Option Bool) (c : Conn)
      → Ensures Proved (chosen p setup client_first plus c)
  chosen-Proved client_first none c = deny-Proved _ c
  chosen-Proved client_first (some plus) c =
      and_then-Ensures Proved (parse_client_first client_first, c) _
        λ first s. bound-Proved first _ s

  -- However the client answers, the server accepts it only if its user has a secret, with keys for
  -- the backend that are those of the secret and a client key that hashes to the stored key: never
  -- for an unknown user or a wrong proof.
  pub authenticate-Proved : (c : Conn) → Ensures Proved (authenticate p setup c)
  unfolding authenticate
  authenticate-Proved c = and_then-Ensures Proved (write_all _ c) _ λ u s.
      and_then-Ensures Proved (flush s) _ λ v s2.
        and_then-Ensures Proved (read_message_capped _ s2) _ λ m s3.
          and_then-Ensures Proved (initial_of p setup m s3) _
            λ (mechanism, client_first) s4. chosen-Proved client_first _ s4
