-- ===== src/Scram/Client/Exchange.antt =====
-- The exchange with a backend reads whole messages, however it goes.
use rama_pg.Bytes.{Bytes, codes, eqb}
use rama_pg.Bytes.Utf8.{from_utf8}
use rama_pg.Codec.{RawMessage, payload}
use rama_pg.Exec.{Conn}
use rama_pg.Exec.Reads.{Reads, Kept, if-Kept, lift_then-Kept, write_then-Kept, expect_then-Kept}
use rama_pg.Message.{auth_sasl, auth_sasl_continue, auth_sasl_final}
use rama_pg.Scram.Client.{
  check_signature, prove, answer, after_offer, run_scram, authenticate_password, reauth_upstream,
}
use rama_pg.Scram.Fields.{expect_auth, field, offers, parse_mechanisms}
use rama_pg.Bytes.Search.{starts_with}
use rama_pg.Scram.Server.{mechanism_name}
use rama_pg.Decimal.{parse_uint}
use rama_pg.Scram.Crypto.{ScramKeys, from_password, hmac_sha256}
use rama_pg.Scram.Primitives.{Primitives}
use rama_pg.Prelude.{ℕ, ◌^◌, arith, [], drop, not, ok_or, message}

module _ (p : Primitives) (input : Bytes) where
  open p use {decode}

  check_signature-Kept :
      (server_key transcript : Bytes) (c : Conn)
      → Reads input c
      → Kept input (check_signature p server_key transcript c)
  unfolding check_signature
  check_signature-Kept server_key transcript c h =
      expect_then-Kept input auth_sasl_final _ c (omega arith) (omega arith) h λ final c2 h2.
        lift_then-Kept input (from_utf8 (drop 4 (payload final))) _ c2 h2 λ server_final c3 h3.
          lift_then-Kept input
            (ok_or (field server_final (codes "v=")) (message "backend SASLFinal missing v=")) _ c3
            h3
            λ signature c4 h4. lift_then-Kept input (decode signature) _ c4 h4 λ bytes c5 h5.
              if-Kept input (not (eqb bytes (hmac_sha256 p server_key transcript))) _ _ c5 tt h5

  prove-Kept :
      (keys : ScramKeys) (bare server_first server_nonce : Bytes) (c : Conn)
      → Reads input c
      → Kept input (prove p keys bare server_first server_nonce c)
  unfolding prove
  prove-Kept keys bare server_first server_nonce c h = write_then-Kept input _ _ c h λ u c1 h1.
      write_then-Kept input [] _ c1 h1 λ u c2 h2. check_signature-Kept keys.server_key _ c2 h2

  answer-Kept :
      (derive : Bytes → ℕ → ScramKeys) (client_nonce server_first : Bytes) (c : Conn)
      → Reads input c
      → Kept input (answer p derive client_nonce server_first c)
  unfolding answer
  answer-Kept derive client_nonce server_first c h =
      lift_then-Kept input
        (ok_or (field server_first (codes "r=")) (message "backend server-first missing r=")) _ c h
        λ server_nonce c1 h1.
          if-Kept input (not (starts_with client_nonce server_nonce)) _ _ c1 tt (
            lift_then-Kept input
              (ok_or (field server_first (codes "s=")) (message "backend server-first missing s="))
              _ c1 h1
              λ encoded c2 h2. lift_then-Kept input (decode encoded) _ c2 h2 λ salt c3 h3.
                lift_then-Kept input
                  (ok_or (field server_first (codes "i="))
                    (message "backend server-first missing i="))
                  _ c3 h3
                  λ count c4 h4.
                    lift_then-Kept input
                      (ok_or (parse_uint (2 ^ 32) count)
                        (message "backend server-first has a non-numeric i="))
                      _ c4 h4
                      λ iterations c5 h5.
                        prove-Kept (derive salt iterations) _ server_first server_nonce c5 h5)

  after_offer-Kept :
      (derive : Bytes → ℕ → ScramKeys) (client_nonce : Bytes) (c : Conn)
      → Reads input c
      → Kept input (after_offer p derive client_nonce c)
  after_offer-Kept derive client_nonce c h = write_then-Kept input _ _ c h λ u c1 h1.
      write_then-Kept input [] _ c1 h1 λ u c2 h2.
        expect_then-Kept input auth_sasl_continue _ c2 (omega arith) (omega arith) h2 λ cont c4 h4.
          lift_then-Kept input (from_utf8 (drop 4 (payload cont))) _ c4 h4
            λ server_first c5 h5. answer-Kept derive client_nonce server_first c5 h5

  pub reauth_upstream-Kept :
      (keys : ScramKeys) (nonce_bytes : Bytes) (c : Conn)
      → Reads input c
      → Kept input (reauth_upstream p keys nonce_bytes c)
  unfolding reauth_upstream run_scram
  reauth_upstream-Kept keys nonce_bytes c h =
      expect_then-Kept input auth_sasl _ c (omega arith) (omega arith) h λ sasl c1 h1.
        if-Kept input (not (offers mechanism_name (parse_mechanisms (drop 4 (payload sasl))))) _ _
          c1 tt (after_offer-Kept (λ salt iterations. keys) _ c1 h1)

  pub authenticate_password-Kept :
      (password nonce_bytes : Bytes) (sasl : RawMessage) (c : Conn)
      → Reads input c
      → Kept input (authenticate_password p password nonce_bytes sasl c)
  unfolding authenticate_password run_scram
  authenticate_password-Kept password nonce_bytes sasl c h =
      lift_then-Kept input (expect_auth sasl auth_sasl) _ c h λ u c1 h1.
        if-Kept input (not (offers mechanism_name (parse_mechanisms (drop 4 (payload sasl))))) _ _
          c1 tt (after_offer-Kept (from_password p password) _ c1 h1)
