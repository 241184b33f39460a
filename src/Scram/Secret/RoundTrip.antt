-- ===== src/Scram/Secret/RoundTrip.antt =====
-- A verifier that is printed is parsed back.
use rama_pg.Bytes.{Bytes, IsBytes, codes}
use rama_pg.Bytes.Search.{Free, split_once-append, strip_prefix-append}
use rama_pg.Decimal.{to_string, to_string-IsDigits, parse_uint-to_string}
use rama_pg.Scram.Primitives.{Primitives}
use rama_pg.Scram.Secret.{ScramSecret, decode_key, parse, to_verifier_string}
use rama_pg.Prelude.{
  ℕ, ◌^◌, ◌<◌, ◌≡◌, ◌⊎◌, inl, inr, refl, ◌∷◌, ◌++◌, length, ok, arith, All, All-append, All-map,
}

-- A secret as the program holds it: a `u32`, a salt of bytes and two keys of 32 bytes.
pub record IsSecret (s : ScramSecret) : Type 0 where
  pub iterations_u32 : s.iterations < 2 ^ 32
  pub salt_bytes : IsBytes s.salt
  pub stored_bytes : IsBytes s.stored_key
  pub length_stored : length s.stored_key ≡ 32
  pub server_bytes : IsBytes s.server_key
  pub length_server : length s.server_key ≡ 32

pub to_string-Free : (at n : ℕ) → (at ≡ b'$') ⊎ (at ≡ b':') → Free at (to_string n)
to_string-Free at n h = All-map (λ c k. ground arith) (to_string n) (to_string-IsDigits n)

module _ (p : Primitives) where
  open p use {encode, decode, encode-IsBase64, decode-encode}

  -- The separators of the textual forms are no base64 characters.
  pub encode-Free :
      (at : ℕ) (bs : Bytes) → (at ≡ b'$') ⊎ (at ≡ b':') ⊎ (at ≡ b',') → Free at (encode bs)
  encode-Free at bs h = All-map (λ c k. ground arith) (encode bs) (encode-IsBase64 bs)

  pub encode-ascii : (bs : Bytes) → All (λ b. b < 128) (encode bs)
  encode-ascii bs = All-map (λ c k. ground arith) (encode bs) (encode-IsBase64 bs)

  decode_key-encode :
      (key : Bytes) → IsBytes key → length key ≡ 32 → decode_key p (encode key) ≡ ok key
  unfolding decode_key
  decode_key-encode key h l = rw (decode-encode key h, l)

  -- Every verifier of the program is parsed back from its text.
  pub parse-to_verifier_string :
      (s : ScramSecret) → IsSecret s → parse p (to_verifier_string p s) ≡ ok s
  unfolding parse to_verifier_string
  parse-to_verifier_string s h =
      let params = to_string s.iterations ++ b':' ∷ encode s.salt in
      let keys = encode s.stored_key ++ b':' ∷ encode s.server_key in
      rw (strip_prefix-append (codes "SCRAM-SHA-256$") (params ++ b'$' ∷ keys)) (
        rw
          (split_once-append b'$' params keys (
            All-append _ (to_string s.iterations) _ (to_string-Free b'$' s.iterations (inl refl))
              (ground arith, encode-Free b'$' s.salt (inl refl))))
          (rw
            (split_once-append b':' (to_string s.iterations) (encode s.salt)
              (to_string-Free b':' s.iterations (inr refl)))
            (rw
              (split_once-append b':' (encode s.stored_key) (encode s.server_key)
                (encode-Free b':' s.stored_key (inr (inl refl))))
              (rw (
                parse_uint-to_string (2 ^ 32) s.iterations h.iterations_u32 (omega arith),
                decode-encode s.salt h.salt_bytes,
                decode_key-encode s.stored_key h.stored_bytes h.length_stored,
                decode_key-encode s.server_key h.server_bytes h.length_server,
              )))))
