-- ===== src/Scram/Crypto.antt =====
-- src/scram/crypto.rs: HMAC, PBKDF2, the SCRAM keys and the client proof, over a given SHA-256.
-- A `[u8; 32]` is a list of bytes.
pub mod Xor
use rama_pg.Bytes.{Bytes, codes, be32}
use rama_pg.Scram.Primitives.{Primitives}
use rama_pg.Prelude.{
  ℕ, zero, suc, ◌-◌, [], ◌∷◌, ◌++◌, length, replicate, bit_xor, ltb, if◌then◌else◌,
}

-- `a[i] ^ b[i]` for every `i`.
unfoldable pub xor_bytes : Bytes → Bytes → Bytes
xor_bytes (a ∷ as') (b ∷ bs) = bit_xor a b ∷ xor_bytes as' bs
xor_bytes _ _ = []

pub record ScramKeys : Type 0 where
  pub client_key : Bytes
  pub stored_key : Bytes
  pub server_key : Bytes

unfoldable pub recover_client_key : Bytes → Bytes → Bytes
recover_client_key proof client_signature = xor_bytes proof client_signature

unfoldable pub client_proof : Bytes → Bytes → Bytes
client_proof client_key client_signature = xor_bytes client_key client_signature

module _ (p : Primitives) where
  open p use {sha256, encode}

  -- The key, hashed if it is longer than a block, in a block of 64 bytes filled with zeros.
  block_key : Bytes → Bytes
  block_key key =
      if ltb 64 (length key)
      then sha256 key ++ replicate 32 0
      else key ++ replicate (64 - length key) 0

  unfoldable pub hmac_sha256 : Bytes → Bytes → Bytes
  unfolding block_key
  hmac_sha256 key message =
      let inner_hash = sha256 (xor_bytes (replicate 64 0x36) (block_key key) ++ message) in
      sha256 (xor_bytes (replicate 64 0x5c) (block_key key) ++ inner_hash)

  -- The rounds after the first: `u` is replaced by its HMAC and xored onto the result.
  unfoldable pub pbkdf2_rounds : ℕ → Bytes → Bytes → Bytes → Bytes
  pbkdf2_rounds zero password u result = result
  pbkdf2_rounds (suc n) password u result =
      let u' = hmac_sha256 password u in pbkdf2_rounds n password u' (xor_bytes result u')

  unfoldable pub pbkdf2_hmac_sha256 : Bytes → Bytes → ℕ → Bytes
  pbkdf2_hmac_sha256 password salt iterations =
      let u = hmac_sha256 password (salt ++ be32 1) in pbkdf2_rounds (iterations - 1) password u u

  unfoldable pub from_salted_password : Bytes → ScramKeys
  from_salted_password salted =
      let client_key = hmac_sha256 salted (codes "Client Key") in
      record {
        client_key = client_key;
        stored_key = sha256 client_key;
        server_key = hmac_sha256 salted (codes "Server Key");
      }

  unfoldable pub from_password : Bytes → Bytes → ℕ → ScramKeys
  unfolding from_salted_password
  from_password password salt iterations =
      from_salted_password (pbkdf2_hmac_sha256 password salt iterations)

  -- `random_nonce` of the 18 bytes drawn.
  unfoldable pub random_nonce : Bytes → Bytes
  random_nonce bytes = encode bytes
