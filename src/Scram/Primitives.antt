-- ===== src/Scram/Primitives.antt =====
-- The cryptographic code that src/scram takes from the crates `base64` and `sha2`, as a parameter:
-- the standard base64 alphabet, its round trip, and a hash of 32 bytes.
use rama_pg.Bytes.{Bytes, IsBytes}
use rama_pg.Prelude.{ℕ, ◌≡◌, ◌≤◌, ◌⊎◌, Result, ok, All, length}

-- `A-Z`, `a-z`, `0-9`, `+`, `/` and the padding `=`.
abbrev pub IsBase64 : ℕ → Type 0
IsBase64 c =
    ((b'A' ≤ c) × (c ≤ b'Z'))
    ⊎ ((b'a' ≤ c) × (c ≤ b'z'))
    ⊎ ((b'0' ≤ c) × (c ≤ b'9'))
    ⊎ (c ≡ b'+')
    ⊎ (c ≡ b'/')
    ⊎ (c ≡ b'=')

pub record Primitives : Type 0 where
  pub encode : Bytes → Bytes
  pub decode : Bytes → Result Bytes
  pub sha256 : Bytes → Bytes
  pub encode-IsBase64 : (bs : Bytes) → All IsBase64 (encode bs)
  pub decode-encode : (bs : Bytes) → IsBytes bs → decode (encode bs) ≡ ok bs
  pub length-sha256 : (bs : Bytes) → length (sha256 bs) ≡ 32
  pub sha256-IsBytes : (bs : Bytes) → IsBytes (sha256 bs)
