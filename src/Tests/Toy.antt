-- ===== src/Tests/Toy.antt =====
-- Concrete stand-ins for code that the repository does not hold.
use rama_pg.Bytes.{Bytes, IsBytes}
use rama_pg.Scram.Primitives.{Primitives, IsBase64}
use rama_pg.Exec.{Conn}
use rama_pg.Prelude.{
  ℕ, zero, suc, ◌<◌, ◌+◌, ◌-◌, ◌*◌, ◌/◌, ◌%◌, [], ◌∷◌, All, length, replicate, Result, ok, err,
  base64_error, ◌≡◌, refl, arith, inl,
}

-- Two letters for each byte.
abbrev encode : Bytes → Bytes
encode [] = []
encode (b ∷ bs) = (b'A' + b / 16 % 16) ∷ (b'A' + b % 16) ∷ encode bs

abbrev put_byte : ℕ → Result Bytes → Result Bytes
put_byte b (ok bs) = ok (b ∷ bs)
put_byte b (err e) = err e

abbrev decode : Bytes → Result Bytes
decode [] = ok []
decode (c ∷ []) = err base64_error
decode (c ∷ d ∷ cs) = put_byte ((c - b'A') * 16 + (d - b'A')) (decode cs)

abbrev hash : Bytes → Bytes
hash bs = replicate 32 (length bs % 256)

pub encode-IsBase64 : (bs : Bytes) → All IsBase64 (encode bs)
encode-IsBase64 [] = tt
encode-IsBase64 (b ∷ bs) = (inl (ground arith), (inl (ground arith), encode-IsBase64 bs))

pub decode-encode : (bs : Bytes) → IsBytes bs → decode (encode bs) ≡ ok bs
decode-encode [] h = refl
decode-encode (b ∷ bs) (small, h) =
    let here : (b'A' + b / 16 % 16 - b'A') * 16 + (b'A' + b % 16 - b'A') ≡ b = ground arith in
    rw (decode-encode bs h, here)

pub replicate-IsBytes : (n b : ℕ) → b < 256 → IsBytes (replicate n b)
replicate-IsBytes zero b h = tt
replicate-IsBytes (suc n) b h = (h, replicate-IsBytes n b h)

pub hash-IsBytes : (bs : Bytes) → IsBytes (hash bs)
hash-IsBytes bs = replicate-IsBytes 32 (length bs % 256) (omega arith)

pub length-hash : (bs : Bytes) → length (hash bs) ≡ 32
length-hash bs = refl

abbrev pub toy : Primitives
toy = record {
  encode = encode;
  decode = decode;
  sha256 = hash;
  encode-IsBase64 = encode-IsBase64;
  decode-encode = decode-encode;
  length-sha256 = length-hash;
  sha256-IsBytes = hash-IsBytes;
}

-- A connection with bytes to read, and room for a hundred writes.
abbrev pub peer : Bytes → Conn
peer input = record { input = input; sent = []; room = 100 }
