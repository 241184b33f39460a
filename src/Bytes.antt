-- ===== src/Bytes.antt =====
-- Byte strings: the big-endian integers of the wire, and the searches that the parsers make.
pub mod Utf8
pub mod Map
pub mod Search
use Prim.Native.Char.{code}
use Prim.Native.String.{String}
use rama_pg.Prelude.{
  ℕ, zero, suc, ◌+◌, ◌-◌, ◌*◌, ◌/◌, ◌%◌, ◌^◌, ◌<◌, ◌≤◌, ◌≡◌, refl, List, [], ◌∷◌, ◌++◌, length,
  take, get_or, Option, none, some, Bool, true, false, ◌&&◌, ◌==◌, if◌then◌else◌, arith, All,
}
use rama_pg.Prelude.Int.{ℤ, pos, to_i32}

abbrev pub Bytes : Type 0
Bytes = List ℕ

-- Every element is a `u8`.
abbrev pub IsBytes : Bytes → Type 0
IsBytes = All λ b. b < 256

-- The bytes of an ASCII literal.
abbrev pub codes : String → Bytes
codes String.[] = []
codes (String.◌∷◌ c s) = code c ∷ codes s

-- `n.to_be_bytes()` for a 32-bit and a 16-bit pattern; a cast `as i32` keeps the low bits.
abbrev pub be32 : ℕ → Bytes
be32 n = (n / 2 ^ 24 % 256) ∷ (n / 2 ^ 16 % 256) ∷ (n / 2 ^ 8 % 256) ∷ (n % 256) ∷ []

abbrev pub be16 : ℕ → Bytes
be16 n = (n / 2 ^ 8 % 256) ∷ (n % 256) ∷ []

-- The pattern in the first four bytes, and `i32::from_be_bytes` of them.
abbrev pub be32_value : Bytes → ℕ
be32_value b = get_or b 0 0 * 2 ^ 24 + get_or b 1 0 * 2 ^ 16 + get_or b 2 0 * 2 ^ 8 + get_or b 3 0

abbrev pub i32_at : Bytes → ℤ
i32_at b = to_i32 (be32_value b)

-- `a == b` on slices.
abbrev pub eqb : Bytes → Bytes → Bool
eqb [] [] = true
eqb (x ∷ xs) (y ∷ ys) = x == y && eqb xs ys
eqb _ _ = false

pub be32_value-be32 : (n : ℕ) (rest : Bytes) → n < 2 ^ 32 → be32_value (be32 n ++ rest) ≡ n
be32_value-be32 n rest h = omega arith

pub i32_at-be32 : (n : ℕ) (rest : Bytes) → n < 2 ^ 31 → i32_at (be32 n ++ rest) ≡ pos n
i32_at-be32 n rest h = ground arith
