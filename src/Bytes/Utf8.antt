-- ===== src/Bytes/Utf8.antt =====
-- `std::str::from_utf8`: well-formed UTF-8, by the table of the Unicode standard.
use rama_pg.Bytes.{Bytes}
use rama_pg.Prelude.{
  ℕ, ◌-◌, ◌<◌, ◌≡◌, refl, [], ◌∷◌, Option, none, some, Bool, true, false, ◌&&◌, ltb, leb, ◌==◌,
  if◌then◌else◌, All, arith, Result, ok, err, utf8_error,
}

-- The continuation bytes still due, and the range of the next one.
pub record Due : Type 0 where
  pub count : ℕ
  pub lo : ℕ
  pub hi : ℕ

abbrev due : ℕ → ℕ → ℕ → Due
due count lo hi = record { count = count; lo = lo; hi = hi }

abbrev pub at_start : Due
at_start = due 0 0 0

lead : ℕ → Option Due
lead b =
    if ltb b 0x80
    then some (due 0 0 0)
    else if ltb b 0xc2
    then none
    else if ltb b 0xe0
    then some (due 1 0x80 0xbf)
    else if b == 0xe0
    then some (due 2 0xa0 0xbf)
    else if b == 0xed
    then some (due 2 0x80 0x9f)
    else if ltb b 0xf0
    then some (due 2 0x80 0xbf)
    else if b == 0xf0
    then some (due 3 0x90 0xbf)
    else if ltb b 0xf4
    then some (due 3 0x80 0xbf)
    else if b == 0xf4
    then some (due 3 0x80 0x8f)
    else none

pub utf8_step : Due → ℕ → Option Due
unfolding lead
utf8_step d b =
    if d.count == 0
    then lead b
    else if leb d.lo b && leb b d.hi
    then some (due (d.count - 1) 0x80 0xbf)
    else none

pub is_utf8_from : Due → Bytes → Bool
is_utf8_from d [] = d.count == 0
is_utf8_from d (b ∷ bs) = elim (utf8_step d b) [ none ↦ false | some d' ↦ is_utf8_from d' bs ]

unfoldable pub is_utf8 : Bytes → Bool
unfolding is_utf8_from utf8_step
is_utf8 = is_utf8_from at_start

unfoldable pub from_utf8 : Bytes → Result Bytes
from_utf8 bs = if is_utf8 bs then ok bs else err utf8_error

-- ASCII text is well formed.
pub is_utf8_ascii : (bs : Bytes) → All (λ b. b < 128) bs → is_utf8 bs ≡ true
unfolding is_utf8
is_utf8_ascii [] h = refl
is_utf8_ascii (b ∷ bs) h = ground (arith, h, is_utf8_ascii bs h.1)
