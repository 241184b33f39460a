-- ===== src/Decimal.antt =====
-- `to_string` and `parse` of unsigned integers, in decimal ASCII.
use mathlib.Core.List.{concat-ne-nil}
use native.Mathlib.Nat.{pow-suc}
use rama_pg.Bytes.{Bytes}
use rama_pg.Prelude.{
  ℕ, zero, suc, ◌+◌, ◌-◌, ◌*◌, ◌/◌, ◌%◌, ◌^◌, ◌<◌, ◌≤◌, ◌≡◌, ◌≢◌, refl, [], ◌∷◌, ◌++◌, Option, none,
  some, ◌&&◌, ltb, leb, ◌==◌, if◌then◌else◌, arith, All, All-append, Bool-cases, inl, inr,
}

-- The digits of a number, at most `fuel` and one more.
unfoldable pub digits : ℕ → ℕ → Bytes
digits zero n = (b'0' + n % 10) ∷ []
digits (suc fuel) n =
    let rest = digits fuel (n / 10) in
    if ltb n 10 then (b'0' + n) ∷ [] else rest ++ (b'0' + n % 10) ∷ []

-- Every value of a `u64` has at most 20 digits.
unfoldable pub to_string : ℕ → Bytes
unfolding digits
to_string n = digits 19 n

-- One more digit, below the bound of the type.
digit_onto : ℕ → Option ℕ → ℕ → Option ℕ
digit_onto bound none c = none
digit_onto bound (some v) c =
    if leb b'0' c && leb c b'9' && ltb (v * 10 + (c - b'0')) bound
    then some (v * 10 + (c - b'0'))
    else none

digits_onto : ℕ → Option ℕ → Bytes → Option ℕ
digits_onto bound v [] = v
digits_onto bound v (c ∷ cs) = digits_onto bound (digit_onto bound v c) cs

parse_digits : ℕ → Bytes → Option ℕ
parse_digits bound [] = none
parse_digits bound (c ∷ cs) = digits_onto bound (some 0) (c ∷ cs)

-- `s.parse::<uN>()` for a type with values below `bound`: one `+` may stand in front.
unfoldable pub parse_uint : ℕ → Bytes → Option ℕ
unfolding parse_digits digits_onto digit_onto
parse_uint bound [] = none
parse_uint bound (c ∷ cs) = if c == b'+' then parse_digits bound cs else parse_digits bound (c ∷ cs)

digits_onto-append :
    (bound : ℕ) (v : Option ℕ) (xs ys : Bytes)
    → digits_onto bound v (xs ++ ys) ≡ digits_onto bound (digits_onto bound v xs) ys
unfolding digits_onto
digits_onto-append bound v [] ys = refl
digits_onto-append bound v (x ∷ xs) ys = digits_onto-append bound (digit_onto bound v x) xs ys

abbrev pub IsDigits : Bytes → Type 0
IsDigits = All λ c. (b'0' ≤ c) × (c ≤ b'9')

pub digits-IsDigits : (fuel n : ℕ) → IsDigits (digits fuel n)
unfolding digits
digits-IsDigits zero n = omega arith
digits-IsDigits (suc fuel) n = elim (Bool-cases (ltb n 10)) [
  | inl small ↦ rw small (ground arith)
  | inr large ↦
      rw large (All-append _ (digits fuel (n / 10)) _ (digits-IsDigits fuel (n / 10)) (omega arith))
]

-- The digits read back, for a number that the fuel and the bound allow.
digits_onto-digits :
    (bound fuel n : ℕ)
    → n < 10 ^ suc fuel
    → n < bound
    → digits_onto bound (some 0) (digits fuel n) ≡ some n
unfolding digits_onto digit_onto digits
digits_onto-digits bound zero n h b = ground arith
digits_onto-digits bound (suc fuel) n h b = elim (Bool-cases (ltb n 10)) [
  | inl small ↦ rw small (ground arith)
  | inr large ↦
      let front =
        digits_onto-digits bound fuel (n / 10) (omega (arith, pow-suc 10 (suc fuel)))
          (omega arith) in
      rw
        (
          large,
          digits_onto-append bound (some 0) (digits fuel (n / 10)) ((b'0' + n % 10) ∷ []),
          front,
        )
        (ground arith)
]

parse_uint-digits :
    (bound n : ℕ) (ds : Bytes)
    → IsDigits ds
    → ds ≢ []
    → digits_onto bound (some 0) ds ≡ some n
    → parse_uint bound ds ≡ some n
unfolding parse_uint
parse_uint-digits bound n [] h ne e = absurd (ne refl)
parse_uint-digits bound n (c ∷ cs) h ne e = ground (arith, h.0)

digits-ne-nil : (fuel n : ℕ) → digits fuel n ≢ []
unfolding digits
digits-ne-nil zero n = λ e. cc
digits-ne-nil (suc fuel) n = elim (Bool-cases (ltb n 10)) [
  | inl small ↦ rw small (λ e. cc)
  | inr large ↦ rw large (concat-ne-nil _ (digits fuel (n / 10)))
]

-- A number below the bound of its type is printed so that it is parsed back.
pub parse_uint-to_string :
    (bound n : ℕ) → n < bound → bound ≤ 2 ^ 64 → parse_uint bound (to_string n) ≡ some n
unfolding to_string
parse_uint-to_string bound n h b =
    parse_uint-digits bound n (digits 19 n) (digits-IsDigits 19 n) (digits-ne-nil 19 n)
      (digits_onto-digits bound 19 n (omega arith) h)

pub to_string-IsDigits : (n : ℕ) → IsDigits (to_string n)
unfolding to_string
to_string-IsDigits n = digits-IsDigits 19 n
