-- ===== src/Startup/Parse.antt =====
-- What the parser of startup packets does on every input.
use rama_pg.Bytes.{Bytes}
use rama_pg.Bytes.Search.{split_once}
use rama_pg.Bytes.Utf8.{from_utf8}
use rama_pg.Prelude.{
  ℕ, zero, suc, ◌<◌, ◌≡◌, ◌≢◌, refl, [], ◌∷◌, ◌++◌, length, arith, Option, Option-cases, none, some,
  Result, ok, err, Error, ◌⊎◌, inl, inr,
}
use rama_pg.Startup.{
  Parameters, read_cstr, key_then, next_parameter, parameters_loop, parse_parameters,
}

-- What a step that consumes bytes leaves is shorter than what it was given.
abbrev Shorter : Bytes → Option (Bytes × Bytes) → Type 0
Shorter bs none = Unit
Shorter bs (some (l, r)) = length r < length bs

split_once-Shorter : (at : ℕ) (bs : Bytes) → Shorter bs (split_once at bs)
unfolding split_once
split_once-Shorter at [] = tt
split_once-Shorter at (b ∷ bs) = ground (arith, split_once-Shorter at bs)

abbrev Leaves : Bytes → Result (Bytes × Bytes) → Type 0
Leaves bs (err e) = Unit
Leaves bs (ok (s, rest)) = length rest < length bs

read_cstr-Leaves : (buf : Bytes) → Leaves buf (read_cstr buf)
unfolding read_cstr from_utf8
read_cstr-Leaves buf = ground (arith, split_once-Shorter 0 buf)

abbrev GoesOn : Bytes → Result (Option ((Bytes × Bytes) × Bytes)) → Type 0
GoesOn bs (ok (some (p, rest))) = length rest < length bs
GoesOn bs _ = Unit

key_then-GoesOn :
    (buf : Bytes) (r : Result (Bytes × Bytes)) → Leaves buf r → GoesOn buf (key_then r)
key_then-GoesOn buf (err e) l = tt
key_then-GoesOn buf (ok ([], rest)) l = tt
key_then-GoesOn buf (ok (c ∷ cs, rest)) l = ground (arith, read_cstr-Leaves rest)

next_parameter-GoesOn : (buf : Bytes) → GoesOn buf (next_parameter buf)
unfolding next_parameter
next_parameter-GoesOn buf = key_then-GoesOn buf (read_cstr buf) (read_cstr-Leaves buf)

abbrev Round : Type 0
Round = Result (Option ((Bytes × Bytes) × Bytes))

Round-cases :
    (r : Round)
    → ((e : Error) × (r ≡ err e))
      ⊎ (r ≡ ok none)
      ⊎ ((p : Bytes × Bytes) × (rest : Bytes) × (r ≡ ok (some (p, rest))))
Round-cases (err e) = inl (e, refl)
Round-cases (ok none) = inr (inl refl)
Round-cases (ok (some (p, rest))) = inr (inr (p, rest, refl))

-- With fuel above the bytes there are, the loop ends.
parameters_loop_total :
    (fuel : ℕ) (buf : Bytes) (acc : Parameters)
    → length buf < fuel
    → parameters_loop fuel buf acc ≢ none
unfolding parameters_loop
parameters_loop_total zero buf acc h = absurd (omega arith)
parameters_loop_total (suc fuel) buf acc h = elim (Round-cases (next_parameter buf)) [
  | inl (e, q) ↦ rw (q, parameters_loop) (λ n. cc)
  | inr (inl q) ↦ rw (q, parameters_loop) (λ n. cc)
  | inr (inr (p, rest, q)) ↦
      rw (q, parameters_loop)
        (parameters_loop_total fuel rest (acc ++ p ∷ [])
          (let l : length rest < length buf = rw q at (next_parameter-GoesOn buf) in omega arith))
]

-- Whatever the bytes, the parameter list is parsed or refused: the loop's fuel never runs out.
pub parse_parameters_total :
    (buf : Bytes) → parameters_loop (suc (length buf)) buf [] ≡ some (parse_parameters buf)
unfolding parse_parameters
parse_parameters_total buf = elim (Option-cases (parameters_loop (suc (length buf)) buf [])) [
  | inl stuck ↦ absurd (parameters_loop_total (suc (length buf)) buf [] (omega arith) stuck)
  | inr (r, e) ↦ rw e
]
