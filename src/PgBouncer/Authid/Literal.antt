-- ===== src/PgBouncer/Authid/Literal.antt =====
-- The role name in the query's text, read as SQL reads a literal.
use rama_pg.Bytes.{Bytes, codes}
use rama_pg.Bytes.Search.{split_once, split_once-append, Free}
use rama_pg.PgBouncer.Authid.{escape, sql}
use rama_pg.Prelude.{
  ℕ, [], ◌∷◌, ◌++◌, Option, none, some, ◌==◌, if◌then◌else◌, ◌≡◌, refl, ap, arith, false,
  Bool-cases, inl, inr,
}

abbrev onto : ℕ → Option (Bytes × Bytes) → Option (Bytes × Bytes)
onto c none = none
onto c (some (literal, rest)) = some (c ∷ literal, rest)

-- Behind an opening quote, with `standard_conforming_strings`: the literal's value and what follows
-- it. Two quotes stand for one, one ends the literal, and every other byte stands for itself.
unfoldable pub read_literal : Bytes → Option (Bytes × Bytes)
read_literal [] = none
read_literal (c ∷ []) = if c == 39 then some ([], []) else none
read_literal (c ∷ d ∷ cs) =
    let paired = read_literal cs in
    let plain = read_literal (d ∷ cs) in
    if c == 39 then if d == 39 then onto 39 paired else some ([], d ∷ cs) else onto c plain

read_literal-plain :
    (c : ℕ) (cs : Bytes) (literal rest : Bytes)
    → c == 39 ≡ false
    → read_literal cs ≡ some (literal, rest)
    → read_literal (c ∷ cs) ≡ some (c ∷ literal, rest)
unfolding read_literal
read_literal-plain c [] literal rest h e = cc
read_literal-plain c (d ∷ cs) literal rest h e = rw (h, e)

read_literal-escape : (r : Bytes) → read_literal (escape r ++ 39 ∷ []) ≡ some (r, [])
unfolding read_literal escape
read_literal-escape [] = refl
read_literal-escape (c ∷ r) = elim (Bool-cases (c == 39)) [
  | inl quote ↦
      let e : c ≡ 39 = ground arith in rw (quote, e) (ap (onto 39) (read_literal-escape r))
  | inr plain ↦
      rw plain (read_literal-plain c (escape r ++ 39 ∷ []) r [] plain (read_literal-escape r))
]

abbrev pub statement : Bytes
statement = codes "SELECT rolpassword FROM pg_authid WHERE rolname = "

statement-Free : Free 39 statement
statement-Free = ground arith

-- Whatever the role's name, the first quote of the query's text opens a literal whose value is that
-- name, and the text ends where the literal does.
pub sql-read_literal :
    (rolname : Bytes)
    → (literal : Bytes) × (split_once 39 (sql rolname) ≡ some (statement, literal))
      × (read_literal literal ≡ some (rolname, []))
unfolding sql
sql-read_literal rolname = (
  escape rolname ++ 39 ∷ [],
  split_once-append 39 statement (escape rolname ++ 39 ∷ []) statement-Free,
  read_literal-escape rolname,
)
