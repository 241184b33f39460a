-- ===== src/PgBouncer/Console/Tables.antt =====
-- The shape of the console's responses.
use rama_pg.Bytes.{Bytes, codes, eqb}
use rama_pg.Bytes.Search.{starts_with, eqb_sound}
use rama_pg.Decimal.{to_string}
use rama_pg.PgBouncer.Console.{rows, client_row, answer, console}
use rama_pg.PgBouncer.Stats.{ClientEntry, Stats}
use rama_pg.Query.{QueryResponse, command, error, trim_query, upper, TxnStatus}
use rama_pg.Prelude.{
  ℕ, List, [], ◌∷◌, ◌++◌, map, length, length-map, All, some, true, ◌≡◌, refl, sym, ap, ◌∙◌,
  Bool-cases, inl, inr,
}

-- A table whose rows are as wide as its header, with its number of rows in the tag, given only to a
-- command that begins with `SHOW`; or an error of this code.
abbrev pub IsAnswer : Bytes → QueryResponse → Type 0
IsAnswer asked (QueryResponse.rows columns cells tag) =
    (starts_with (codes "SHOW") asked ≡ true)
    × All (λ row. length row ≡ length columns) cells
    × (tag ≡ codes "SELECT " ++ to_string (length cells))
IsAnswer asked (command tag) = ⊥
IsAnswer asked (error sqlstate text) = sqlstate ≡ codes "0A000"

rows-width :
    (n : ℕ) (cells : List (List Bytes))
    → All (λ row. length row ≡ n) cells
    → All (λ row. length row ≡ n) (map (λ row. map some row) cells)
rows-width n [] h = tt
rows-width n (row ∷ cells) (wide, h) = (length-map some row ∙ wide, rows-width n cells h)

rows-IsAnswer :
    (asked : Bytes) (columns : List Bytes) (cells : List (List Bytes))
    → starts_with (codes "SHOW") asked ≡ true
    → All (λ row. length row ≡ length columns) cells
    → IsAnswer asked (rows columns cells)
unfolding rows
rows-IsAnswer asked columns cells is wide = (
  is,
  rows-width (length columns) cells wide,
  ap (λ n. codes "SELECT " ++ to_string n) (sym (length-map (λ row. map some row) cells)),
)

client_rows-width : (cs : List ClientEntry) → All (λ row. length row ≡ 4) (map client_row cs)
client_rows-width [] = tt
client_rows-width (c ∷ cs) = (refl, client_rows-width cs)

-- A command that equals one of the five begins with `SHOW`.
is_show :
    (asked known : Bytes)
    → eqb asked known ≡ true
    → starts_with (codes "SHOW") known ≡ true
    → starts_with (codes "SHOW") asked ≡ true
is_show asked known e h = ap (starts_with (codes "SHOW")) (eqb_sound asked known e) ∙ h

answer-IsAnswer : (s : Stats) (asked : Bytes) → IsAnswer asked (answer s asked)
unfolding answer
answer-IsAnswer s asked = elim (Bool-cases (eqb asked (codes "SHOW POOLS"))) [
  | inl e ↦ rw e (
      rows-IsAnswer asked _ _ (is_show asked (codes "SHOW POOLS") e (unfold starts_with in refl))
        (refl, tt))
  | inr e1 ↦ elim (Bool-cases (eqb asked (codes "SHOW CLIENTS"))) [
    | inl e ↦
        rw (e1, e)
          (rows-IsAnswer asked _ _
            (is_show asked (codes "SHOW CLIENTS") e (unfold starts_with in refl))
            (client_rows-width s.clients))
    | inr e2 ↦ elim (Bool-cases (eqb asked (codes "SHOW STATS"))) [
      | inl e ↦
          rw (e1, e2, e)
            (rows-IsAnswer asked _ _
              (is_show asked (codes "SHOW STATS") e (unfold starts_with in refl)) (refl, tt))
      | inr e3 ↦ elim (Bool-cases (eqb asked (codes "SHOW LISTS"))) [
        | inl e ↦
            rw (e1, e2, e3, e)
              (rows-IsAnswer asked _ _
                (is_show asked (codes "SHOW LISTS") e (unfold starts_with in refl))
                (refl, (refl, tt)))
        | inr e4 ↦ elim (Bool-cases (eqb asked (codes "SHOW VERSION"))) [
          | inl e ↦
              rw (e1, e2, e3, e4, e)
                (rows-IsAnswer asked _ _
                  (is_show asked (codes "SHOW VERSION") e (unfold starts_with in refl)) (refl, tt))
          | inr e5 ↦ elim (Bool-cases (starts_with (codes "SHOW") asked)) [
            | inl e ↦ rw (e1, e2, e3, e4, e5, e) refl
            | inr e6 ↦ rw (e1, e2, e3, e4, e5, e6) refl
          ]
        ]
      ]
    ]
  ]
]

-- Whatever a client of the console asks, it is answered with a table whose rows are all as wide as
-- its header and whose tag counts them, and this only if the command, trimmed and in upper case,
-- begins with `SHOW`, or with the error 0A000; its transaction status stays as it was.
pub console-IsAnswer :
    (s : Stats) (user database : Bytes) (txn : TxnStatus) (sql : Bytes)
    → IsAnswer (map upper (trim_query sql)) (console s user database txn sql).0
      × ((console s user database txn sql).1 ≡ txn)
unfolding console
console-IsAnswer s user database txn sql = (answer-IsAnswer s (map upper (trim_query sql)), refl)
