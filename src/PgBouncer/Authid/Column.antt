-- ===== src/PgBouncer/Authid/Column.antt =====
-- `first_column` reads what `data_row` builds.
use rama_pg.Bytes.{Bytes}
use rama_pg.Bytes.Utf8.{from_utf8, is_utf8}
use rama_pg.Codec.{RawMessage, payload, frame}
use rama_pg.Codec.Tag
use rama_pg.Message.{put_i32, put_i16, cell, cells, data_row}
use rama_pg.PgBouncer.Authid.{first_column, column_text}
use rama_pg.Prelude.Int.{pos}
use rama_pg.Prelude.{
  ℕ, suc, ◌+◌, ◌^◌, ◌<◌, List, [], ◌∷◌, ◌++◌, length, Option, none, some, true, ◌≡◌, refl, ap, ◌∙◌,
  arith, take-append, length-append,
}

-- The value, if it is one and is text.
abbrev pub AsText : Option Bytes → Type 0
AsText none = Unit
AsText (some v) = (is_utf8 v ≡ true) × (length v < 2 ^ 31)

abbrev message_of : Bytes → RawMessage
message_of bs = record { frame = bs }

payload-frame : (tag : ℕ) (body : Bytes) → payload (message_of (frame tag body)) ≡ body
unfolding frame
payload-frame tag body = refl

first_column-null :
    (n : ℕ) (rest : Bytes)
    → 0 < n
    → n < 2 ^ 15
    → first_column (put_i16 n ++ (255 ∷ 255 ∷ 255 ∷ 255 ∷ [] ++ rest)) ≡ none
unfolding first_column
first_column-null n rest h b = ground arith

first_column-be32 :
    (n k : ℕ) (bs : Bytes)
    → 0 < n
    → n < 2 ^ 15
    → k < 2 ^ 31
    → first_column (put_i16 n ++ (put_i32 k ++ bs)) ≡ column_text (pos k) bs
unfolding first_column
first_column-be32 n k bs h b c = ground arith

column_text-append :
    (v rest : Bytes) → is_utf8 v ≡ true → column_text (pos (length v)) (v ++ rest) ≡ some v
unfolding from_utf8
column_text-append v rest utf8 = ground (arith, length-append v rest, take-append v rest)

cell-first_column :
    (n : ℕ) (v : Option Bytes) (rest : Bytes)
    → 0 < n
    → n < 2 ^ 15
    → AsText v
    → first_column (put_i16 n ++ (cell v ++ rest)) ≡ v
cell-first_column n none rest h b t = first_column-null n rest h b
cell-first_column n (some v) rest h b (utf8, short) =
    first_column-be32 n (length v) (v ++ rest) h b short ∙ column_text-append v rest utf8

-- Of a row of text and nulls that the proxy itself builds, with fewer than 2^15 columns and at least
-- one, `first_column` reads back the first, as text or as no value.
pub first_column-data_row :
    (v : Option Bytes) (vs : List (Option Bytes))
    → AsText v
    → length vs + 1 < 2 ^ 15
    → first_column (payload (record { frame = data_row (v ∷ vs) })) ≡ v
unfolding data_row
first_column-data_row v vs t b =
    ap first_column (payload-frame Tag.data_row (put_i16 (length (v ∷ vs)) ++ cells (v ∷ vs)))
    ∙ cell-first_column (suc (length vs)) v (cells vs) (omega arith) (omega arith) t
