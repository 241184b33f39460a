-- ===== src/Stream/Read.antt =====
-- Reads in terms of the bytes still to come, `flatten r`: how they are cut into chunks is seen
-- only in how much one read returns.
use rama_pg.Bytes.{Bytes}
use rama_pg.Prelude.{
  ℕ, zero, suc, ◌-◌, ◌<◌, ◌≤◌, ◌≡◌, ◌≢◌, refl, sym, ap, ◌∙◌, [], ◌∷◌, ◌++◌, flatten, append_assoc,
  length, take, drop, leb, arith, All, Bool-cases, inl, inr, take-append-drop, take-append_le,
  drop-append_le, take-append_ge, drop-append_ge, err, unexpected_eof, length-append, length-take,
  ok, append-nil,
}
use rama_pg.Stream.{Reader, put_back, read_buf, read_exact}

-- No chunk is empty.
abbrev pub IsLive : Reader → Type 0
IsLive = All λ c. c ≢ []

pub flatten-put_back : (c : Bytes) (r : Reader) → flatten (put_back c r) ≡ c ++ flatten r
unfolding flatten
flatten-put_back [] r = refl
flatten-put_back (b ∷ bs) r = refl

pub put_back-IsLive : (c : Bytes) (r : Reader) → IsLive r → IsLive (put_back c r)
put_back-IsLive [] r h = h
put_back-IsLive (b ∷ bs) r h = ((λ e. cc), h)

-- A read moves bytes and loses none.
pub read_buf-append :
    (n : ℕ) (r : Reader) → (read_buf n r).0 ++ flatten (read_buf n r).1 ≡ flatten r
unfolding flatten
read_buf-append n [] = refl
read_buf-append n (c ∷ r) =
    rw flatten-put_back
      (rw (← append_assoc (take n c) (drop n c) (flatten r)) (rw (take-append-drop n c)))

pub read_buf-IsLive : (n : ℕ) (r : Reader) → IsLive r → IsLive (read_buf n r).1
read_buf-IsLive n [] h = tt
read_buf-IsLive n (c ∷ r) h = put_back-IsLive (drop n c) r h.1

pub length-read_buf : (n : ℕ) (r : Reader) → length (read_buf n r).0 ≤ n
length-read_buf n [] = omega arith
length-read_buf n (c ∷ r) = omega (arith, length-take n c)

-- A read with a limit above zero returns nothing only at the end of the stream.
pub read_buf-eof : (n : ℕ) (r : Reader) → IsLive r → 0 < n → (read_buf n r).0 ≡ [] → flatten r ≡ []
unfolding flatten
read_buf-eof n [] h p e = refl
read_buf-eof n ([] ∷ r) h p e = absurd (h.0 refl)
read_buf-eof zero ((b ∷ c) ∷ r) h p e = absurd (omega arith)
read_buf-eof (suc n) ((b ∷ c) ∷ r) h p e = cc

pub read_exact_lem :
    (n : ℕ) (acc : Bytes) (r : Reader)
    → n ≤ length (flatten r)
    → ((read_exact n acc r).0 ≡ ok (acc ++ take n (flatten r)))
      × (flatten (read_exact n acc r).1 ≡ drop n (flatten r))
unfolding read_exact flatten
read_exact_lem zero acc [] h = (ap ok (sym (append-nil acc)), refl)
read_exact_lem (suc n) acc [] h = absurd (omega arith)
read_exact_lem n acc (c ∷ r) h = elim (Bool-cases (leb n (length c))) [
  | inl fits ↦ rw fits (
    ap (λ t. ok (acc ++ t)) (sym (take-append_le n c (flatten r) (ground arith))),
    flatten-put_back (drop n c) r ∙ sym (drop-append_le n c (flatten r) (ground arith)),
  )
  | inr more ↦
      let le : length c ≤ n = ground arith in
      let room : n - length c ≤ length (flatten r) = omega (arith, length-append c (flatten r)) in
      let (read, left) = read_exact_lem (n - length c) (acc ++ c) r room in
      rw more (
        read
            ∙ ap ok (
                append_assoc acc c _
                ∙ ap (λ t. acc ++ t) (sym (take-append_ge n c (flatten r) le))),
        left ∙ sym (drop-append_ge n c (flatten r) le),
      )
]

-- At the end of the stream `read_exact` fails.
pub read_exact_eof :
    (n : ℕ) (acc : Bytes) (r : Reader)
    → length (flatten r) < n
    → (read_exact n acc r).0 ≡ err unexpected_eof
unfolding read_exact flatten
read_exact_eof n acc [] h = ground arith
read_exact_eof n acc (c ∷ r) h = elim (Bool-cases (leb n (length c))) [
  | inl fits ↦ absurd (ground (arith, length-append c (flatten r)))
  | inr more ↦
      rw more
        (read_exact_eof (n - length c) (acc ++ c) r (omega (arith, length-append c (flatten r))))
]

pub read_exact-IsLive :
    (n : ℕ) (acc : Bytes) (r : Reader) → IsLive r → IsLive (read_exact n acc r).1
unfolding read_exact
read_exact-IsLive n acc [] h = ground arith
read_exact-IsLive n acc (c ∷ r) h =
    ground
      (arith, put_back-IsLive (drop n c) r h.1, read_exact-IsLive (n - length c) (acc ++ c) r h.1)
