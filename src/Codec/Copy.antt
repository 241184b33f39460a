-- ===== src/Codec/Copy.antt =====
-- `MessageHeader::copy_body_to` moves one body from a reader to a writer.
use rama_pg.Bytes.{Bytes}
use rama_pg.Prelude.{
  ℕ, zero, suc, ◌+◌, ◌-◌, ◌<◌, ◌≤◌, ◌≡◌, inl, inr, refl, sym, ap, ◌∙◌, [], ◌++◌, append_assoc,
  append-nil, flatten, length, take, drop, Option, some, false, not, ◌==◌, Bool-cases, ok, arith,
  min, length-drop, take-add, drop-drop, ◌&&◌, Result,
}
use rama_pg.Stream.{Reader, read_exact, Sink, write_all}
use rama_pg.Stream.Read.{read_exact_lem}
use rama_pg.Codec.{MessageHeader, body_len, copy_loop, copy_body_to}

write_all_lem :
    (bs : Bytes) (s : Sink)
    → 0 < s.room
    → write_all bs s ≡ (ok tt, record { sent = s.sent ++ bs; room = s.room - 1 })
unfolding write_all
write_all_lem bs s h = ground arith

-- The outcome of copying `n` bytes from `r` to `s`.
abbrev pub Copied : ℕ → Reader → Sink → Option (Result (Unit {0})) × (Reader × Sink) → Type 0
Copied n r s (done, (r', s')) =
    (done ≡ some (ok tt))
    × (flatten r' ≡ drop n (flatten r))
    × (s'.sent ≡ s.sent ++ take n (flatten r))

copy_loop_lem :
    (fuel scratch remaining : ℕ) (r : Reader) (s : Sink)
    → remaining < fuel
    → 0 < scratch
    → remaining ≤ length (flatten r)
    → remaining ≤ s.room
    → Copied remaining r s (copy_loop fuel scratch remaining r s)
unfolding copy_loop
copy_loop_lem zero scratch remaining r s f p h k = absurd (omega arith)
copy_loop_lem (suc fuel) scratch remaining r s f p h k = elim (Bool-cases (remaining == 0)) [
  | inl done ↦
      let e : remaining ≡ 0 = ground arith in rw (done, e) (refl, refl, sym (append-nil s.sent))
  | inr more ↦
      let chunk = min remaining scratch in
      let some_left : 0 < remaining = ground arith in
      let (read, left) = read_exact_lem chunk [] r (omega arith) in
      rw (more, read, write_all_lem (take chunk (flatten r)) s (ground arith))
        (let (ended, rest, out) =
            copy_loop_lem fuel scratch (remaining - chunk) (read_exact chunk [] r).1
              (record { sent = s.sent ++ take chunk (flatten r); room = s.room - 1 }) (omega arith)
              p (rw left (omega (arith, length-drop chunk (flatten r)))) (omega arith) in
          let whole : chunk + (remaining - chunk) ≡ remaining = omega arith in
          (
            ended,
            rest ∙ rw left (drop-drop chunk (remaining - chunk) (flatten r) ∙ rw whole),
            out
                ∙ rw left (
                    append_assoc s.sent _ _
                    ∙ ap (λ t. s.sent ++ t)
                        (take-add chunk (remaining - chunk) (flatten r) ∙ rw whole)),
          ))
]

-- With any nonempty scratch space, a stream that holds the body and a writer that stays open,
-- `copy_body_to` returns, has written exactly the body, and leaves the stream behind it.
pub copy_body_to_lem :
    (h : MessageHeader) (scratch : ℕ) (r : Reader) (s : Sink)
    → 0 < scratch
    → body_len h ≤ length (flatten r)
    → body_len h ≤ s.room
    → Copied (body_len h) r s (copy_body_to h scratch r s)
unfolding copy_body_to
copy_body_to_lem h scratch r s p enough room =
    let usable : (not (body_len h == 0) && scratch == 0) ≡ false = ground arith in
    rw usable
      (copy_loop_lem (suc (body_len h)) scratch (body_len h) r s (omega arith) p enough room)
