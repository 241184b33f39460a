-- ===== src/Codec/Receive.antt =====
-- `read_message_capped` over any chunks receives the first message of the bytes of the stream.
use rama_pg.Bytes.{Bytes}
use rama_pg.Prelude.Int.{ℤ}
use rama_pg.Prelude.{
  ℕ, zero, suc, ◌+◌, ◌-◌, ◌<◌, ◌≤◌, ◌≡◌, inl, inr, refl, ap, ◌∙◌, [], ◌++◌, append_assoc,
  append-nil, flatten, length, take, drop, Option, none, some, false, ltb, ◌==◌, if◌then◌else◌,
  Bool-cases, List-cases, unexpected_eof, Result, ok, err, arith, length-append, take-append_ge,
  take-append-drop, drop-append_ge, length-take,
}
use rama_pg.Stream.{Reader, read_buf, read_exact}
use rama_pg.Stream.Read.{
  IsLive, read_buf-append, read_buf-IsLive, length-read_buf, read_buf-eof, read_exact_lem,
  read_exact_eof, read_exact-IsLive,
}
use rama_pg.Codec.{
  MessageHeader, RawMessage, parse_header, body_len, read_header, read_body, read_message_capped,
  after_read_header,
}
use rama_pg.Codec.Frames.{receive}

-- A call's answer with the bytes that it leaves.
abbrev pub observe : Option (Result RawMessage) × Reader → Option (Result (RawMessage × Bytes))
observe (none, r) = none
observe (some (err e), r) = some (err e)
observe (some (ok m), r) = some (ok (m, flatten r))

-- The body loop ends with the bytes up to `total`, or with the end of the stream.
read_body_lem :
    (fuel total : ℕ) (buf : Bytes) (r : Reader)
    → IsLive r
    → length buf ≤ total
    → total - length buf < fuel
    → observe (read_body fuel total buf r)
      ≡ some (
          if ltb (length (buf ++ flatten r)) total
          then err unexpected_eof
          else ok (record { frame = take total (buf ++ flatten r) }, drop total (buf ++ flatten r)))
unfolding read_body
read_body_lem zero total buf r live le h = absurd (omega arith)
read_body_lem (suc fuel) total buf r live le h = elim (Bool-cases (ltb (length buf) total)) [
  | inr full ↦
      let e : length buf ≡ total = ground arith in
      rw full (
        ground (
          arith,
          length-append buf (flatten r),
          take-append_ge total buf (flatten r),
          drop-append_ge total buf (flatten r),
          append-nil buf,
        ))
  | inl short ↦ elim (List-cases (read_buf (total - length buf) r).0) [
    | inl nothing ↦
        let last = read_buf-eof (total - length buf) r live (ground arith) nothing in
        rw (short, nothing, last, append-nil buf) (rw short)
    | inr (b, bs, something) ↦
        let got = (read_buf (total - length buf) r).0 in
        let r' = (read_buf (total - length buf) r).1 in
        let moved : (buf ++ got) ++ flatten r' ≡ buf ++ flatten r =
          append_assoc buf got (flatten r')
          ∙ ap (λ t. buf ++ t) (read_buf-append (total - length buf) r) in
        let unempty : (length got == 0) ≡ false = rw something (ground arith) in
        let some_got : 0 < length got = ground arith in
        let at_most : length got ≤ total - length buf = length-read_buf (total - length buf) r in
        rw (short, unempty)
          (read_body_lem fuel total (buf ++ got) r' (read_buf-IsLive (total - length buf) r live)
              (omega (arith, length-append buf got)) (omega (arith, length-append buf got))
            ∙ ap
                (λ t. some (
                  if ltb (length t) total
                  then err unexpected_eof
                  else ok (record { frame = take total t }, drop total t)))
                moved)
  ]
]

parse_header-bytes :
    (bytes : Bytes) (max_len : ℤ) {h : MessageHeader}
    → parse_header bytes max_len ≡ ok h
    → h.bytes ≡ bytes
unfolding parse_header
parse_header-bytes bytes max_len e = ground arith

read_rest :
    (max_len : ℤ) (r r' : Reader)
    → IsLive r'
    → ltb (length (flatten r)) 5 ≡ false
    → flatten r' ≡ drop 5 (flatten r)
    → (p : Result MessageHeader) → parse_header (take 5 (flatten r)) max_len ≡ p
    → observe (after_read_header (p, r')) ≡ some (receive max_len (flatten r))
unfolding receive
read_rest max_len r r' live long left (err e) q = rw (long, q)
read_rest max_len r r' live long left (ok h) q =
    let bytes = parse_header-bytes (take 5 (flatten r)) max_len q in
    let five : length (take 5 (flatten r)) ≡ 5 = ground (arith, length-take 5 (flatten r)) in
    rw (long, q)
      (read_body_lem (suc (body_len h)) (5 + body_len h) h.bytes r' live (rw bytes (omega arith))
          (rw bytes (omega arith))
        ∙ ap
            (λ t. some (
              if ltb (length t) (5 + body_len h)
              then err unexpected_eof
              else ok (record { frame = take (5 + body_len h) t }, drop (5 + body_len h) t)))
            (rw (bytes, left) (take-append-drop 5 (flatten r))))

-- `read_message_capped`, over any chunks, returns the first message of the bytes of the stream and
-- leaves those behind it, or fails as the bytes demand. It always returns.
pub read_message_capped-receive :
    (max_len : ℤ) (r : Reader)
    → IsLive r
    → observe (read_message_capped max_len r) ≡ some (receive max_len (flatten r))
read_message_capped-receive max_len r live = elim (Bool-cases (ltb (length (flatten r)) 5)) [
  | inl short ↦
      unfold read_message_capped read_header receive in
      rw (short, read_exact_eof 5 [] r (ground arith))
  | inr long ↦
      let (read, left) = read_exact_lem 5 [] r (ground arith) in
      unfold read_message_capped read_header in
      rw read
        (read_rest max_len r (read_exact 5 [] r).1 (read_exact-IsLive 5 [] r live) long left _ refl)
]
