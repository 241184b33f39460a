-- ===== src/Codec/Framed.antt =====
-- `FramedReader::read_frame` over any chunks, and over any number of dropped calls, returns the
-- messages that the bytes of the stream spell.
use rama_pg.Bytes.{Bytes}
use rama_pg.Prelude.Int.{ℤ}
use rama_pg.Prelude.{
  ℕ, zero, suc, ◌+◌, ◌-◌, ◌<◌, ◌≤◌, ◌≡◌, ◌≢◌, ◌⊎◌, inl, inr, refl, sym, ap, ◌∙◌, [], ◌∷◌, ◌++◌,
  append_assoc, append-nil, flatten, length, take, drop, Option, none, some, ltb, ◌==◌,
  if◌then◌else◌, Bool-cases, List-cases, Error, unexpected_eof, Result, ok, err, arith,
  length-append, take-append_le, drop-append_le,
}
use rama_pg.Stream.{Reader, read_buf}
use rama_pg.Stream.Read.{IsLive, read_buf-append, read_buf-IsLive, length-read_buf, read_buf-eof}
use rama_pg.Codec.{
  MessageHeader, RawMessage, parse_header, body_len, FramedReader, refused, whole, missing, look,
  read_frame,
}
use rama_pg.Codec.Frames.{receive, decode}

-- The buffer holds at most a header, or at most the one frame that its header announces.
abbrev pub Partial : ℤ → Bytes → Type 0
Partial max_len buf =
    (length buf ≤ 5)
    ⊎ ((h : MessageHeader) × (parse_header (take 5 buf) max_len ≡ ok h)
        × (length buf ≤ 5 + body_len h))

-- Every byte that a reader has yet to hand out.
abbrev pub unread : FramedReader → Bytes
unread r = r.buf ++ flatten r.inner

pub record IsReader (r : FramedReader) : Type 0 where
  pub partial : Partial r.max_len r.buf
  pub live : IsLive r.inner

-- A call's answer with the bytes that it leaves; `none` if it was dropped.
abbrev pub observe :
    Option (Result (Option RawMessage)) × FramedReader → Option (Result (Option RawMessage × Bytes))
observe (none, r) = none
observe (some (err e), r) = some (err e)
observe (some (ok m), r) = some (ok (m, unread r))

-- What `look` finds, and what it means for the stream `buf ++ s`.
abbrev Meaning : ℤ → Bytes → Bytes → Type 0
Meaning max_len buf s =
    ((e : Error) × (look max_len buf ≡ refused e) × (decode max_len (buf ++ s) ≡ err e))
    ⊎ ((t : ℕ) × (look max_len buf ≡ whole t)
        × (decode max_len (buf ++ s) ≡ ok (some (record { frame = take t buf }), drop t buf ++ s)))
    ⊎ ((n : ℕ) × (look max_len buf ≡ missing n)
        × (0 < n)
        × (decode max_len (buf ++ [])
            ≡ (if length buf == 0 then ok (none, []) else err unexpected_eof))
        × ((got : Bytes) → length got ≤ n → Partial max_len (buf ++ got)))

Meaning-short : (max_len : ℤ) (buf s : Bytes) → length buf < 5 → Meaning max_len buf s
unfolding look decode receive
Meaning-short max_len buf s h = inr (
    inr (
      5 - length buf,
      ground arith,
      omega arith,
      rw append-nil (ground arith),
      λ got g. inl (omega (arith, length-append buf got)),
    ))

Meaning-header :
    (max_len : ℤ) (buf s : Bytes)
    → 5 ≤ length buf
    → Partial max_len buf
    → (r : Result MessageHeader) → parse_header (take 5 buf) max_len ≡ r
    → Meaning max_len buf s
unfolding look decode receive
Meaning-header max_len buf s long p (err e) q =
    inl (e, ground arith, ground (arith, take-append_le 5 buf s long, length-append buf s))
Meaning-header max_len buf s long p (ok h) q =
    let room : length buf ≤ 5 + body_len h = ground arith in
    elim (Bool-cases (length buf == 5 + body_len h)) [
      | inl full ↦ inr (
          inl (
            5 + body_len h,
            ground arith,
            ground (
              arith,
              take-append_le 5 buf s long,
              length-append buf s,
              take-append_le (5 + body_len h) buf s,
              drop-append_le (5 + body_len h) buf s,
            ),
          ))
      | inr more ↦ inr (
          inr (
            5 + body_len h - length buf,
            ground arith,
            ground arith,
            rw append-nil (ground arith),
            λ got g. inr (
              h,
              ground (arith, take-append_le 5 buf got long),
              omega (arith, length-append buf got, room),
            ),
          ))
    ]

meaning : (max_len : ℤ) (buf s : Bytes) → Partial max_len buf → Meaning max_len buf s
meaning max_len buf s p = elim (Bool-cases (ltb (length buf) 5)) [
  | inl short ↦ Meaning-short max_len buf s (ground arith)
  | inr long ↦ Meaning-header max_len buf s (ground arith) p _ refl
]

length_pos : (bs : Bytes) → bs ≢ [] → 0 < length bs
length_pos [] h = absurd (h refl)
length_pos (b ∷ bs) h = omega arith

-- The reader after one read that brought `got`, and its two sides of the same stream.
module _ (r : FramedReader) (ready : IsReader r) (n : ℕ) where
  abbrev got : Bytes
  got = (read_buf n r.inner).0

  abbrev after : FramedReader
  after = record r { inner = (read_buf n r.inner).1; buf = r.buf ++ got }

  unread-after : unread after ≡ unread r
  unread-after =
      append_assoc r.buf got (flatten (read_buf n r.inner).1)
      ∙ ap (λ t. r.buf ++ t) (read_buf-append n r.inner)

  after-IsReader : ((g : Bytes) → length g ≤ n → Partial r.max_len (r.buf ++ g)) → IsReader after
  after-IsReader keep = record {
    partial = keep got (length-read_buf n r.inner);
    live = read_buf-IsLive n r.inner ready.live;
  }

  shorter : got ≢ [] → length (flatten (read_buf n r.inner).1) < length (flatten r.inner)
  shorter some_got = omega (
    arith,
    ap length (read_buf-append n r.inner),
    length-append got (flatten (read_buf n r.inner).1),
    length_pos got some_got,
  )

-- One round of `read_frame`, by what `look` finds and the next read brings.
module _ (reads : ℕ) (r : FramedReader) where
  read_frame-refused :
      (e : Error) → look r.max_len r.buf ≡ refused e → read_frame (suc reads) r ≡ (some (err e), r)
  unfolding read_frame
  read_frame-refused e found = ground arith

  read_frame-whole :
      (t : ℕ)
      → look r.max_len r.buf ≡ whole t
      → read_frame (suc reads) r
        ≡ (some (ok (some (record { frame = take t r.buf }))), record r { buf = drop t r.buf })
  unfolding read_frame
  read_frame-whole t found = ground arith

  read_frame-end :
      (n : ℕ)
      → look r.max_len r.buf ≡ missing n
      → (read_buf n r.inner).0 ≡ []
      → read_frame (suc reads) r ≡ (
        some (if length r.buf == 0 then ok none else err unexpected_eof),
        record r { inner = (read_buf n r.inner).1 },
      )
  unfolding read_frame
  read_frame-end n found nothing = ground arith

  read_frame-more :
      (n b : ℕ) (bs : Bytes)
      → look r.max_len r.buf ≡ missing n
      → (read_buf n r.inner).0 ≡ b ∷ bs
      → read_frame (suc reads) r
        ≡ read_frame reads (record r { inner = (read_buf n r.inner).1; buf = r.buf ++ b ∷ bs })
  unfolding read_frame
  read_frame-more n b bs found something = ground arith

observe_end :
    (r : FramedReader) (inner : Reader)
    → flatten inner ≡ []
    → observe (
      some (if length r.buf == 0 then ok none else err unexpected_eof),
      record r { inner = inner },
    )
      ≡ some (if length r.buf == 0 then ok (none, []) else err unexpected_eof)
observe_end r inner e = elim (List-cases r.buf) [
  | inl empty ↦ rw (empty, e)
  | inr (b, bs, full) ↦ rw full (ground arith)
]

-- Over any chunks, `read_frame` given enough reads answers with the first message of the bytes
-- that are left, or the end of the stream, or the error, and leaves exactly the bytes behind it.
pub read_frame-decode :
    (reads : ℕ) (r : FramedReader)
    → IsReader r
    → length (flatten r.inner) < reads
    → observe (read_frame reads r) ≡ some (decode r.max_len (unread r))
read_frame-decode zero r ready h = absurd (omega arith)
read_frame-decode (suc reads) r ready h =
    elim (meaning r.max_len r.buf (flatten r.inner) ready.partial) [
      | inl (e, found, said) ↦ rw (read_frame-refused reads r e found, said)
      | inr (inl (t, found, said)) ↦ rw (read_frame-whole reads r t found, said)
      | inr (inr (n, found, pos_n, at_end, keep)) ↦ elim (List-cases (read_buf n r.inner).0) [
        | inl nothing ↦
            let last = read_buf-eof n r.inner ready.live pos_n nothing in
            rw (read_frame-end reads r n found nothing, last, at_end)
              (observe_end r (read_buf n r.inner).1
                (rw (nothing, last) at (read_buf-append n r.inner)))
        | inr (b, bs, something) ↦
            let fewer = shorter r ready n (λ e. let e' = sym something ∙ e in cc) in
            rw (read_frame-more reads r n b bs found something, ← something)
              (read_frame-decode reads (after r ready n) (after-IsReader r ready n keep)
                  (omega arith)
                ∙ ap (λ t. some (decode r.max_len t)) (unread-after r ready n))
      ]
    ]

-- A call that is dropped after any number of reads loses nothing: the reader it leaves is a reader
-- of the same bytes.
pub read_frame_dropped :
    (reads : ℕ) (r : FramedReader)
    → IsReader r
    → (read_frame reads r).0 ≡ none
    → IsReader (read_frame reads r).1
      × (unread (read_frame reads r).1 ≡ unread r)
      × ((read_frame reads r).1.max_len ≡ r.max_len)
read_frame_dropped zero r ready = λ h. unfold read_frame in (ready, refl, refl)
read_frame_dropped (suc reads) r ready =
    elim (meaning r.max_len r.buf (flatten r.inner) ready.partial) [
      | inl (e, found, said) ↦ rw (read_frame-refused reads r e found) (λ h. cc)
      | inr (inl (t, found, said)) ↦ rw (read_frame-whole reads r t found) (λ h. cc)
      | inr (inr (n, found, pos_n, at_end, keep)) ↦ elim (List-cases (read_buf n r.inner).0) [
        | inl nothing ↦ rw (read_frame-end reads r n found nothing) (λ h. cc)
        | inr (b, bs, something) ↦
            rw (read_frame-more reads r n b bs found something, ← something)
              (λ h.
                let (ok_reader, same, cap) =
                  read_frame_dropped reads (after r ready n) (after-IsReader r ready n keep) h in
                (ok_reader, same ∙ unread-after r ready n, cap))
      ]
    ]

-- So a call after a dropped one answers as if the first had never been made.
pub read_frame_cancel_safe :
    (polled reads : ℕ) (r : FramedReader)
    → IsReader r
    → (read_frame polled r).0 ≡ none
    → length (flatten (read_frame polled r).1.inner) < reads
    → observe (read_frame reads (read_frame polled r).1) ≡ some (decode r.max_len (unread r))
read_frame_cancel_safe polled reads r ready dropped h =
    let (ready', same, cap) = read_frame_dropped polled r ready dropped in
    rw (read_frame-decode reads (read_frame polled r).1 ready' h, same, cap)
