-- ===== src/Codec/Frames.antt =====
-- What a stream of tagged frames says, read off its bytes at once: the reference that the readers
-- of src/protocol/codec.rs are compared with, and the frames that `frame` builds.
use rama_pg.Bytes.{Bytes, be32}
use rama_pg.Prelude.Int.{ℤ, pos}
use rama_pg.Prelude.{
  ℕ, suc, ◌+◌, ◌^◌, ◌%◌, ◌<◌, ◌≤◌, ◌≡◌, refl, sym, ap, ◌∙◌, List, append_assoc, [], ◌∷◌, ◌++◌,
  length, take, drop, Bool-cases, inl, inr, Option, none, some, ltb, ◌==◌, if◌then◌else◌,
  unexpected_eof, Result, ok, err, arith, take-append, drop-append, length-append, take-append-drop,
  subst, length-take,
}
use rama_pg.Codec.{MessageHeader, RawMessage, parse_header, body_len, frame, max_message_len}

abbrev after_header : Bytes → Result MessageHeader → Result (RawMessage × Bytes)
after_header bs (err e) = err e
after_header bs (ok h) =
    let total = 5 + body_len h in
    if ltb (length bs) total
    then err unexpected_eof
    else ok (record { frame = take total bs }, drop total bs)

-- The first message of a stream with these bytes, and what follows it.
unfoldable pub receive : ℤ → Bytes → Result (RawMessage × Bytes)
receive max_len bs =
    if ltb (length bs) 5
    then err unexpected_eof
    else after_header bs (parse_header (take 5 bs) max_len)

abbrev some_message : Result (RawMessage × Bytes) → Result (Option RawMessage × Bytes)
some_message (err e) = err e
some_message (ok (m, rest)) = ok (some m, rest)

-- The same where the stream may end before a message.
unfoldable pub decode : ℤ → Bytes → Result (Option RawMessage × Bytes)
decode max_len bs = if length bs == 0 then ok (none, []) else some_message (receive max_len bs)

-- The header of a frame with this tag and body length.
pub parse_header-be32 :
    (tag n m : ℕ)
    → n + 4 ≤ m
    → m < 2 ^ 31
    → parse_header (tag ∷ be32 (n + 4)) (pos m) ≡ ok (record { bytes = tag ∷ be32 (n + 4) })
unfolding parse_header
parse_header-be32 tag n m h b = ground arith

pub body_len-be32 :
    (tag n : ℕ) → n + 4 < 2 ^ 31 → body_len (record { bytes = tag ∷ be32 (n + 4) }) ≡ n
unfolding body_len
body_len-be32 tag n h = ground arith

-- A frame whose length fits the cap, written out.
frame-eq :
    (tag : ℕ) (body : Bytes) (m : ℕ)
    → length body + 4 ≤ m
    → m < 2 ^ 31
    → frame tag body ≡ tag ∷ (be32 (length body + 4) ++ body)
unfolding frame
frame-eq tag body m h b = let e : (length body + 4) % 2 ^ 32 ≡ length body + 4 = omega arith in rw e

-- What `frame` builds is received as it is, whatever follows it, under every cap it fits.
pub receive-frame :
    (tag : ℕ) (body rest : Bytes) (m : ℕ)
    → length body + 4 ≤ m
    → m < 2 ^ 31
    → receive (pos m) (frame tag body ++ rest) ≡ ok (record { frame = frame tag body }, rest)
unfolding receive
receive-frame tag body rest m h b = rw (frame-eq tag body m h b) (
    rw (parse_header-be32 tag (length body) m h b) (
      rw (body_len-be32 tag (length body) (omega arith)) (
        let five : 5 + length body ≡ suc (suc (suc (suc (suc (length body))))) = omega arith in
        rw five
          (ground (arith, length-append body rest, take-append body rest, drop-append body rest)))))

after_header_sound :
    (bs : Bytes) (r : Result MessageHeader) {m : RawMessage} {rest : Bytes}
    → after_header bs r ≡ ok (m, rest)
    → (h : MessageHeader) × (r ≡ ok h)
      × (m.frame ≡ take (5 + body_len h) bs)
      × (rest ≡ drop (5 + body_len h) bs)
      × (5 + body_len h ≤ length bs)
after_header_sound bs (err e) h = cc
after_header_sound bs (ok x) h = (x, refl, ground arith, ground arith, ground arith)

parse_header_sound :
    (bytes : Bytes) (max_len : ℕ) {h : MessageHeader}
    → parse_header bytes (pos max_len) ≡ ok h
    → (h.bytes ≡ bytes) × (body_len h + 4 ≤ max_len)
unfolding parse_header body_len
parse_header_sound bytes max_len e = ground arith

-- Whatever is received is a prefix of the stream, at least a header, and within the cap.
pub receive_sound :
    (max_len : ℕ) (bs : Bytes) {m : RawMessage} {rest : Bytes}
    → receive (pos max_len) bs ≡ ok (m, rest)
    → (m.frame ++ rest ≡ bs) × (5 ≤ length m.frame) × (length m.frame ≤ max_len + 1)
unfolding receive
receive_sound max_len bs e = elim (Bool-cases (ltb (length bs) 5)) [
  | inl short ↦ let e' = rw short at e in cc
  | inr long ↦
      let (h, parsed, framed, left, fits) = after_header_sound bs _ (rw long at e) in
      let (_, bounded) = parse_header_sound (take 5 bs) max_len parsed in
      rw (framed, left)
        (
          take-append-drop (5 + body_len h) bs,
          omega (arith, length-take (5 + body_len h) bs),
          omega (arith, length-take (5 + body_len h) bs),
        )
]

-- The bytes of messages in a row.
abbrev pub frames : List RawMessage → Bytes
frames [] = []
frames (m ∷ ms) = m.frame ++ frames ms

pub frames-snoc :
    (ms : List RawMessage) (m : RawMessage) (rest : Bytes)
    → frames (ms ++ m ∷ []) ++ rest ≡ frames ms ++ (m.frame ++ rest)
frames-snoc [] m rest = append_assoc m.frame [] rest
frames-snoc (x ∷ ms) m rest =
    append_assoc x.frame _ rest
    ∙ ap (λ l. x.frame ++ l) (frames-snoc ms m rest)
    ∙ sym (append_assoc x.frame (frames ms) _)

-- These messages are received one after another, and this is left.
abbrev pub Received : Bytes → List RawMessage → Bytes → Type 0
Received bs [] rest = bs ≡ rest
Received bs (m ∷ ms) rest =
    (behind : Bytes) × (receive max_message_len bs ≡ ok (m, behind)) × Received behind ms rest

pub Received-append :
    (a b c : Bytes) (ms ns : List RawMessage)
    → Received a ms b
    → Received b ns c
    → Received a (ms ++ ns) c
Received-append a b c [] ns h k = subst (λ x. Received x ns c) (sym h) k
Received-append a b c (m ∷ ms) ns (behind, here, h) k =
    (behind, here, Received-append behind b c ms ns h k)

pub Received-snoc :
    (a b c : Bytes) (ms : List RawMessage) (m : RawMessage)
    → Received a ms b
    → receive max_message_len b ≡ ok (m, c)
    → Received a (ms ++ m ∷ []) c
Received-snoc a b c ms m h e = Received-append a b c ms (m ∷ []) h (c, e, refl)

pub Received-shorter : (a b : Bytes) (ms : List RawMessage) → Received a ms b → length b ≤ length a
Received-shorter a b [] h = omega (arith, ap length h)
Received-shorter a b (m ∷ ms) (behind, here, h) =
    let (framed, long, short) = receive_sound _ a here in
    let measured : length a ≡ length m.frame + length behind =
      ap length (sym framed) ∙ length-append m.frame behind in
    omega (arith, Received-shorter behind b ms h)
