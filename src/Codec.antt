-- ===== src/Codec.antt =====
-- src/protocol/codec.rs: tagged frames, their headers, and the readers of one message.
pub mod Tag
pub mod Frames
pub mod Receive
pub mod Framed
pub mod Copy
use rama_pg.Bytes.{Bytes, be32, i32_at}
use rama_pg.Prelude.Int.{ℤ, pos, negsuc, leb_ℤ}
use rama_pg.Stream.{Reader, read_buf, read_exact, Sink, write_all}
use rama_pg.Prelude.{
  ℕ, zero, suc, ◌+◌, ◌-◌, ◌*◌, ◌^◌, ◌%◌, min, List, [], ◌∷◌, ◌++◌, length, take, drop, get_or,
  Option, none, some, Bool, true, false, ◌&&◌, not, ltb, ◌==◌, if◌then◌else◌, Error, invalid_data,
  unexpected_eof, invalid_input, Result, ok, err, ◌>>=◌,
}

-- `MAX_MESSAGE_LEN` and `MAX_AUTH_MESSAGE_LEN`
abbrev pub max_message_len : ℤ
max_message_len = pos (2 ^ 30)

abbrev pub max_auth_message_len : ℤ
max_auth_message_len = pos (2 ^ 16)

-- The five bytes `tag | length`.
pub record MessageHeader : Type 0 where
  pub bytes : Bytes

pub record RawMessage : Type 0 where
  pub frame : Bytes

-- `(4..=max_len).contains(&len)`
unfoldable pub parse_header : Bytes → ℤ → Result MessageHeader
parse_header bytes max_len =
    let len = i32_at (drop 1 bytes) in
    if not (leb_ℤ (pos 4) len && leb_ℤ len max_len)
    then err invalid_data
    else ok (record { bytes = bytes })

abbrev pub header_tag : MessageHeader → ℕ
header_tag h = get_or h.bytes 0 0

-- `(len - 4) as usize`: a negative difference would wrap at the 64 bits of a `usize`.
abbrev pub body_len_of : ℤ → ℕ
body_len_of (pos n) = if ltb n 4 then 2 ^ 64 + n - 4 else n - 4
body_len_of (negsuc n) = 2 ^ 64 - 5 - n

unfoldable pub body_len : MessageHeader → ℕ
body_len h = body_len_of (i32_at (drop 1 h.bytes))

abbrev pub tag : RawMessage → ℕ
tag m = get_or m.frame 0 0

abbrev pub payload : RawMessage → Bytes
payload m = drop 5 m.frame

unfoldable pub frame : ℕ → Bytes → Bytes
frame tag body = tag ∷ (be32 ((length body + 4) % 2 ^ 32) ++ body)

-- `read_header`
unfoldable pub read_header : ℤ → Reader → Result MessageHeader × Reader
read_header max_len r =
    let (bytes, r') = read_exact 5 [] r in (bytes >>= λ b. parse_header b max_len, r')

-- The body loop of `read_message_capped`. Each read brings a byte or ends the loop, so a fuel above
-- the bytes missing is enough; `none` would mean that the fuel ran out.
unfoldable pub read_body : ℕ → ℕ → Bytes → Reader → Option (Result RawMessage) × Reader
read_body zero total buf r = (none, r)
read_body (suc fuel) total buf r =
    let (got, r') = read_buf (total - length buf) r in
    let rest = read_body fuel total (buf ++ got) r' in
    if not (ltb (length buf) total)
    then (some (ok (record { frame = buf })), r)
    else if length got == 0
    then (some (err unexpected_eof), r')
    else rest

abbrev pub after_read_header : Result MessageHeader × Reader → Option (Result RawMessage) × Reader
after_read_header (err e, r) = (some (err e), r)
after_read_header (ok h, r) = read_body (suc (body_len h)) (5 + body_len h) h.bytes r

unfoldable pub read_message_capped : ℤ → Reader → Option (Result RawMessage) × Reader
read_message_capped max_len r = after_read_header (read_header max_len r)

abbrev pub read_message : Reader → Option (Result RawMessage) × Reader
read_message = read_message_capped max_message_len

abbrev write_chunk : Result Bytes → Sink → Result (Unit {0}) × Sink
write_chunk (ok bytes) s = write_all bytes s
write_chunk (err e) s = (err e, s)

abbrev after {ℓ} :
    {S : Type ℓ}
    → Result (Unit {0})
    → Option (Result (Unit {0})) × S
    → S
    → Option (Result (Unit {0})) × S
after (ok _) rest s = rest
after (err e) rest s = (some (err e), s)

-- The loop of `copy_body_to`, over the bytes remaining. Each round copies at least one byte.
unfoldable pub copy_loop : ℕ → ℕ → ℕ → Reader → Sink → Option (Result (Unit {0})) × (Reader × Sink)
copy_loop zero scratch remaining r s = (none, (r, s))
copy_loop (suc fuel) scratch remaining r s =
    let chunk = min remaining scratch in
    let (read, r') = read_exact chunk [] r in
    let (wrote, s') = write_chunk read s in
    let rest = copy_loop fuel scratch (remaining - chunk) r' s' in
    if remaining == 0 then (some (ok tt), (r, s)) else after wrote rest (r', s')

-- `MessageHeader::copy_body_to` with a scratch buffer of this length.
unfoldable pub copy_body_to :
    MessageHeader → ℕ → Reader → Sink → Option (Result (Unit {0})) × (Reader × Sink)
copy_body_to h scratch r s =
    let remaining = body_len h in
    let copied = copy_loop (suc remaining) scratch remaining r s in
    if not (remaining == 0) && scratch == 0 then (some (err invalid_input), (r, s)) else copied

-- `FramedReader`: the transport, the bytes of an unfinished frame, and the cap.
pub record FramedReader : Type 0 where
  pub inner : Reader
  pub buf : Bytes
  pub max_len : ℤ

abbrev pub with_max_len : Reader → ℤ → FramedReader
with_max_len inner max_len = record { inner = inner; buf = []; max_len = max_len }

abbrev pub new : Reader → FramedReader
new inner = with_max_len inner max_message_len

-- What the head of the loop of `read_frame` finds in the buffer.
pub data Step : Type 0 where
  refused : Error → Step
  whole : ℕ → Step
  missing : ℕ → Step

abbrev pub after_header : ℕ → Result MessageHeader → Step
after_header have (err e) = refused e
after_header have (ok h) =
    let total = 5 + body_len h in if have == total then whole total else missing (total - have)

unfoldable pub look : ℤ → Bytes → Step
look max_len buf =
    if ltb (length buf) 5
    then missing (5 - length buf)
    else after_header (length buf) (parse_header (take 5 buf) max_len)

-- `read_frame`, polled until it is ready or until this many reads have been made: `none` means
-- that the caller dropped the future at an `await`, and only the reader's own state stays.
unfoldable pub read_frame : ℕ → FramedReader → Option (Result (Option RawMessage)) × FramedReader
read_frame zero r = (none, r)
read_frame (suc reads) r = elim (look r.max_len r.buf) [
  | refused e ↦ (some (err e), r)
  | whole total ↦
      (some (ok (some (record { frame = take total r.buf }))), record r { buf = drop total r.buf })
  | missing n ↦
      let (got, inner) = read_buf n r.inner in
      elim got [
        | [] ↦ (
          some (if length r.buf == 0 then ok none else err unexpected_eof),
          record r { inner = inner },
        )
        | b ∷ bs ↦ read_frame reads (record r { inner = inner; buf = r.buf ++ b ∷ bs })
      ]
]
