-- ===== src/Stream.antt =====
-- The two directions of a transport, as the code of src/protocol and src/proxy uses tokio's
-- `AsyncRead` and `AsyncWrite`.
pub mod Read
use rama_pg.Bytes.{Bytes}
use rama_pg.Prelude.{
  ℕ, zero, suc, ◌-◌, List, [], ◌∷◌, ◌++◌, length, take, drop, leb, ◌==◌, if◌then◌else◌,
  unexpected_eof, broken_pipe, Result, ok, err,
}

-- The chunks that the reads of a transport return, in order: each read gives what has arrived,
-- cut at the caller's limit. No chunk is empty, and an empty list is the end of the stream.
abbrev pub Reader : Type 0
Reader = List Bytes

-- What is left of a chunk after a read; a used-up chunk is gone.
abbrev pub put_back : Bytes → Reader → Reader
put_back [] r = r
put_back (b ∷ bs) r = (b ∷ bs) ∷ r

-- `(&mut reader).take(limit).read_buf(buf)`: the bytes that one read appends to `buf`.
abbrev pub read_buf : ℕ → Reader → Bytes × Reader
read_buf limit [] = ([], [])
read_buf limit (c ∷ r) = (take limit c, put_back (drop limit c) r)

-- `read_exact` of `n` bytes: it reads until they are there, and fails at the end of the stream.
unfoldable pub read_exact : ℕ → Bytes → Reader → Result Bytes × Reader
read_exact n acc [] = if n == 0 then (ok acc, []) else (err unexpected_eof, [])
read_exact n acc (c ∷ r) =
    if leb n (length c)
    then (ok (acc ++ take n c), put_back (drop n c) r)
    else read_exact (n - length c) (acc ++ c) r

-- A writer: the bytes that went out, and how many more writes or flushes the peer lets through
-- before it is gone.
pub record Sink : Type 0 where
  pub sent : Bytes
  pub room : ℕ

abbrev write_room : ℕ → Bytes → Sink → Result (Unit {0}) × Sink
write_room zero bs s = (err broken_pipe, s)
write_room (suc n) bs s = (ok tt, record { sent = s.sent ++ bs; room = n })

unfoldable pub write_all : Bytes → Sink → Result (Unit {0}) × Sink
write_all bs s = write_room s.room bs s
