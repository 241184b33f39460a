-- ===== src/Exec.antt =====
-- Code that talks to a peer: state passing with errors that keep the state.
pub mod Ensures
pub mod Loop
pub mod Reads
use rama_pg.Bytes.{Bytes}
use rama_pg.Codec.{RawMessage, max_message_len}
use rama_pg.Codec.Frames.{receive}
use rama_pg.Prelude.Int.{ℤ}
use rama_pg.Prelude.{ℕ, zero, suc, List, [], ◌∷◌, ◌++◌, Error, broken_pipe, Result, ok, err}

abbrev pub Exec {ℓ κ} : Type ℓ → Type κ → Type (ℓ ⊔ κ)
Exec S A = S → Result A × S

-- `?` between two awaits: the first error ends the run, in the state that it found.
abbrev pub and_then {ℓ κ ι} :
    {S : Type ℓ} {A : Type κ} {B : Type ι} → Result A × S → (A → Exec S B) → Result B × S
and_then (ok a, s) f = f a s
and_then (err e, s) f = (err e, s)

infixl 5 ◌>>=◌ ◌>>◌
abbrev pub ◌>>=◌ {ℓ κ ι} :
    {S : Type ℓ} {A : Type κ} {B : Type ι} → Exec S A → (A → Exec S B) → Exec S B
◌>>=◌ m f s = and_then (m s) f

abbrev pub ◌>>◌ {ℓ ι} : {S : Type ℓ} {B : Type ι} → Exec S (Unit {0}) → Exec S B → Exec S B
m >> k = m >>= λ _. k

abbrev pub done {ℓ κ} : {S : Type ℓ} {A : Type κ} → A → Exec S A
done a s = (ok a, s)

abbrev pub fail {ℓ κ} : {S : Type ℓ} {A : Type κ} → Error → Exec S A
fail e s = (err e, s)

-- A step with no input or output.
abbrev pub lift {ℓ κ} : {S : Type ℓ} {A : Type κ} → Result A → Exec S A
lift r s = (r, s)

-- A connection: the bytes that the peer will send before it closes, those sent to it, and how many
-- more writes and flushes succeed before it is gone.
pub record Conn : Type 0 where
  pub input : Bytes
  pub sent : Bytes
  pub room : ℕ

abbrev pub write_room : ℕ → Bytes → Conn → Result (Unit {0}) × Conn
write_room zero bs c = (err broken_pipe, c)
write_room (suc n) bs c = (ok tt, record c { sent = c.sent ++ bs; room = n })

abbrev pub write_all : Bytes → Exec Conn (Unit {0})
write_all bs c = write_room c.room bs c

-- A flush sends nothing new, and can fail as a write can.
abbrev pub flush : Exec Conn (Unit {0})
flush = write_all []

abbrev pub received : Result (RawMessage × Bytes) → Conn → Result RawMessage × Conn
received (ok (m, rest)) c = (ok m, record c { input = rest })
received (err e) c = (err e, record c { input = [] })

-- `read_message_capped`, by the bytes of the stream (see `Codec.Receive`). After a failed read the
-- callers drop the connection, so nothing is kept of its input.
abbrev pub read_message_capped : ℤ → Exec Conn RawMessage
read_message_capped max_len c = received (receive max_len c.input) c

abbrev pub read_message : Exec Conn RawMessage
read_message = read_message_capped max_message_len
