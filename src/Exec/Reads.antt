-- ===== src/Exec/Reads.antt =====
-- Runs that take whole messages off the input, and nothing else.
use rama_pg.Bytes.{Bytes}
use rama_pg.Codec.{RawMessage, tag, max_message_len}
use rama_pg.Codec.Tag
use rama_pg.Scram.Fields.{expect_auth}
use rama_pg.Pool.{auth_subtype}
use rama_pg.Prelude.Int.{pos, eqb_ℤ}
use rama_pg.Codec.Frames.{receive, Received, Received-snoc}
use rama_pg.Exec.{Exec, and_then, Conn, write_all, read_message}
use rama_pg.Exec.Loop.{Outcome, and_then-Outcome, write-Outcome, read-Outcome}
use rama_pg.Prelude.{
  ℕ, ◌<◌, ◌^◌, All, All-append, arith, List, [], ◌∷◌, ◌++◌, Bool, true, false, if◌then◌else◌, ◌≡◌,
  refl, sym, ap, ◌∙◌, Result, ok, err,
}

-- An `Authentication` message that is not an `AuthenticationOk`.
abbrev pub IsChallenge : RawMessage → Type 0
IsChallenge m = (tag m ≡ Tag.authentication) × (eqb_ℤ (auth_subtype m) (pos 0) ≡ false)

-- What is left of these bytes is the input, behind challenges.
abbrev pub Reads : Bytes → Conn → Type 0
Reads input c = (ms : List RawMessage) × Received input ms c.input × All IsChallenge ms

abbrev pub Anything : Conn → Type 0
Anything c = Unit

-- A run, where it does not fail, has read whole messages.
abbrev pub Kept {ℓ} : {A : Type ℓ} → Bytes → Result A × Conn → Type 0
Kept input r = Outcome Anything (λ a c. Reads input c) r

pub and_then-Kept {ℓ κ} :
    {A : Type ℓ} {B : Type κ} (input : Bytes) (r : Result A × Conn) (f : A → Exec Conn B)
    → Kept input r
    → ((a : A) (c : Conn) → Reads input c → Kept input (f a c))
    → Kept input (and_then r f)
and_then-Kept input r f h k =
    and_then-Outcome Anything (λ a c. Reads input c) (λ b c. Reads input c) r f h k

pub if-Kept {ℓ} :
    {A : Type ℓ} (input : Bytes) (b : Bool) (t e : Exec Conn A) (c : Conn)
    → Kept input (t c)
    → Kept input (e c)
    → Kept input ((if b then t else e) c)
if-Kept input true t e c h k = h
if-Kept input false t e c h k = k

pub lift-Kept {ℓ} :
    {A : Type ℓ} (input : Bytes) (r : Result A) (c : Conn) → Reads input c → Kept input (r, c)
lift-Kept input (ok a) c h = h
lift-Kept input (err e) c h = tt

pub write-Kept : (input bs : Bytes) (c : Conn) → Reads input c → Kept input (write_all bs c)
write-Kept input bs c h = write-Outcome Anything (λ u c. Reads input c) bs c tt λ room. h

-- The first step of a run, by its kind.
pub lift_then-Kept {ℓ κ} :
    {A : Type ℓ} {B : Type κ} (input : Bytes) (r : Result A) (f : A → Exec Conn B) (c : Conn)
    → Reads input c
    → ((a : A) (c : Conn) → Reads input c → Kept input (f a c))
    → Kept input (and_then (r, c) f)
lift_then-Kept input r f c h k = and_then-Kept input (r, c) f (lift-Kept input r c h) k

pub write_then-Kept {ℓ} :
    {A : Type ℓ} (input bs : Bytes) (f : Unit {0} → Exec Conn A) (c : Conn)
    → Reads input c
    → ((u : Unit {0}) (c : Conn) → Reads input c → Kept input (f u c))
    → Kept input (and_then (write_all bs c) f)
write_then-Kept input bs f c h k =
    and_then-Kept input (write_all bs c) f (write-Kept input bs c h) k

expected-IsChallenge :
    (m : RawMessage) (subtype : ℕ)
    → 0 < subtype
    → subtype < 2 ^ 31
    → expect_auth m subtype ≡ ok tt
    → IsChallenge m
unfolding expect_auth auth_subtype
expected-IsChallenge m subtype above below e = ground arith

-- A message that must be an `Authentication` of this kind.
pub expect_then-Kept {ℓ} :
    {A : Type ℓ} (input : Bytes) (subtype : ℕ) (f : RawMessage → Exec Conn A) (c : Conn)
    → 0 < subtype
    → subtype < 2 ^ 31
    → Reads input c
    → ((m : RawMessage) (c : Conn) → Reads input c → Kept input (f m c))
    → Kept input (and_then (read_message c) λ m c. and_then (expect_auth m subtype, c) λ u. f m)
expect_then-Kept input subtype f c above below (ms, taken, all) k =
    and_then-Outcome Anything
      (λ m c'.
        (rest : Bytes) × (c' ≡ record c { input = rest })
        × (receive max_message_len c.input ≡ ok (m, rest)))
      (λ a c. Reads input c) (read_message c) _
      (read-Outcome Anything _ c tt (λ m rest e. (rest, refl, e)))
      λ m c' (rest, at, e). checked m c' rest (ap (λ c. c.input) at) e (expect_auth m subtype) refl
  where
    checked :
        (m : RawMessage) (c' : Conn) (rest : Bytes)
        → c'.input ≡ rest
        → receive max_message_len c.input ≡ ok (m, rest)
        → (x : Result (Unit {0})) → expect_auth m subtype ≡ x
        → Kept input (and_then (x, c') λ u. f m)
    checked m c' rest at e (err x) h = tt
    checked m c' rest at e (ok u) h = k m c' (
      ms ++ m ∷ [],
      Received-snoc input c.input c'.input ms m taken (e ∙ ap (λ l. ok (m, l)) (sym at)),
      All-append IsChallenge ms (m ∷ []) all (expected-IsChallenge m subtype above below h, tt),
    )
