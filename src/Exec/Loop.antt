-- ===== src/Exec/Loop.antt =====
-- Loops that read a message in every turn, on fuel, and what holds of every way in which they end.
use rama_pg.Bytes.{Bytes}
use rama_pg.Codec.{RawMessage, max_message_len}
use rama_pg.Codec.Frames.{receive, receive_sound}
use rama_pg.Exec.{
  Exec, ◌>>=◌, and_then, Conn, received, read_message, write_room, write_all, flush, ◌>>◌,
}
use rama_pg.Prelude.{
  ℕ, zero, suc, ◌<◌, ◌≤◌, ◌+◌, ◌++◌, length, length-append, append-nil, Option, none, some, Bool,
  true, false, if◌then◌else◌, ◌≡◌, refl, sym, ap, ◌∙◌, subst, [], Result, ok, err, arith,
}

-- How a turn ends: the loop goes on with this value, or it breaks with its result.
pub data Turn {ℓ κ} (B : Type ℓ) (R : Type κ) : Type (ℓ ⊔ κ) where
  again : B → Turn B R
  last : R → Turn B R

-- A run that may need more fuel than it has.
abbrev pub Run {ℓ κ} : Type ℓ → Type κ → Type (ℓ ⊔ κ)
Run S A = S → Option (Result A × S)

-- `?` between two runs.
abbrev pub run_then {ℓ κ ι} :
    {S : Type ℓ} {A : Type κ} {B : Type ι}
    → Option (Result A × S)
    → (A → Run S B)
    → Option (Result B × S)
run_then none f = none
run_then (some (ok a, s)) f = f a s
run_then (some (err e, s)) f = some (err e, s)

abbrev pub next_turn {ℓ κ} :
    {B : Type ℓ} {R : Type κ}
    → (B → Run Conn R)
    → Result (Turn B R) × Conn
    → Option (Result R × Conn)
next_turn next (err e, c) = some (err e, c)
next_turn next (ok (last r), c) = some (ok r, c)
next_turn next (ok (again b), c) = next b c

-- `loop { let msg = read_message(..).await?; .. }`
abbrev pub read_loop {ℓ κ} :
    {B : Type ℓ} {R : Type κ} → ℕ → (B → RawMessage → Exec Conn (Turn B R)) → B → Run Conn R
read_loop zero turn b c = none
read_loop (suc n) turn b c = next_turn (read_loop n turn) ((read_message >>= turn b) c)

-- The same with fuel for a turn per byte of the input and one more.
abbrev pub loop_messages {ℓ κ} :
    {B : Type ℓ} {R : Type κ} → (B → RawMessage → Exec Conn (Turn B R)) → B → Run Conn R
loop_messages turn b c = read_loop (suc (length c.input)) turn b c

-- `F` of the state where a run fails, `P` of the result and the state where it does not.
abbrev pub Outcome {ℓ κ} :
    {S : Type ℓ} {A : Type κ} → (S → Type 0) → (A → S → Type 0) → Result A × S → Type 0
Outcome F P (ok a, s) = P a s
Outcome F P (err e, s) = F s

-- The fuel was enough, and the outcome is as stated.
abbrev pub Finishes {ℓ κ} :
    {S : Type ℓ} {A : Type κ} → (S → Type 0) → (A → S → Type 0) → Option (Result A × S) → Type 0
Finishes F P none = ⊥
Finishes F P (some r) = Outcome F P r

pub and_then-Outcome {ℓ κ ι} :
    {S : Type ℓ} {A : Type κ} {B : Type ι} (F : S → Type 0) (P : A → S → Type 0)
    (Q : B → S → Type 0) (r : Result A × S) (f : A → Exec S B)
    → Outcome F P r
    → ((a : A) (s : S) → P a s → Outcome F Q (f a s))
    → Outcome F Q (and_then r f)
and_then-Outcome F P Q (ok a, s) f h k = k a s h
and_then-Outcome F P Q (err e, s) f h k = h

pub if-Outcome {ℓ κ} :
    {S : Type ℓ} {A : Type κ} (F : S → Type 0) (P : A → S → Type 0) (b : Bool) (t e : Exec S A)
    (s : S)
    → (b ≡ true → Outcome F P (t s))
    → (b ≡ false → Outcome F P (e s))
    → Outcome F P ((if b then t else e) s)
if-Outcome F P true t e s h k = h refl
if-Outcome F P false t e s h k = k refl

pub Outcome-map {ℓ κ} :
    {S : Type ℓ} {A : Type κ} (F : S → Type 0) (P Q : A → S → Type 0) (r : Result A × S)
    → ((a : A) (s : S) → P a s → Q a s)
    → Outcome F P r
    → Outcome F Q r
Outcome-map F P Q (ok a, s) f h = f a s h
Outcome-map F P Q (err e, s) f h = h

pub Outcome-both {ℓ κ} :
    {S : Type ℓ} {A : Type κ} (F G : S → Type 0) (P Q : A → S → Type 0) (r : Result A × S)
    → Outcome F P r
    → Outcome G Q r
    → Outcome (λ s. F s × G s) (λ a s. P a s × Q a s) r
Outcome-both F G P Q (ok a, s) h k = (h, k)
Outcome-both F G P Q (err e, s) h k = (h, k)

pub Finishes-map {ℓ κ} :
    {S : Type ℓ} {A : Type κ} (F : S → Type 0) (P Q : A → S → Type 0) (r : Option (Result A × S))
    → ((a : A) (s : S) → P a s → Q a s)
    → Finishes F P r
    → Finishes F Q r
Finishes-map F P Q none f h = h
Finishes-map F P Q (some r) f h = Outcome-map F P Q r f h

pub run_then-Finishes {ℓ κ ι} :
    {S : Type ℓ} {A : Type κ} {B : Type ι} (F : S → Type 0) (P : A → S → Type 0)
    (Q : B → S → Type 0) (r : Option (Result A × S)) (f : A → Run S B)
    → Finishes F P r
    → ((a : A) (s : S) → P a s → Finishes F Q (f a s))
    → Finishes F Q (run_then r f)
run_then-Finishes F P Q none f h k = elim h [ ]
run_then-Finishes F P Q (some (ok a, s)) f h k = k a s h
run_then-Finishes F P Q (some (err e, s)) f h k = h

room-Outcome :
    (F : Conn → Type 0) (P : Unit {0} → Conn → Type 0) (bs : Bytes) (c : Conn)
    → F c
    → ((room : ℕ) → P tt (record c { sent = c.sent ++ bs; room = room }))
    → (n : ℕ) → Outcome F P (write_room n bs c)
room-Outcome F P bs c f h zero = f
room-Outcome F P bs c f h (suc n) = h n

-- A write fails and sends nothing, or sends its bytes.
pub write-Outcome :
    (F : Conn → Type 0) (P : Unit {0} → Conn → Type 0) (bs : Bytes) (c : Conn)
    → F c
    → ((room : ℕ) → P tt (record c { sent = c.sent ++ bs; room = room }))
    → Outcome F P (write_all bs c)
write-Outcome F P bs c f h = room-Outcome F P bs c f h c.room

-- A write and its flush.
pub send-Outcome :
    (F : Conn → Type 0) (P : Unit {0} → Conn → Type 0) (bs : Bytes) (c : Conn)
    → F c
    → ((room : ℕ) → F (record c { sent = c.sent ++ bs; room = room }))
    → ((room : ℕ) → P tt (record c { sent = c.sent ++ bs; room = room }))
    → Outcome F P ((write_all bs >> flush) c)
send-Outcome F P bs c f g h =
    and_then-Outcome F (λ u c'. (room : ℕ) × (c' ≡ record c { sent = c.sent ++ bs; room = room })) P
      (write_all bs c) _ (write-Outcome F _ bs c f (λ room. (room, refl)))
      λ u c' (room, at).
        subst (λ c'. Outcome F P (flush c')) (sym at)
          (write-Outcome F P [] (record c { sent = c.sent ++ bs; room = room }) (g room)
            λ room'.
              subst (λ l. P tt (record c { sent = l; room = room' })) (sym (append-nil _))
                (h room'))

received-Outcome :
    (F : Conn → Type 0) (P : RawMessage → Conn → Type 0) (c : Conn)
    → F (record c { input = [] })
    → ((m : RawMessage) (rest : Bytes)
        → receive max_message_len c.input ≡ ok (m, rest)
        → P m (record c { input = rest }))
    → (x : Result (RawMessage × Bytes)) → receive max_message_len c.input ≡ x
    → Outcome F P (received x c)
received-Outcome F P c f h (err e) at = f
received-Outcome F P c f h (ok (m, rest)) at = h m rest at

-- A read fails, or takes a message off the input.
pub read-Outcome :
    (F : Conn → Type 0) (P : RawMessage → Conn → Type 0) (c : Conn)
    → F (record c { input = [] })
    → ((m : RawMessage) (rest : Bytes)
        → receive max_message_len c.input ≡ ok (m, rest)
        → P m (record c { input = rest }))
    → Outcome F P (read_message c)
read-Outcome F P c f h = received-Outcome F P c f h _ refl

-- What a turn does for the loop: a value for the next turn keeps the invariant and reads nothing
-- more.
abbrev pub Turned {ℓ κ} :
    {B : Type ℓ} {R : Type κ}
    → (B → Conn → Type 0)
    → (R → Conn → Type 0)
    → Bytes
    → Turn B R
    → Conn
    → Type 0
Turned I P rest (again b) c = I b c × (length c.input ≤ length rest)
Turned I P rest (last r) c = P r c

-- A message was taken off the input, of which fewer than `n` bytes are left.
abbrev Taken : ℕ → Conn → RawMessage → Conn → Type 0
Taken n c m c' =
    (rest : Bytes) × (c' ≡ record c { input = rest })
    × (receive max_message_len c.input ≡ ok (m, rest))
    × (length rest < n)

module _ {ℓ κ} {B : Type ℓ} {R : Type κ} (F : Conn → Type 0) (I : B → Conn → Type 0)
    (P : R → Conn → Type 0) (turn : B → RawMessage → Exec Conn (Turn B R))
    (gone : (b : B) (c : Conn) → I b c → F (record c { input = [] }))
    (takes : (b : B) (c : Conn) (m : RawMessage) (rest : Bytes)
      → I b c
      → receive max_message_len c.input ≡ ok (m, rest)
      → Outcome F (Turned I P rest) (turn b m (record c { input = rest }))) where
  next_turn-Finishes :
      (n : ℕ) (next : B → Run Conn R)
      → ((b : B) (c : Conn) → length c.input < n → I b c → Finishes F P (next b c))
      → (r : Result (Turn B R) × Conn)
      → Outcome F (λ t c. (rest : Bytes) × (length rest < n) × Turned I P rest t c) r
      → Finishes F P (next_turn next r)
  next_turn-Finishes n next safe (err e, c) h = h
  next_turn-Finishes n next safe (ok (last r), c) (rest, less, h) = h
  next_turn-Finishes n next safe (ok (again b), c) (rest, less, h) = safe b c (omega arith) h.0

  read_loop-Finishes :
      (n : ℕ) (b : B) (c : Conn) → length c.input < n → I b c → Finishes F P (read_loop n turn b c)
  read_loop-Finishes zero b c fuel h = absurd (omega arith)
  read_loop-Finishes (suc n) b c fuel h =
      next_turn-Finishes n (read_loop n turn) (read_loop-Finishes n) _ (
        and_then-Outcome F (Taken n c) _ (read_message c) _
          (read-Outcome F (Taken n c) c (gone b c h) (λ m rest e. (
            rest,
            refl,
            e,
            (let (framed, long, short) = receive_sound _ c.input e in
                let measured : length c.input ≡ length m.frame + length rest =
                  ap length (sym framed) ∙ length-append m.frame rest in
                omega arith),
          )))
          (λ m c' (rest, at, e, less).
            subst
              (λ c'.
                Outcome F (λ t c. (rest : Bytes) × (length rest < n) × Turned I P rest t c)
                  (turn b m c'))
              (sym at)
              (Outcome-map F (Turned I P rest) _ _ (λ t c h. (rest, less, h))
                (takes b c m rest h e))))

  -- The loop ends, and with what its turns keep.
  pub loop_messages-Finishes : (b : B) (c : Conn) → I b c → Finishes F P (loop_messages turn b c)
  loop_messages-Finishes b c h = read_loop-Finishes (suc (length c.input)) b c (omega arith) h
