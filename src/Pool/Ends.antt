-- ===== src/Pool/Ends.antt =====
-- What holds of every end of a wait.
use rama_pg.Exec.{write_all, write_room}
use rama_pg.Pool.{
  Event, Relay, put_client, put_backend, on_client, on_backend, Wait, waiting, ended, step, keep,
}
use rama_pg.Bytes.{Bytes}
use rama_pg.Prelude.{
  ℕ, zero, suc, List, ◌∷◌, ◌++◌, Bool, true, false, if◌then◌else◌, ◌≡◌, refl, Error, broken_pipe,
  Result, err,
}

-- A wait's result and the state it leaves.
abbrev pub Ends {ℓ κ} : {A : Type ℓ} → (A → List Event → Relay → Type κ) → Wait A → Type κ
Ends P (waiting r) = Unit
Ends P (ended a es r) = P a es r

pub if-Ends {ℓ κ} :
    {A : Type ℓ} (P : A → List Event → Relay → Type κ) (b : Bool) (t e : Wait A)
    → (b ≡ true → Ends P t)
    → (b ≡ false → Ends P e)
    → Ends P (if b then t else e)
if-Ends P true t e h k = h refl
if-Ends P false t e h k = k refl

pub Ends-map {ℓ κ μ} :
    {A : Type ℓ} (P : A → List Event → Relay → Type κ) (Q : A → List Event → Relay → Type μ)
    (w : Wait A)
    → ((a : A) (es : List Event) (r : Relay) → P a es r → Q a es r)
    → Ends P w
    → Ends Q w
Ends-map P Q (waiting r) f h = tt
Ends-map P Q (ended a es r) f h = f a es r h

pub keep-Ends {ℓ κ μ} :
    {A : Type ℓ} (P : A → List Event → Relay → Type κ) (Q : A → List Event → Relay → Type μ)
    (e : Event) (w : Wait A)
    → ((a : A) (es : List Event) (r : Relay) → P a es r → Q a (e ∷ es) r)
    → Ends P w
    → Ends Q (keep e w)
keep-Ends P Q e (waiting r) f h = tt
keep-Ends P Q e (ended a es r) f h = f a es r h

module _ {ℓ κ} {A : Type ℓ} (G : Wait (Result A) → Type κ) (bs : Bytes) (r : Relay)
    (es : List Event) (next : Relay → Wait (Result A)) where
  room_backend-step :
      (n : ℕ)
      → r.backend.room ≡ n
      → (r.backend.room ≡ 0 → G (ended (err broken_pipe) es r))
      → ((r' : Relay) → r'.backend.sent ≡ r.backend.sent ++ bs → r'.client ≡ r.client → G (next r'))
      → G (step (put_backend r (write_room n bs r.backend)) es next)
  room_backend-step zero full f h = f full
  room_backend-step (suc n) full f h = h _ refl refl

  -- A write to the backend fails, or what follows it knows what was sent.
  pub write_backend-step :
      (r.backend.room ≡ 0 → G (ended (err broken_pipe) es r))
      → ((r' : Relay) → r'.backend.sent ≡ r.backend.sent ++ bs → r'.client ≡ r.client → G (next r'))
      → G (step (on_backend (write_all bs) r) es next)
  write_backend-step f h = room_backend-step r.backend.room refl f h

  room_client-step :
      (n : ℕ)
      → r.client.room ≡ n
      → (r.client.room ≡ 0 → G (ended (err broken_pipe) es r))
      → ((r' : Relay) → r'.client.sent ≡ r.client.sent ++ bs → r'.backend ≡ r.backend → G (next r'))
      → G (step (put_client r (write_room n bs r.client)) es next)
  room_client-step zero full f h = f full
  room_client-step (suc n) full f h = h _ refl refl

  -- A write to the client fails, or what follows it knows what was sent.
  pub write_client-step :
      (r.client.room ≡ 0 → G (ended (err broken_pipe) es r))
      → ((r' : Relay) → r'.client.sent ≡ r.client.sent ++ bs → r'.backend ≡ r.backend → G (next r'))
      → G (step (on_client (write_all bs) r) es next)
  write_client-step f h = room_client-step r.client.room refl f h

-- Each branch of a test, with what the test found.
pub if-step {ℓ κ} :
    {A : Type ℓ} (G : A → Type κ) (b : Bool) (t e : A)
    → (b ≡ true → G t)
    → (b ≡ false → G e)
    → G (if b then t else e)
if-step G true t e h k = h refl
if-step G false t e h k = k refl

pub write_backend-Ends {ℓ κ} :
    {A : Type ℓ} (P : Result A → List Event → Relay → Type κ) (bs : Bytes) (r : Relay)
    (es : List Event) (next : Relay → Wait (Result A))
    → ((e : Error) → P (err e) es r)
    → ((r' : Relay)
        → r'.backend.sent ≡ r.backend.sent ++ bs
        → r'.client ≡ r.client
        → Ends P (next r'))
    → Ends P (step (on_backend (write_all bs) r) es next)
write_backend-Ends P bs r es next f h =
    write_backend-step (Ends P) bs r es next (λ full. f broken_pipe) h

pub write_client-Ends {ℓ κ} :
    {A : Type ℓ} (P : Result A → List Event → Relay → Type κ) (bs : Bytes) (r : Relay)
    (es : List Event) (next : Relay → Wait (Result A))
    → ((e : Error) → P (err e) es r)
    → ((r' : Relay)
        → r'.client.sent ≡ r.client.sent ++ bs
        → r'.backend ≡ r.backend
        → Ends P (next r'))
    → Ends P (step (on_client (write_all bs) r) es next)
write_client-Ends P bs r es next f h =
    write_client-step (Ends P) bs r es next (λ full. f broken_pipe) h
