-- ===== src/Exec/Ensures.antt =====
-- What holds of every result that a run returns.
use rama_pg.Exec.{Exec, and_then}
use rama_pg.Prelude.{Result, ok, err, Bool, true, false, ◌≡◌, refl, if◌then◌else◌}

abbrev pub Ensures {ℓ κ ι} : {S : Type ℓ} {A : Type κ} → (A → Type ι) → Result A × S → Type ι
Ensures P (ok a, s) = P a
Ensures P (err e, s) = Unit

-- The result of the last step is the result of the run.
pub and_then-Ensures {ℓ κ ι μ} :
    {S : Type ℓ} {A : Type κ} {B : Type ι} (P : B → Type μ) (r : Result A × S) (f : A → Exec S B)
    → ((a : A) (s : S) → Ensures P (f a s))
    → Ensures P (and_then r f)
and_then-Ensures P (ok a, s) f h = h a s
and_then-Ensures P (err e, s) f h = tt

-- Each branch of a test, with what the test found.
pub if-Ensures {ℓ κ ι} :
    {S : Type ℓ} {A : Type κ} (P : A → Type ι) (b : Bool) (t e : Exec S A) (s : S)
    → (b ≡ true → Ensures P (t s))
    → (b ≡ false → Ensures P (e s))
    → Ensures P ((if b then t else e) s)
if-Ensures P true t e s h k = h refl
if-Ensures P false t e s h k = k refl

-- What holds of the result and the state of a run that does not fail.
abbrev pub Leaves {ℓ κ ι} : {S : Type ℓ} {A : Type κ} → (A → S → Type ι) → Result A × S → Type ι
Leaves P (ok a, s) = P a s
Leaves P (err e, s) = Unit

pub and_then-Leaves {ℓ κ ι μ ν} :
    {S : Type ℓ} {A : Type κ} {B : Type ι} (P : A → S → Type μ) (Q : B → S → Type ν)
    (r : Result A × S) (f : A → Exec S B)
    → Leaves P r
    → ((a : A) (s : S) → P a s → Leaves Q (f a s))
    → Leaves Q (and_then r f)
and_then-Leaves P Q (ok a, s) f h k = k a s h
and_then-Leaves P Q (err e, s) f h k = tt

pub if-Leaves {ℓ κ ι} :
    {S : Type ℓ} {A : Type κ} (P : A → S → Type ι) (b : Bool) (t e : Exec S A) (s : S)
    → (b ≡ true → Leaves P (t s))
    → (b ≡ false → Leaves P (e s))
    → Leaves P ((if b then t else e) s)
if-Leaves P true t e s h k = h refl
if-Leaves P false t e s h k = k refl

pub Leaves-map {ℓ κ ι μ} :
    {S : Type ℓ} {A : Type κ} (P : A → S → Type ι) (Q : A → S → Type μ) (r : Result A × S)
    → ((a : A) (s : S) → P a s → Q a s)
    → Leaves P r
    → Leaves Q r
Leaves-map P Q (ok a, s) f h = f a s h
Leaves-map P Q (err e, s) f h = tt

pub result-Leaves {ℓ κ} :
    {S : Type ℓ} {A : Type κ} (r : Result A × S) → Leaves (λ a s. r ≡ (ok a, s)) r
result-Leaves (ok a, s) = refl
result-Leaves (err e, s) = tt
