-- ===== src/Bytes/Search.antt =====
-- Slice and string searches of the standard library, on byte strings. On well-formed UTF-8 a search
-- for ASCII bytes finds characters.
use rama_pg.Bytes.{Bytes, eqb}
use rama_pg.Prelude.{
  ℕ, ◌≡◌, ◌≢◌, refl, List, [], ◌∷◌, ◌++◌, Option, none, some, Bool, true, false, ◌==◌,
  if◌then◌else◌, All, arith,
}

-- `position(|&b| b == at)` with the two sides of the place: `b[..i]` and `b[i + 1..]`.
-- `split_once(at)` for an ASCII `at`.
unfoldable pub split_once : ℕ → Bytes → Option (Bytes × Bytes)
split_once at [] = none
split_once at (b ∷ bs) =
    if b == at
    then some ([], bs)
    else elim (split_once at bs) [ none ↦ none | some (l, r) ↦ some (b ∷ l, r) ]

-- `s.strip_prefix(p)`
unfoldable pub strip_prefix : Bytes → Bytes → Option Bytes
strip_prefix [] s = some s
strip_prefix (p ∷ ps) [] = none
strip_prefix (p ∷ ps) (c ∷ s) = if p == c then strip_prefix ps s else none

abbrev is_some {ℓ} : {A : Type ℓ} → Option A → Bool
is_some none = false
is_some (some a) = true

-- `s.starts_with(p)`
unfoldable pub starts_with : Bytes → Bytes → Bool
unfolding strip_prefix
starts_with p s = is_some (strip_prefix p s)

abbrev onto_first : ℕ → List Bytes → List Bytes
onto_first b [] = (b ∷ []) ∷ []
onto_first b (f ∷ fs) = (b ∷ f) ∷ fs

-- `s.split(at)`: one field more than there are separators.
unfoldable pub split : ℕ → Bytes → List Bytes
split at [] = [] ∷ []
split at (b ∷ bs) = if b == at then [] ∷ split at bs else onto_first b (split at bs)

-- No byte of `bs` is `at`.
abbrev pub Free : ℕ → Bytes → Type 0
Free at = All λ b. b ≢ at

pub split_once-append :
    (at : ℕ) (l r : Bytes) → Free at l → split_once at (l ++ at ∷ r) ≡ some (l, r)
unfolding split_once
split_once-append at [] r h = ground arith
split_once-append at (b ∷ l) r h = ground (arith, h, split_once-append at l r h.1)

pub split_once-none : (at : ℕ) (l : Bytes) → Free at l → split_once at l ≡ none
unfolding split_once
split_once-none at [] h = refl
split_once-none at (b ∷ l) h = ground (arith, h, split_once-none at l h.1)

pub strip_prefix-append : (p s : Bytes) → strip_prefix p (p ++ s) ≡ some s
unfolding strip_prefix
strip_prefix-append [] s = refl
strip_prefix-append (c ∷ p) s = ground (arith, strip_prefix-append p s)

pub split-Free : (at : ℕ) (l : Bytes) → Free at l → split at l ≡ l ∷ []
unfolding split
split-Free at [] h = refl
split-Free at (b ∷ l) h = ground (arith, h, split-Free at l h.1)

pub split-append : (at : ℕ) (l r : Bytes) → Free at l → split at (l ++ at ∷ r) ≡ l ∷ split at r
unfolding split
split-append at [] r h = ground arith
split-append at (b ∷ l) r h = ground (arith, h, split-append at l r h.1)

pub eqb_refl : (a : Bytes) → eqb a a ≡ true
eqb_refl [] = refl
eqb_refl (x ∷ a) = ground (arith, eqb_refl a)

pub eqb_sound : (a b : Bytes) → eqb a b ≡ true → a ≡ b
eqb_sound [] [] h = refl
eqb_sound [] (y ∷ b) h = cc
eqb_sound (x ∷ a) [] h = cc
eqb_sound (x ∷ a) (y ∷ b) h = ground (arith, eqb_sound a b)

abbrev rfind_here : Bytes → ℕ → Bytes → Option Bytes → Option (Bytes × Bytes)
rfind_here pat c s none = none
rfind_here pat c s (some after) = some ([], after)

abbrev rfind_or : ℕ → Option (Bytes × Bytes) → Option (Bytes × Bytes) → Option (Bytes × Bytes)
rfind_or c (some (l, r)) here = some (c ∷ l, r)
rfind_or c none here = here

-- `s.rfind(pat)` with the two sides of the last place: `s[..i]` and `s[i + pat.len()..]`.
unfoldable pub rsplit_once : Bytes → Bytes → Option (Bytes × Bytes)
rsplit_once pat [] = none
rsplit_once pat (c ∷ s) =
    rfind_or c (rsplit_once pat s) (rfind_here pat c s (strip_prefix pat (c ∷ s)))

-- `s.split(',').find_map(|f| f.strip_prefix(prefix))`
unfoldable pub find_field : Bytes → List Bytes → Option Bytes
find_field prefix [] = none
find_field prefix (f ∷ fs) = elim (strip_prefix prefix f) [
  | some v ↦ some v
  | none ↦ find_field prefix fs
]
