-- ===== src/Cancel/Slots.antt =====
-- A store of slots: one of them overwritten, or a new one at its end.
use rama_pg.Cancel.{set_slot}
use rama_pg.Prelude.{ℕ, zero, suc, ◌<◌, List, [], ◌∷◌, ◌++◌, length, get_or, ◌≡◌, refl, ap, arith}

module _ {ℓ} {A : Type ℓ} where
  pub get-set_slot : (i : ℕ) (a d : A) (l : List A) → i < length l → get_or (set_slot i a l) i d ≡ a
  get-set_slot i a d [] h = ground arith
  get-set_slot zero a d (x ∷ l) h = refl
  get-set_slot (suc i) a d (x ∷ l) h =
      let shorter : i < length l = ground arith in get-set_slot i a d l shorter

  pub get-set_slot_other :
      (i j : ℕ) (a d : A) (l : List A) → ¬ i ≡ j → get_or (set_slot i a l) j d ≡ get_or l j d
  get-set_slot_other i j a d [] h = refl
  get-set_slot_other zero zero a d (x ∷ l) h = elim (h refl) [ ]
  get-set_slot_other zero (suc j) a d (x ∷ l) h = refl
  get-set_slot_other (suc i) zero a d (x ∷ l) h = refl
  get-set_slot_other (suc i) (suc j) a d (x ∷ l) h = get-set_slot_other i j a d l λ e. h (ap suc e)

  pub length-set_slot : (i : ℕ) (a : A) (l : List A) → length (set_slot i a l) ≡ length l
  length-set_slot i a [] = refl
  length-set_slot zero a (x ∷ l) = refl
  length-set_slot (suc i) a (x ∷ l) = ap suc (length-set_slot i a l)

  pub get-append_one :
      (d a : A) (l : List A) (i : ℕ) → i < length l → get_or (l ++ a ∷ []) i d ≡ get_or l i d
  get-append_one d a [] i h = ground arith
  get-append_one d a (x ∷ l) zero h = refl
  get-append_one d a (x ∷ l) (suc i) h =
      let shorter : i < length l = ground arith in get-append_one d a l i shorter

  pub get-append_new : (d a : A) (l : List A) → get_or (l ++ a ∷ []) (length l) d ≡ a
  get-append_new d a [] = refl
  get-append_new d a (x ∷ l) = get-append_new d a l

  pub length-append_one : (a : A) (l : List A) → length (l ++ a ∷ []) ≡ suc (length l)
  length-append_one a [] = refl
  length-append_one a (x ∷ l) = ap suc (length-append_one a l)
