-- ===== src/Bytes/Map.antt =====
-- A `HashMap` whose keys are bytes, as a list of its entries.
use rama_pg.Bytes.{Bytes, eqb}
use rama_pg.Bytes.Search.{eqb_refl, eqb_sound}
use rama_pg.Prelude.{
  List, [], ◌∷◌, Option, none, some, false, if◌then◌else◌, ◌≡◌, refl, sym, subst, Bool-cases, inl,
  inr,
}

module _ {ℓ} {A : Type ℓ} where
  abbrev pub lookup : Bytes → List (Bytes × A) → Option A
  lookup k [] = none
  lookup k ((k', a) ∷ m) = if eqb k' k then some a else lookup k m

  -- `insert` overwrites the entry of an equal key.
  abbrev pub insert : Bytes → A → List (Bytes × A) → List (Bytes × A)
  insert k a [] = (k, a) ∷ []
  insert k a ((k', a') ∷ m) =
      let rest = insert k a m in if eqb k' k then (k', a) ∷ m else (k', a') ∷ rest

  abbrev pub remove : Bytes → List (Bytes × A) → List (Bytes × A)
  remove k [] = []
  remove k ((k', a) ∷ m) = let rest = remove k m in if eqb k' k then rest else (k', a) ∷ rest

  pub lookup-insert : (k : Bytes) (a : A) (m : List (Bytes × A)) → lookup k (insert k a m) ≡ some a
  lookup-insert k a [] = rw (eqb_refl k)
  lookup-insert k a ((k', a') ∷ m) = elim (Bool-cases (eqb k' k)) [
    | inl e ↦ rw (e, e)
    | inr e ↦ rw (e, e, lookup-insert k a m)
  ]

  pub lookup-insert_other :
      (k j : Bytes) (a : A) (m : List (Bytes × A))
      → eqb k j ≡ false
      → lookup j (insert k a m) ≡ lookup j m
  lookup-insert_other k j a [] h = rw h
  lookup-insert_other k j a ((k', a') ∷ m) h = elim (Bool-cases (eqb k' k)) [
    | inl e ↦
        let other : eqb k' j ≡ false = subst (λ x. eqb x j ≡ false) (sym (eqb_sound k' k e)) h in
        rw (e, other)
    | inr e ↦ rw (e, lookup-insert_other k j a m h)
  ]

  pub lookup-remove : (k : Bytes) (m : List (Bytes × A)) → lookup k (remove k m) ≡ none
  lookup-remove k [] = refl
  lookup-remove k ((k', a) ∷ m) = elim (Bool-cases (eqb k' k)) [
    | inl e ↦ rw (e, lookup-remove k m)
    | inr e ↦ rw (e, e, lookup-remove k m)
  ]

  pub lookup-remove_other :
      (k j : Bytes) (m : List (Bytes × A)) → eqb k j ≡ false → lookup j (remove k m) ≡ lookup j m
  lookup-remove_other k j [] h = refl
  lookup-remove_other k j ((k', a) ∷ m) h = elim (Bool-cases (eqb k' k)) [
    | inl e ↦
        let other : eqb k' j ≡ false = subst (λ x. eqb x j ≡ false) (sym (eqb_sound k' k e)) h in
        rw (e, other, lookup-remove_other k j m h)
    | inr e ↦ rw (e, lookup-remove_other k j m h)
  ]
