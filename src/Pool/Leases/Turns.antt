-- ===== src/Pool/Leases/Turns.antt =====
-- The replicas take turns.
use native.Mathlib.Nat.{suc-mod, mod-add-mod, mod_self, mod-eq_of_lt, mod-lt}
use rama_pg.Pool.{next_replica}
use rama_pg.Prelude.{
  ℕ, zero, suc, ◌+◌, ◌-◌, ◌%◌, ◌^◌, ◌<◌, ◌≤◌, ◌⊎◌, inl, inr, List, [], ◌∷◌, ◌++◌, length, take,
  drop, get_or, ltb, Bool-cases, ◌≡◌, refl, sym, ap, ◌∙◌, arith, take_all, length-drop,
}

module _ {ℓ} {A : Type ℓ} (default : A) (replicas : List A) where
  -- The replicas of so many calls in a row.
  unfoldable pub picks : ℕ → ℕ → List A
  unfolding next_replica
  picks zero next = []
  picks (suc n) next =
      let (replica, next') = next_replica default replicas next in replica ∷ picks n next'

drop-get_or {ℓ} :
    {A : Type ℓ} (d : A) (xs : List A) (r : ℕ)
    → r < length xs
    → drop r xs ≡ get_or xs r d ∷ drop (suc r) xs
drop-get_or d [] r h = absurd (omega arith)
drop-get_or d (x ∷ xs) zero h = refl
drop-get_or d (x ∷ xs) (suc r) h = drop-get_or d xs r (omega arith)

module _ {ℓ} {A : Type ℓ} (default : A) (replicas : List A) where
  -- The counter after one call, as a place in the list.
  next_place :
      (k : ℕ)
      → 0 < length replicas
      → (suc (k % length replicas) < length replicas
          × (suc k % length replicas ≡ suc (k % length replicas)))
        ⊎ ((suc (k % length replicas) ≡ length replicas) × (suc k % length replicas ≡ 0))
  next_place k h =
      let n = length replicas in
      let small : k % n < n = mod-lt k h in
      elim (Bool-cases (ltb (suc (k % n)) n)) [
        | inl less ↦ let l : suc (k % n) < n = ground arith in inl (l, suc-mod k n ∙ mod-eq_of_lt l)
        | inr full ↦
            let e : suc (k % n) ≡ n = ground arith in
            inr (e, suc-mod k n ∙ ap (λ x. x % n) e ∙ mod_self n)
      ]

  picks-suc :
      (j k : ℕ)
      → suc k < 2 ^ 64
      → picks default replicas (suc j) k
        ≡ get_or replicas (k % length replicas) default ∷ picks default replicas j (suc k)
  unfolding picks
  picks-suc j k b =
      let e : (k + 1) % 2 ^ 64 ≡ suc k = omega arith in
      ap (λ x. get_or replicas (k % length replicas) default ∷ picks default replicas j x) e

  -- Without coming to the end of the list.
  picks-drop :
      (j k : ℕ)
      → k % length replicas + j ≤ length replicas
      → 0 < length replicas
      → k + j < 2 ^ 64
      → picks default replicas j k ≡ take j (drop (k % length replicas) replicas)
  picks-drop zero k h p b = unfold picks in refl
  picks-drop (suc j) k h p b =
      let n = length replicas in
      let r = k % n in
      let here : drop r replicas ≡ get_or replicas r default ∷ drop (suc r) replicas =
        drop-get_or default replicas r (mod-lt k p) in
      let cut : take (suc j) (drop r replicas)
          ≡ get_or replicas r default ∷ take j (drop (suc r) replicas) =
        ap (take (suc j)) here in
      let rest : picks default replicas j (suc k) ≡ take j (drop (suc r) replicas) =
        elim (next_place k p) [
          | inl (less, e) ↦
              picks-drop j (suc k) (omega arith) p (omega arith)
              ∙ ap (λ x. take j (drop x replicas)) e
          | inr (full, e) ↦
              let none_left : j ≡ 0 = omega arith in rw none_left (unfold picks in refl)
        ] in
      picks-suc j k (omega arith) ∙ ap (◌∷◌ (get_or replicas r default)) rest ∙ sym cut

  picks-add :
      (i j k : ℕ)
      → k + (i + j) < 2 ^ 64
      → picks default replicas (i + j) k
        ≡ picks default replicas i k ++ picks default replicas j (k + i)
  picks-add zero j k b =
      let e : 0 + j ≡ j = omega arith in
      let e' : k + 0 ≡ k = omega arith in rw (e, e') (unfold picks in refl)
  picks-add (suc i) j k b =
      let e : suc i + j ≡ suc (i + j) = omega arith in
      let e' : suc k + i ≡ k + suc i = omega arith in
      rw e (
        picks-suc (i + j) k (omega arith)
        ∙ ap (◌∷◌ (get_or replicas (k % length replicas) default))
            (picks-add i j (suc k) (omega arith) ∙ rw e' refl)
        ∙ sym (ap (λ l. l ++ picks default replicas j (k + suc i)) (picks-suc i k (omega arith))))

  -- Before the counter wraps, as many leases in a row as there are replicas take each place of the
  -- list once, from the counter's place to the end and then from the start.
  pub picks_cycle :
      (k : ℕ)
      → 0 < length replicas
      → k + length replicas < 2 ^ 64
      → picks default replicas (length replicas) k
        ≡ drop (k % length replicas) replicas ++ take (k % length replicas) replicas
  picks_cycle k p b =
      let n = length replicas in
      let r = k % n in
      let small : r < n = mod-lt k p in
      let split : n - r + r ≡ n = omega arith in
      let start : (k + (n - r)) % n ≡ 0 =
        sym (mod-add-mod k n (n - r)) ∙ ap (λ x. x % n) (omega arith) ∙ mod_self n in
      let front : picks default replicas (n - r) k ≡ drop r replicas =
        picks-drop (n - r) k (omega arith) p (omega arith)
        ∙ ap (λ x. take x (drop r replicas)) (sym (length-drop r replicas))
        ∙ take_all (drop r replicas) in
      let back : picks default replicas r (k + (n - r)) ≡ take r replicas =
        picks-drop r (k + (n - r)) (omega (arith, start, small)) p (omega arith)
        ∙ ap (λ x. take r (drop x replicas)) start in
      ap (λ x. picks default replicas x k) (sym split)
      ∙ picks-add (n - r) r k (omega arith)
      ∙ ap (λ l. l ++ picks default replicas r (k + (n - r))) front
      ∙ ap (λ l. drop r replicas ++ l) back
