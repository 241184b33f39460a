-- ===== src/Cancel/Sessions.antt =====
-- What a cancel request reaches, however the sessions interleave.
use rama_pg.Bytes.{Bytes, eqb}
use rama_pg.Bytes.Map.{
  lookup, insert, remove, lookup-insert, lookup-insert_other, lookup-remove, lookup-remove_other,
}
use rama_pg.Bytes.Search.{eqb_refl, eqb_sound}
use rama_pg.Cancel.{
  CancelHandle, Registry, set_slot, begin, begin_disabled, set, clear, drop_handle, cancel, key_len,
  deregister, target_of,
}
use rama_pg.Prelude.{
  ℕ, suc, ◌<◌, List, [], ◌∷◌, ◌++◌, length, Option, none, some, true, false, ◌≡◌, refl, sym, ap,
  ◌∙◌, subst, arith, Bool-cases, inl, inr, ◌⊎◌,
}
use rama_pg.Startup.{ProtocolVersion, CancelKey}
use rama_pg.Cancel.Slots.{
  get-set_slot, get-set_slot_other, length-set_slot, get-append_one, get-append_new,
  length-append_one,
}

some-injective : {a b : ℕ} → some a ≡ some b → a ≡ b
some-injective {a} h = ap (λ o. elim o [ none ↦ a | some x ↦ x ]) h

-- An entry of a map after an insert is the new one or an old one.
insert-entry :
    (k key : Bytes) (a s : ℕ) (m : List (Bytes × ℕ))
    → lookup key (insert k a m) ≡ some s
    → ((k ≡ key) × (a ≡ s)) ⊎ (lookup key m ≡ some s)
insert-entry k key a s m h = elim (Bool-cases (eqb k key)) [
  | inl e ↦
      let same : k ≡ key = eqb_sound k key e in
      inl (
        same,
        some-injective (sym (lookup-insert k a m) ∙ ap (λ x. lookup x (insert k a m)) same ∙ h),
      )
  | inr e ↦ inr (sym (lookup-insert_other k key a m e) ∙ h)
]

remove-entry :
    (k key : Bytes) (s : ℕ) (m : List (Bytes × ℕ))
    → lookup key (remove k m) ≡ some s
    → lookup key m ≡ some s
remove-entry k key s m h = elim (Bool-cases (eqb k key)) [
  | inl e ↦
      let gone : none ≡ some s =
        sym (lookup-remove k m) ∙ ap (λ x. lookup x (remove k m)) (eqb_sound k key e) ∙ h in
      cc
  | inr e ↦ sym (lookup-remove_other k key m e) ∙ h
]

abbrev pub key_of : Bytes → CancelKey
key_of bs = record { bytes = bs }

-- The operations on the registry, by any session in any order.
pub data Operation {ℓ} (Target : Type ℓ) : Type ℓ where
  begun : (ℕ → Bytes) → ProtocolVersion → Operation Target
  begun_disabled : Operation Target
  set_to : CancelHandle → Target → Operation Target
  cleared : CancelHandle → Operation Target
  dropped : CancelHandle → Operation Target

module _ {ℓ} {Target : Type ℓ} where
  -- Every key has a slot of the store, and no two keys have the same one.
  abbrev pub IsRegistry : Registry Target → Type 0
  IsRegistry reg =
      (key : Bytes) (slot : ℕ)
      → lookup key reg.sessions ≡ some slot
      → (slot < length reg.slots)
        × ((other : Bytes) → lookup other reg.sessions ≡ some slot → eqb key other ≡ true)

  -- The handle is that of the session that the key was given to.
  abbrev pub Owns : Registry Target → Bytes → CancelHandle → Type 0
  Owns reg key h = (lookup key reg.sessions ≡ some h.slot) × (h.on_drop ≡ some key)

  begin-IsRegistry :
      (fill : ℕ → Bytes) (version : ProtocolVersion) (reg : Registry Target)
      → IsRegistry reg
      → IsRegistry (begin fill version reg).1
  unfolding begin
  begin-IsRegistry fill version reg is key slot h =
      let n = length reg.slots in
      let grown : length (reg.slots ++ none ∷ []) ≡ suc n = length-append_one none reg.slots in
      elim (insert-entry (fill (key_len version)) key n slot reg.sessions h) [
        | inl (new, at) ↦ (
          ground (arith, grown),
          λ other h'. elim (insert-entry (fill (key_len version)) other n slot reg.sessions h') [
            | inl (new', at') ↦
                subst (λ x. eqb x other ≡ true) (sym (sym new ∙ new')) (eqb_refl other)
            | inr old ↦ let (bound, unique) = is other slot old in ground arith
          ],
        )
        | inr old ↦
            let (bound, unique) = is key slot old in
            (
              ground (arith, grown),
              λ other h'.
                  elim (insert-entry (fill (key_len version)) other n slot reg.sessions h') [
                    | inl (new', at') ↦ ground arith
                    | inr old' ↦ unique other old'
                  ],
            )
      ]

  abbrev pub apply : Operation Target → Registry Target → Registry Target
  apply (begun fill version) reg = (begin fill version reg).1
  apply begun_disabled reg = (begin_disabled reg).1
  apply (set_to h t) reg = set h t reg
  apply (cleared h) reg = clear h reg
  apply (dropped h) reg = drop_handle h reg

  abbrev pub run : List (Operation Target) → Registry Target → Registry Target
  run [] reg = reg
  run (op ∷ ops) reg = run ops (apply op reg)

  slots-IsRegistry :
      (reg : Registry Target) (slots : List (Option Target)) (n : ℕ)
      → length slots ≡ n
      → length reg.slots < suc n
      → IsRegistry reg
      → IsRegistry (record reg { slots = slots })
  slots-IsRegistry reg slots n h h' is key slot e =
      let (bound, unique) = is key slot e in (ground (arith, h), unique)

  drop-IsRegistry :
      (on_drop : Option Bytes) (reg : Registry Target)
      → IsRegistry reg
      → IsRegistry (deregister on_drop reg)
  drop-IsRegistry none reg is key slot e = is key slot e
  drop-IsRegistry (some k) reg is key slot e =
      let (bound, unique) = is key slot (remove-entry k key slot reg.sessions e) in
      (bound, λ other e'. unique other (remove-entry k other slot reg.sessions e'))

  apply-IsRegistry :
      (op : Operation Target) (reg : Registry Target) → IsRegistry reg → IsRegistry (apply op reg)
  unfolding begin_disabled set clear drop_handle
  apply-IsRegistry (begun fill version) reg is = begin-IsRegistry fill version reg is
  apply-IsRegistry begun_disabled reg is =
      slots-IsRegistry reg _ _ (length-append_one none reg.slots) (ground arith) is
  apply-IsRegistry (set_to h t) reg is =
      slots-IsRegistry reg _ _ (length-set_slot h.slot (some t) reg.slots) (ground arith) is
  apply-IsRegistry (cleared h) reg is =
      slots-IsRegistry reg _ _ (length-set_slot h.slot none reg.slots) (ground arith) is
  apply-IsRegistry (dropped h) reg is = drop-IsRegistry h.on_drop reg is

  -- Whatever sessions do, in any order, from the empty registry on, each registered key leads to a
  -- slot of the store that no other key leads to.
  pub run-IsRegistry :
      (ops : List (Operation Target)) (reg : Registry Target)
      → IsRegistry reg
      → IsRegistry (run ops reg)
  run-IsRegistry [] reg is = is
  run-IsRegistry (op ∷ ops) reg is = run-IsRegistry ops (apply op reg) (apply-IsRegistry op reg is)

  unaffected :
      (slot : ℕ) (x : Option Target) (slots : List (Option Target)) (s : Option ℕ)
      → ¬ s ≡ some slot
      → target_of s (set_slot slot x slots) ≡ target_of s slots
  unaffected slot x slots none n = refl
  unaffected slot x slots (some i) n =
      get-set_slot_other slot i x none slots λ e. n (ap some (sym e))

  kept :
      (slots : List (Option Target)) (s : Option ℕ)
      → ((i : ℕ) → s ≡ some i → i < length slots)
      → target_of s (slots ++ none ∷ []) ≡ target_of s slots
  kept slots none h = refl
  kept slots (some i) h = get-append_one none none slots i (h i refl)

  -- What `slots` with one slot overwritten gives to a session: the new target to its owner, and the
  -- old one to every other.
  overwritten :
      (reg : Registry Target)
      → IsRegistry reg
      → (key : Bytes) (h : CancelHandle) → Owns reg key h
      → (x : Option Target)
      → (target_of (lookup key reg.sessions) (set_slot h.slot x reg.slots) ≡ x)
        × ((other : Bytes)
            → eqb key other ≡ false
            → target_of (lookup other reg.sessions) (set_slot h.slot x reg.slots)
              ≡ target_of (lookup other reg.sessions) reg.slots)
  overwritten reg is key h (found, drops) x =
      let (bound, unique) = is key h.slot found in
      (
        ap (λ s. target_of s (set_slot h.slot x reg.slots)) found
            ∙ get-set_slot h.slot x none reg.slots bound,
        λ other differ.
            unaffected h.slot x reg.slots (lookup other reg.sessions)
              (λ same. let clash : eqb key other ≡ true = unique other same in cc),
      )

  -- The owner of a key sets, clears and ends what a cancel request with it reaches, and with no
  -- other key.
  pub cancel-Owns :
      (reg : Registry Target)
      → IsRegistry reg
      → (key : Bytes) (h : CancelHandle) → Owns reg key h
      → (t : Target)
      → (cancel (key_of key) (set h t reg) ≡ some t)
        × (cancel (key_of key) (clear h reg) ≡ none)
        × (cancel (key_of key) (drop_handle h reg) ≡ none)
        × ((other : Bytes)
            → eqb key other ≡ false
            → (cancel (key_of other) (set h t reg) ≡ cancel (key_of other) reg)
              × (cancel (key_of other) (clear h reg) ≡ cancel (key_of other) reg)
              × (cancel (key_of other) (drop_handle h reg) ≡ cancel (key_of other) reg))
  unfolding cancel set clear drop_handle
  cancel-Owns reg is key h own t =
      let (set_own, set_other) = overwritten reg is key h own (some t) in
      let (clear_own, clear_other) = overwritten reg is key h own none in
      let drops = own.1 in
      (
        set_own,
        clear_own,
        rw (drops, lookup-remove key reg.sessions),
        λ other differ. (
          set_other other differ,
          clear_other other differ,
          rw (drops, lookup-remove_other key other reg.sessions differ),
        ),
      )

  -- A new session owns its key, which reaches nothing yet; a session with another key keeps its
  -- target and its handle.
  pub begin-Owns :
      (fill : ℕ → Bytes) (version : ProtocolVersion) (reg : Registry Target)
      → IsRegistry reg
      → Owns (begin fill version reg).1 (fill (key_len version)) (begin fill version reg).0.1
        × (cancel (key_of (fill (key_len version))) (begin fill version reg).1 ≡ none)
        × ((other : Bytes)
            → eqb (fill (key_len version)) other ≡ false
            → (cancel (key_of other) (begin fill version reg).1 ≡ cancel (key_of other) reg)
              × ((h : CancelHandle) → Owns reg other h → Owns (begin fill version reg).1 other h))
  unfolding begin cancel
  begin-Owns fill version reg is =
      let key = fill (key_len version) in
      let n = length reg.slots in
      let found : lookup key (insert key n reg.sessions) ≡ some n =
        lookup-insert key n reg.sessions in
      (
        (found, refl),
        ap (λ s. target_of s (reg.slots ++ none ∷ [])) found ∙ get-append_new none none reg.slots,
        λ other differ.
            let same : lookup other (insert key n reg.sessions) ≡ lookup other reg.sessions =
              lookup-insert_other key other n reg.sessions differ in
            (
              ap (λ s. target_of s (reg.slots ++ none ∷ [])) same
                  ∙ kept reg.slots (lookup other reg.sessions) (λ i e. (is other i e).0),
              λ h (own, drops). (same ∙ own, drops),
            ),
      )
