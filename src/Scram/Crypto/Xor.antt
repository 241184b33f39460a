-- ===== src/Scram/Crypto/Xor.antt =====
-- Exclusive or undoes itself on bytes, so that the server recovers the key behind an honest proof.
use rama_pg.Bytes.{Bytes, IsBytes}
use rama_pg.Scram.Crypto.{xor_bytes, recover_client_key, client_proof}
use rama_pg.Prelude.{
  ℕ, zero, suc, ◌<◌, ◌≤◌, [], ◌∷◌, length, bit_xor, ltb, Bool, true, false, ◌&&◌, ◌==◌, ==-sound,
  ◌≡◌, refl, sym, ap, subst, arith, Bool-cases, inl, inr,
}

-- A test of every number below a bound.
abbrev below : ℕ → (ℕ → Bool) → Bool
below zero test = true
below (suc n) test = test n && below n test

both-true : (a b : Bool) → a && b ≡ true → (a ≡ true) × (b ≡ true)
both-true true true h = (refl, refl)
both-true true false h = cc
both-true false true h = cc
both-true false false h = cc

below_sound : (n : ℕ) (test : ℕ → Bool) → below n test ≡ true → (a : ℕ) → a < n → test a ≡ true
below_sound zero test h a less = ground arith
below_sound (suc n) test h a less =
    let (here, rest) = both-true (test n) (below n test) h in
    elim (Bool-cases (a == n)) [
      | inl e ↦ subst (λ x. test x ≡ true) (sym (==-sound e)) here
      | inr e ↦ let smaller : a < n = ground arith in below_sound n test rest a smaller
    ]

undone : ℕ → ℕ → Bool
undone a b = bit_xor (bit_xor a b) b == a

all_undone : below 256 (λ a. below 256 (undone a)) ≡ true
unfolding undone
all_undone = refl

undone_byte : (a b : ℕ) → a < 256 → b < 256 → bit_xor (bit_xor a b) b ≡ a
undone_byte a b ha hb =
    let test : undone a b ≡ true =
      below_sound 256 (undone a) (below_sound 256 (λ a. below 256 (undone a)) all_undone a ha) b
        hb in
    ==-sound (unfold undone in test)

-- From the proof that a client builds of its key and signature, the server recovers the key with
-- the same signature, at least as long as the key.
pub recover_client_key-client_proof :
    (key signature : Bytes)
    → IsBytes key
    → IsBytes signature
    → length key ≤ length signature
    → recover_client_key (client_proof key signature) signature ≡ key
unfolding recover_client_key client_proof xor_bytes
recover_client_key-client_proof [] [] hk hs le = refl
recover_client_key-client_proof [] (b ∷ bs) hk hs le = refl
recover_client_key-client_proof (a ∷ as') [] hk hs le = ground arith
recover_client_key-client_proof (a ∷ as') (b ∷ bs) (ha, hk) (hb, hs) le =
    let shorter : length as' ≤ length bs = ground arith in
    rw (undone_byte a b ha hb)
      (ap (λ l. a ∷ l) (recover_client_key-client_proof as' bs hk hs shorter))

small : ℕ → ℕ → Bool
small a b = ltb (bit_xor a b) 256

all_small : below 256 (λ a. below 256 (small a)) ≡ true
unfolding small
all_small = refl

bit_xor-lt : (a b : ℕ) → a < 256 → b < 256 → bit_xor a b < 256
bit_xor-lt a b ha hb =
    let test : small a b ≡ true =
      below_sound 256 (small a) (below_sound 256 (λ a. below 256 (small a)) all_small a ha) b hb in
    let test' : ltb (bit_xor a b) 256 ≡ true = unfold small in test in ground arith

-- A proof has the bytes of a key.
pub client_proof-IsBytes :
    (key signature : Bytes) → IsBytes key → IsBytes signature → IsBytes (client_proof key signature)
unfolding client_proof xor_bytes
client_proof-IsBytes [] [] hk hs = tt
client_proof-IsBytes [] (b ∷ bs) hk hs = tt
client_proof-IsBytes (a ∷ as') [] hk hs = tt
client_proof-IsBytes (a ∷ as') (b ∷ bs) (ha, hk) (hb, hs) =
    (bit_xor-lt a b ha hb, client_proof-IsBytes as' bs hk hs)

pub length-client_proof :
    (key signature : Bytes)
    → length key ≡ length signature
    → length (client_proof key signature) ≡ length key
unfolding client_proof xor_bytes
length-client_proof [] [] h = refl
length-client_proof [] (b ∷ bs) h = refl
length-client_proof (a ∷ as') [] h = absurd (omega arith)
length-client_proof (a ∷ as') (b ∷ bs) h = ap suc (length-client_proof as' bs (omega arith))
