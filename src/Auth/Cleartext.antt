-- ===== src/Auth/Cleartext.antt =====
-- Whom cleartext authentication lets in.
use rama_pg.Auth.{
  AuthContext, ClientAuth, terminated, trust, password_bytes, cleartext_answer,
  cleartext_authenticate,
}
use rama_pg.Bytes.{Bytes}
use rama_pg.Codec.{RawMessage, tag, payload, max_auth_message_len}
use rama_pg.Codec.Frames.{receive}
use rama_pg.Message.{authentication_cleartext_password}
use rama_pg.Codec.Tag
use rama_pg.Exec.{Conn, and_then, write_all, write_room, flush, received, read_message_capped}
use rama_pg.Exec.Ensures.{Leaves, and_then-Leaves, if-Leaves}
use rama_pg.Prelude.{
  ℕ, zero, suc, [], ◌++◌, append-nil, sym, ap, ◌∙◌, Bool, true, false, not, ◌==◌, ◌≡◌, refl, Result,
  ok, err, arith, ==-sound,
}

-- The first message that the client sent is a password message, the validator accepted the password
-- in it, and what follows it is still to be read. Only the request for a password was sent.
abbrev pub Accepted :
    (AuthContext → Bytes → Result Bool) → AuthContext → Conn → ClientAuth → Conn → Type 0
Accepted validate ctx c auth c' =
    (auth ≡ terminated trust)
    × (c'.sent ≡ c.sent ++ authentication_cleartext_password)
    × ((m : RawMessage) × (receive max_auth_message_len c.input ≡ ok (m, c'.input))
        × (tag m ≡ Tag.password_message)
        × (validate ctx (password_bytes (payload m)) ≡ ok true))

any {ℓ κ} : {S : Type ℓ} {A : Type κ} (r : Result A × S) → Leaves (λ a s. Unit {0}) r
any (ok a, s) = tt
any (err e, s) = tt

-- What was asked before the answer is read.
abbrev Asked {ℓ} : {A : Type ℓ} → Conn → A → Conn → Type 0
Asked c a c' = (c'.sent ≡ c.sent ++ authentication_cleartext_password) × (c'.input ≡ c.input)

room-Asked :
    (c : Conn) (n : ℕ) → Leaves (Asked c) (write_room n authentication_cleartext_password c)
room-Asked c zero = tt
room-Asked c (suc n) = (refl, refl)

flush-Asked : (c c1 : Conn) → Asked c (tt {0}) c1 → (n : ℕ) → Leaves (Asked c) (write_room n [] c1)
flush-Asked c c1 h zero = tt
flush-Asked c c1 (sent, input) (suc n) = (append-nil _ ∙ sent, input)

-- The message that is read, and what is left behind it.
read-Asked :
    (c c1 : Conn)
    → Asked c (tt {0}) c1
    → (x : Result (RawMessage × Bytes)) → receive max_auth_message_len c1.input ≡ x
    → Leaves
        (λ m c'.
          (c'.sent ≡ c.sent ++ authentication_cleartext_password)
          × (receive max_auth_message_len c.input ≡ ok (m, c'.input)))
        (received x c1)
read-Asked c c1 (sent, input) (ok (m, rest)) e =
    (sent, ap (receive max_auth_message_len) (sym input) ∙ e)
read-Asked c c1 h (err x) e = tt

module _ (validate : AuthContext → Bytes → Result Bool) (ctx : AuthContext) (c : Conn) where
  abbrev Read : RawMessage → Conn → Type 0
  Read m c' =
      (c'.sent ≡ c.sent ++ authentication_cleartext_password)
      × (receive max_auth_message_len c.input ≡ ok (m, c'.input))

  answer-Accepted :
      (m : RawMessage)
      → tag m ≡ Tag.password_message
      → (valid : Bool) → validate ctx (password_bytes (payload m)) ≡ ok valid
      → (c1 : Conn) → Read m c1
      → Leaves (Accepted validate ctx c) (cleartext_answer valid c1)
  answer-Accepted m password true e c1 (sent, got) = (refl, sent, (m, got, password, e))
  answer-Accepted m password false e c1 h =
      and_then-Leaves (λ u s. Unit {0}) _ (write_all _ c1) _ (any _)
        λ u s h. and_then-Leaves (λ u s. Unit {0}) _ (flush s) _ (any _) λ v s' h'. tt

  validated :
      (m : RawMessage)
      → tag m ≡ Tag.password_message
      → (x : Result Bool) → validate ctx (password_bytes (payload m)) ≡ x
      → (c1 : Conn) → Read m c1
      → Leaves (Accepted validate ctx c) (and_then (x, c1) cleartext_answer)
  validated m password (ok valid) e c1 h = answer-Accepted m password valid e c1 h
  validated m password (err x) e c1 h = tt

  -- Cleartext authentication succeeds only where the first message that the client sent is a
  -- password message whose password the validator accepts. It has then sent the request for a
  -- password and nothing else, and read that message and nothing else; the backend is reached
  -- without credentials.
  pub cleartext_authenticate-Accepted :
      Leaves (Accepted validate ctx c) (cleartext_authenticate validate ctx c)
  unfolding cleartext_authenticate
  cleartext_authenticate-Accepted =
      and_then-Leaves (Asked c) _ (write_all _ c) _ (room-Asked c c.room) λ u s h.
        and_then-Leaves (Asked c) _ (flush s) _ (flush-Asked c s h s.room) λ v s2 h2.
          and_then-Leaves Read _ (read_message_capped _ s2) _
            (read-Asked c s2 h2 (receive max_auth_message_len s2.input) refl)
            λ m s3 h3.
              if-Leaves _ (not (tag m == Tag.password_message)) _ _ s3 (λ other. tt)
                (λ same.
                  let is : tag m == Tag.password_message ≡ true = ground arith in
                  validated m (==-sound is) (validate ctx (password_bytes (payload m))) refl s3 h3)
