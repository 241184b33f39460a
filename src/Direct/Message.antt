-- ===== src/Direct/Message.antt =====
-- What one message of a backend's startup sends to the client.
use rama_pg.Bytes.{Bytes}
use rama_pg.Codec.{RawMessage, tag, payload}
use rama_pg.Codec.Tag
use rama_pg.Direct.{
  Direct, put_relay, to_client, flush_client, to_backend, from_client, one_response, authentication,
  key_data, auth_subtype, startup_message,
}
use rama_pg.Exec.{◌>>◌, and_then, write_room, flush, received}
use rama_pg.Exec.Ensures.{Leaves, and_then-Leaves, if-Leaves}
use rama_pg.Message.{backend_key_data_raw}
use rama_pg.Pool.{put_client, put_backend}
use rama_pg.Prelude.Int.{ℤ, pos, eqb_ℤ}
use rama_pg.Prelude.{
  ℕ, zero, suc, [], ◌++◌, append-nil, append_assoc, Option, none, some, Bool, true, false, ◌==◌,
  ==-sound, if◌then◌else◌, ◌≡◌, ◌≢◌, refl, sym, ap, ◌∙◌, Error, Result, ok, err, arith, subst,
}
use rama_pg.Startup.{CancelKey}

-- What the client is sent for a message of the backend: the key is the proxy's, where it has one.
abbrev pub shown : Option CancelKey → RawMessage → Bytes
shown none m = m.frame
shown (some key) m =
    if tag m == Tag.backend_key_data then backend_key_data_raw key.bytes else m.frame

-- From `d` on the client was sent `bs`, and nothing was read from the backend.
abbrev pub Sees : Direct → Bytes → Unit {0} → Direct → Type 0
Sees d bs u d' =
    (d'.relay.client.sent ≡ d.relay.client.sent ++ bs)
    × (d'.relay.backend.input ≡ d.relay.backend.input)

client_room-Sees :
    (d0 : Direct) (a bs : Bytes) (d : Direct)
    → Sees d0 a tt d
    → (n : ℕ)
    → Leaves (Sees d0 (a ++ bs)) (put_relay d (put_client d.relay (write_room n bs d.relay.client)))
client_room-Sees d0 a bs d h zero = tt
client_room-Sees d0 a bs d (sent, input) (suc n) =
    (ap (λ l. l ++ bs) sent ∙ append_assoc d0.relay.client.sent a bs, input)

to_client-Sees : (d : Direct) (bs : Bytes) → Leaves (Sees d bs) (to_client bs d)
to_client-Sees d bs = client_room-Sees d [] bs d (sym (append-nil _), refl) d.relay.client.room

flush_client-Sees :
    (d0 : Direct) (a : Bytes) (d : Direct) → Sees d0 a tt d → Leaves (Sees d0 a) (flush_client d)
flush_client-Sees d0 a d h =
    subst (λ b. Leaves (Sees d0 b) (flush_client d)) (append-nil a)
      (client_room-Sees d0 a [] d h d.relay.client.room)

backend_room-Sees :
    (d0 : Direct) (a bs : Bytes) (d : Direct)
    → Sees d0 a tt d
    → (n : ℕ)
    → Leaves (Sees d0 a) (put_relay d (put_backend d.relay (write_room n bs d.relay.backend)))
backend_room-Sees d0 a bs d h zero = tt
backend_room-Sees d0 a bs d h (suc n) = h

-- The flush after a write to the backend.
backend_flush-Sees :
    (d0 : Direct) (a bs : Bytes) (d : Direct)
    → Sees d0 a tt d
    → (n : ℕ)
    → Leaves (Sees d0 a) (
        put_relay d (put_backend d.relay (and_then (write_room n bs d.relay.backend) (λ u. flush))))
backend_flush-Sees d0 a bs d h zero = tt
backend_flush-Sees d0 a bs d h (suc zero) = tt
backend_flush-Sees d0 a bs d h (suc (suc n)) = h

to_backend-Sees :
    (d0 : Direct) (a bs : Bytes) (d : Direct)
    → Sees d0 a tt d
    → Leaves (Sees d0 a) (to_backend bs d)
to_backend-Sees d0 a bs d h = backend_flush-Sees d0 a bs d h d.relay.backend.room

client_received-Sees :
    (d0 : Direct) (a : Bytes) (d : Direct)
    → Sees d0 a tt d
    → (x : Result (RawMessage × Bytes))
    → Leaves (λ m. Sees d0 a tt) (put_relay d (put_client d.relay (received x d.relay.client)))
client_received-Sees d0 a d h (ok (m, rest)) = h
client_received-Sees d0 a d h (err e) = tt

one_response-Sees :
    (d0 : Direct) (a : Bytes) (last : Bool) (d : Direct)
    → Sees d0 a tt d
    → Leaves (Sees d0 a) (one_response last d)
one_response-Sees d0 a true d h = h
one_response-Sees d0 a false d h =
    and_then-Leaves (λ m. Sees d0 a tt) (Sees d0 a) (from_client d) _
      (client_received-Sees d0 a d h _) λ m d1 h1. to_backend-Sees d0 a m.frame d1 h1

authentication-Sees :
    (interactive : Bool) (m : RawMessage) (subtype : ℤ) (d : Direct)
    → Leaves (Sees d m.frame) (authentication interactive m subtype d)
authentication-Sees interactive m subtype d =
    if-Leaves _ (eqb_ℤ subtype (pos 0)) _ _ d (λ e. to_client-Sees d m.frame)
      (λ e.
        if-Leaves _ interactive _ _ d
          (λ e'.
            and_then-Leaves (Sees d m.frame) _ _ _
              (and_then-Leaves (Sees d m.frame) (Sees d m.frame) (to_client m.frame d) _
                (to_client-Sees d m.frame) (λ u d1 h1. flush_client-Sees d m.frame d1 h1))
              (λ u d1 h1. one_response-Sees d m.frame (eqb_ℤ subtype (pos 12)) d1 h1))
          (λ e'. tt))

abbrev pub LastIs : RawMessage → Bool → Type 0
LastIs m true = tag m ≡ Tag.ready_for_query
LastIs m false = (tag m ≢ Tag.ready_for_query) × (tag m ≢ Tag.error_response)

-- The outcome of one message.
abbrev pub Passed : Direct → Bytes → RawMessage → Bool → Direct → Type 0
Passed d bs m last d' = Sees d bs tt d' × LastIs m last

shown_frame :
    (key : Option CancelKey) (m : RawMessage)
    → tag m == Tag.backend_key_data ≡ false
    → shown key m ≡ m.frame
shown_frame none m h = refl
shown_frame (some key) m h = rw h

shown_key :
    (key : CancelKey) (m : RawMessage)
    → tag m == Tag.backend_key_data ≡ true
    → shown (some key) m ≡ backend_key_data_raw key.bytes
shown_key key m h = rw h

done-Passed :
    (d : Direct) (bs : Bytes) (m : RawMessage) (last : Bool) (r : Result (Unit {0}) × Direct)
    → LastIs m last
    → Leaves (Sees d bs) r
    → Leaves (Passed d bs m) (and_then r λ u d'. (ok last, d'))
done-Passed d bs m last (ok u, d') is h = (h, is)
done-Passed d bs m last (err e, d') is h = tt

key_data-Sees :
    (key : Option CancelKey) (m : RawMessage) (d : Direct)
    → tag m == Tag.backend_key_data ≡ true
    → Leaves (Sees d (shown key m)) (key_data key m d)
key_data-Sees none m d h = to_client-Sees d m.frame
key_data-Sees (some key) m d h =
    subst (λ bs. Leaves (Sees d bs) (key_data (some key) m d)) (sym (shown_key key m h))
      (to_client-Sees (record d { recorded = some (record { bytes = payload m }) })
        (backend_key_data_raw key.bytes))

same : (d : Direct) (r : Result ℤ) → Leaves (λ subtype d'. d' ≡ d) (r, d)
same d (ok x) = refl
same d (err e) = tt

failed :
    (d : Direct) (bs : Bytes) (m : RawMessage) (e : Error) (r : Result (Unit {0}) × Direct)
    → Leaves (Passed d bs m) (and_then r λ u d'. (err e, d'))
failed d bs m e (ok u, d') = tt
failed d bs m e (err e', d') = tt

pub startup_message-Passed :
    (key : Option CancelKey) (interactive : Bool) (m : RawMessage) (d : Direct)
    → Leaves (Passed d (shown key m) m) (startup_message key interactive m d)
unfolding startup_message
startup_message-Passed key interactive m d =
    if-Leaves _ (tag m == Tag.authentication) _ _ d
      (λ is_auth.
        let other : tag m == Tag.backend_key_data ≡ false = ground arith in
        and_then-Leaves (λ subtype d'. d' ≡ d) _ (auth_subtype m, d) _ (same d (auth_subtype m))
          λ subtype d1 e.
            subst
              (λ x.
                Leaves (Passed d (shown key m) m)
                  (and_then (authentication interactive m subtype x) (λ u d'. (ok false, d'))))
              (sym e)
              (done-Passed d (shown key m) m false _ (ground arith, ground arith)
                (subst (λ bs. Leaves (Sees d bs) (authentication interactive m subtype d))
                  (sym (shown_frame key m other)) (authentication-Sees interactive m subtype d))))
      (λ e1.
        if-Leaves _ (tag m == Tag.backend_key_data) _ _ d
          (λ is_key.
            done-Passed d (shown key m) m false _ (ground arith, ground arith)
              (key_data-Sees key m d is_key))
          (λ other.
            let here : Leaves (Sees d (shown key m)) (to_client m.frame d) =
              subst (λ bs. Leaves (Sees d bs) (to_client m.frame d)) (sym (shown_frame key m other))
                (to_client-Sees d m.frame) in
            if-Leaves _ (tag m == Tag.ready_for_query) _ _ d
              (λ is_ready. done-Passed d (shown key m) m true _ (==-sound is_ready) (
                and_then-Leaves (Sees d (shown key m)) _ _ _ here
                  (λ u d1 h1. flush_client-Sees d (shown key m) d1 h1)))
              (λ e2.
                if-Leaves _ (tag m == Tag.error_response) _ _ d
                  (λ is_error. failed d (shown key m) m _ ((to_client m.frame >> flush_client) d))
                  (λ e3. done-Passed d (shown key m) m false _ (ground arith, ground arith) here))))
