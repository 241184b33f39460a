-- ===== src/Proxy/Plaintext.antt =====
-- The plaintext part of a connection ends.
use rama_pg.Bytes.{Bytes, codes, i32_at}
use rama_pg.Exec.{and_then, Conn, write_room, flush}
use rama_pg.Exec.Ensures.{Leaves, and_then-Leaves}
use rama_pg.Message.{fatal_error}
use rama_pg.Proxy.{
  PlainEnd, to_tls, refused, cancel_plain, plain_request, again, plain_loop, serve, starts_tls,
  startup_request, startup_frame, left, reject,
}
use rama_pg.Startup.{
  StartupRequest, ssl, gss_enc, cancel, startup, parse, read_startup_frame, startup_rest,
  startup_body, max_startup_packet_len,
}
use rama_pg.Stream.{Reader, put_back, read_exact}
use rama_pg.Stream.Read.{read_exact_lem, read_exact_eof, flatten-put_back}
use rama_pg.Prelude.Int.{pos, leb_ℤ, from_i32}
use rama_pg.Prelude.{
  ℕ, zero, suc, ◌<◌, ◌≤◌, ◌+◌, ◌-◌, [], ◌∷◌, ◌++◌, append-nil, append_assoc, length, length-drop,
  length-append, replicate, flatten, Option, none, some, false, ltb, Bool-cases, ◌⊎◌, inl, inr, ◌≡◌,
  refl, sym, ap, ◌∙◌, Error, broken_pipe, Result, ok, err, ◌&&◌, arith,
}

abbrev Shorter : ℕ → Bytes → Reader → Type 0
Shorter k a r = length (flatten r) < k

failed-Shorter :
    (k : ℕ) {e : Error} (x : Result Bytes × Reader) → x.0 ≡ err e → Leaves (Shorter k) x
failed-Shorter k (ok a, r) h = cc
failed-Shorter k (err e, r) h = tt

left-Shorter : (k : ℕ) (x : Result Bytes × Reader) → length (flatten x.1) < k → Leaves (Shorter k) x
left-Shorter k (ok a, r) h = h
left-Shorter k (err e, r) h = tt

exact-Shorter :
    (n : ℕ) (acc : Bytes) (r : Reader) (k : ℕ)
    → length (flatten r) < k + n
    → Leaves (Shorter k) (read_exact n acc r)
exact-Shorter n acc r k h = elim (Bool-cases (ltb (length (flatten r)) n)) [
  | inl short ↦
      let less : length (flatten r) < n = ground arith in
      failed-Shorter k (read_exact n acc r) (read_exact_eof n acc r less)
  | inr long ↦
      let enough : n ≤ length (flatten r) = ground arith in
      let (read, rest) = read_exact_lem n acc r enough in
      let less : length (flatten (read_exact n acc r).1) < k =
        rw rest (omega (arith, length-drop n (flatten r))) in
      left-Shorter k (read_exact n acc r) less
]

body-Shorter :
    (k n : ℕ) (x : Result Bytes × Reader)
    → Leaves (Shorter k) x
    → Leaves (Shorter k) (startup_body x n)
body-Shorter k n (ok body, r) h = h
body-Shorter k n (err e, r) h = tt

startup_rest-Shorter :
    (k : ℕ) (x : Result Bytes × Reader) → Leaves (Shorter k) x → Leaves (Shorter k) (startup_rest x)
startup_rest-Shorter k (err e, r) h = tt
startup_rest-Shorter k (ok prefix, r) h =
    let len = i32_at prefix in
    elim (Bool-cases (leb_ℤ (pos 8) len && leb_ℤ len (pos max_startup_packet_len))) [
      | inl in_range ↦
          rw in_range (
            body-Shorter k (from_i32 len) _
              (exact-Shorter (from_i32 len - 4) [] r k (ground arith)))
      | inr out ↦ rw out tt
    ]

frame-Shorter :
    (r : Reader) (k : ℕ) → length (flatten r) < k + 4 → Leaves (Shorter k) (read_startup_frame r)
unfolding read_startup_frame
frame-Shorter r k h = startup_rest-Shorter k _ (exact-Shorter 4 [] r k h)

-- Something was read from `c`, and nothing was sent.
abbrev Consumed {ℓ} : {A : Type ℓ} → Conn → A → Conn → Type 0
Consumed c a c' = (c'.sent ≡ c.sent) × (length c'.input < length c.input)

left-Consumed :
    (c : Conn) (x : Result Bytes × Reader)
    → Leaves (Shorter (length c.input)) x
    → Leaves (Consumed c) (left x c)
left-Consumed c (ok a, r) h = (refl, h)
left-Consumed c (err e, r) h = tt

lift-Consumed :
    {A : Type 0} (c c1 : Conn) (x : Result A) → Consumed c (tt {0}) c1 → Leaves (Consumed c) (x, c1)
lift-Consumed c c1 (ok a) h = h
lift-Consumed c c1 (err e) h = tt

request-Consumed : (c : Conn) → Leaves (Consumed c) (startup_request c)
unfolding flatten
request-Consumed c =
    let whole : length (flatten (put_back c.input [])) < length c.input + 4 =
      rw (flatten-put_back c.input []) (omega (arith, length-append c.input [])) in
    and_then-Leaves (Consumed c) (Consumed c) (startup_frame c) _
      (left-Consumed c _ (frame-Shorter (put_back c.input []) (length c.input) whole))
      λ frame c1 h. lift-Consumed c c1 (parse frame) h

-- A request leaves what was sent.
left_sent : (c : Conn) (x : Result Bytes × Reader) → (left x c).1.sent ≡ c.sent
left_sent c (x, r) = refl

parsed_sent :
    (c : Conn) (r : Result Bytes × Conn)
    → r.1.sent ≡ c.sent
    → (and_then r λ frame c1. (parse frame, c1)).1.sent ≡ c.sent
parsed_sent c (ok a, c1) h = h
parsed_sent c (err e, c1) h = h

request_sent : (c : Conn) → (startup_request c).1.sent ≡ c.sent
request_sent c =
    parsed_sent c (startup_frame c) (left_sent c (read_startup_frame (put_back c.input [])))

-- The last bytes went out, or the connection took fewer than the write and the flush of them.
abbrev pub Says : PlainEnd → Bytes → Conn → Result PlainEnd → Conn → Type 0
Says end bs c x c' =
    ((x ≡ ok end) × (c'.sent ≡ c.sent ++ bs))
    ⊎ ((x ≡ err broken_pipe) × (c.room < 2) × ((c'.sent ≡ c.sent) ⊎ (c'.sent ≡ c.sent ++ bs)))

-- How a request that was read ends the plaintext part: an `S` before TLS, the error that asks for TLS,
-- nothing for a cancel request. A request for GSSAPI encryption ends it only where the refusal does
-- not go out.
abbrev pub EndsBy : StartupRequest → Conn → Result PlainEnd → Conn → Type 0
EndsBy ssl c x c' = Says to_tls (b'S' ∷ []) c x c'
EndsBy (startup m) c x c' =
    Says refused
      (fatal_error (codes "08004")
        (codes "rama-pg requires a TLS connection (use sslmode=require or higher)"))
      c x c'
EndsBy (cancel request) c x c' = (x ≡ ok (cancel_plain request.key)) × (c' ≡ c)
EndsBy gss_enc c x c' =
    (x ≡ err broken_pipe) × (c.room < 2) × ((c'.sent ≡ c.sent) ⊎ (c'.sent ≡ c.sent ++ b'N' ∷ []))

-- The last request is not read, which ends the part with that error and nothing sent, or it ends it.
abbrev pub Last : Conn → Result PlainEnd → Conn → Type 0
Last c x c' =
    ((e : Error) × (startup_request c ≡ (err e, c')) × (x ≡ err e) × (c'.sent ≡ c.sent))
    ⊎ ((request : StartupRequest) × (c1 : Conn) × (startup_request c ≡ (ok request, c1))
        × (c1.sent ≡ c.sent)
        × EndsBy request c1 x c')

-- So many requests for GSSAPI encryption were read one after another, and each refused with an `N`.
abbrev pub Refuses : ℕ → Conn → Conn → Type 0
Refuses zero c c' = c' ≡ c
Refuses (suc n) c c' =
    (c1 : Conn) × (c2 : Conn) × (startup_request c ≡ (ok gss_enc, c1))
    × (c2.input ≡ c1.input)
    × (c2.sent ≡ c.sent ++ b'N' ∷ [])
    × Refuses n c2 c'

-- The plaintext part has a result: some refusals, and its last request.
abbrev pub PlainFinishes : Conn → Option (Result PlainEnd × Conn) → Type 0
PlainFinishes c none = ⊥
PlainFinishes c (some (x, c')) =
    (n : ℕ) × (c1 : Conn) × Refuses n c c1 × (c1.sent ≡ c.sent ++ replicate n b'N') × Last c1 x c'

-- The first request is the last.
at_once :
    (c : Conn) (x : Result PlainEnd) (c' : Conn) → Last c x c' → PlainFinishes c (some (x, c'))
at_once c x c' h = (0, c, refl, sym (append-nil c.sent), h)

later :
    (c c1 c2 : Conn)
    → startup_request c ≡ (ok gss_enc, c1)
    → c2.input ≡ c1.input
    → c2.sent ≡ c.sent ++ b'N' ∷ []
    → (r : Option (Result PlainEnd × Conn)) → PlainFinishes c2 r
    → PlainFinishes c r
later c c1 c2 read same sent none h = h
later c c1 c2 read same sent (some (x, c')) (n, c3, refuses, all, h) = (
  suc n,
  c3,
  (c1, c2, read, same, sent, refuses),
  all ∙ ap (λ l. l ++ replicate n b'N') sent ∙ append_assoc c.sent (b'N' ∷ []) _,
  h,
)

module _ (next : Conn → Option (Result PlainEnd × Conn)) (c c1 : Conn)
    (same : c1.sent ≡ c.sent) where
  -- The last bytes, by the room that the writes have.
  says_room :
      (request : StartupRequest) (end : PlainEnd) (bs : Bytes)
      → startup_request c ≡ (ok request, c1)
      → ((x : Result PlainEnd) (c' : Conn) → Says end bs c1 x c' → EndsBy request c1 x c')
      → (n : ℕ) → c1.room ≡ n
      → PlainFinishes c (
          again next
            (and_then (and_then (write_room n bs c1) (λ u. flush)) λ u c'. (ok (some end), c')))
  says_room request end bs read ends zero room =
      at_once c _ _
        (inr (request, c1, read, same, ends _ _ (inr (refl, omega (arith, room), inl refl))))
  says_room request end bs read ends (suc zero) room =
      at_once c _ _
        (inr (request, c1, read, same, ends _ _ (inr (refl, omega (arith, room), inr refl))))
  says_room request end bs read ends (suc (suc n)) room =
      at_once c _ _ (inr (request, c1, read, same, ends _ _ (inl (refl, append-nil _))))

  -- The refusal of GSSAPI encryption, by the room that the writes have.
  gss_room :
      startup_request c ≡ (ok gss_enc, c1)
      → ((c2 : Conn) → c2.input ≡ c1.input → PlainFinishes c2 (next c2))
      → (n : ℕ) → c1.room ≡ n
      → PlainFinishes c (
          again next
            (and_then (and_then (write_room n (b'N' ∷ []) c1) (λ u. flush)) λ u c'. (ok none, c')))
  gss_room read safe zero room =
      at_once c _ _ (inr (gss_enc, c1, read, same, (refl, omega (arith, room), inl refl)))
  gss_room read safe (suc zero) room =
      at_once c _ _ (inr (gss_enc, c1, read, same, (refl, omega (arith, room), inr refl)))
  gss_room read safe (suc (suc n)) room =
      let c2 : Conn = record c1 { sent = (c1.sent ++ b'N' ∷ []) ++ []; room = n } in
      later c c1 c2 read refl (append-nil _ ∙ ap (λ l. l ++ b'N' ∷ []) same) (next c2)
        (safe c2 refl)

  request-PlainFinishes :
      (request : StartupRequest)
      → startup_request c ≡ (ok request, c1)
      → ((c2 : Conn) → c2.input ≡ c1.input → PlainFinishes c2 (next c2))
      → PlainFinishes c (again next (plain_request request c1))
  unfolding reject
  request-PlainFinishes ssl read safe =
      says_room ssl to_tls (b'S' ∷ []) read (λ x c' h. h) c1.room refl
  request-PlainFinishes gss_enc read safe = gss_room read safe c1.room refl
  request-PlainFinishes (startup m) read safe =
      says_room (startup m) refused _ read (λ x c' h. h) c1.room refl
  request-PlainFinishes (cancel request) read safe =
      at_once c _ _ (inr (cancel request, c1, read, same, (refl, refl)))

turn-PlainFinishes :
    (n : ℕ) (next : Conn → Option (Result PlainEnd × Conn))
    → ((c1 : Conn) → length c1.input < n → PlainFinishes c1 (next c1))
    → (c : Conn) → length c.input < suc n
    → (r : Result StartupRequest × Conn) → startup_request c ≡ r
    → r.1.sent ≡ c.sent
    → Leaves (Consumed c) r
    → PlainFinishes c (again next (and_then r plain_request))
turn-PlainFinishes n next safe c fuel (err e, c1) read sent h =
    at_once c _ _ (inl (e, read, refl, sent))
turn-PlainFinishes n next safe c fuel (ok request, c1) read sent (same, less) =
    request-PlainFinishes next c c1 sent request read
      λ c2 input. safe c2 (omega (arith, ap length input))

plain_loop-PlainFinishes :
    (n : ℕ) (c : Conn) → length c.input < n → PlainFinishes c (plain_loop n c)
unfolding plain_loop
plain_loop-PlainFinishes zero c fuel = ground arith
plain_loop-PlainFinishes (suc n) c fuel =
    turn-PlainFinishes n (plain_loop n) (plain_loop-PlainFinishes n) c fuel (startup_request c) refl
      (request_sent c) (request-Consumed c)

-- Whatever a client sends in the clear, the loop ends. A client that does not open with a TLS
-- handshake is sent an `N` for each of its first requests that are for GSSAPI encryption, and nothing
-- more where the next one cannot be read; else that one ends the loop: a request for TLS with an `S`, a
-- startup with the error that asks for TLS, a cancel request with its key and nothing sent. Where
-- these bytes do not go out the loop fails, and no others do.
pub serve-PlainFinishes : (c : Conn) → starts_tls c.input ≡ false → PlainFinishes c (serve c)
unfolding serve
serve-PlainFinishes c h = rw h (plain_loop-PlainFinishes (suc (length c.input)) c (ground arith))
