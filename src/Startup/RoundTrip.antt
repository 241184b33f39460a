-- ===== src/Startup/RoundTrip.antt =====
-- What the builders of startup packets write, the readers read back.
use rama_pg.Bytes.{Bytes, i32_at-be32, be32}
use rama_pg.Bytes.Search.{split_once, split_once-append, Free}
use rama_pg.Bytes.Utf8.{from_utf8, is_utf8}
use rama_pg.Stream.{Reader, read_exact}
use rama_pg.Stream.Read.{read_exact_lem}
use rama_pg.Prelude.Int.{pos, leb_ℤ}
use rama_pg.Prelude.{
  ℕ, zero, suc, ◌+◌, ◌-◌, ◌%◌, ◌^◌, ◌<◌, ◌≤◌, ◌≡◌, ◌≢◌, refl, ap, ◌∙◌, [], ◌∷◌, ◌++◌, length, arith,
  flatten, take-append, drop-append, length-append, append_assoc, append-nil, none, some, true,
  false, ◌&&◌, not, ok, All,
}
use rama_pg.Startup.{
  Parameters, v3_0, startup, cancel, read_cstr, next_parameter, parameters_loop, parse_parameters,
  put_parameters, parse, startup_message, cancel_request_frame, read_startup_frame,
  read_startup_request,
}
use rama_pg.Startup.Parse.{parse_parameters_total}

-- A string that a C string can carry.
pub record IsText (s : Bytes) : Type 0 where
  pub no_null : Free 0 s
  pub utf8 : is_utf8 s ≡ true

abbrev pub IsParameter : Bytes × Bytes → Type 0
IsParameter (k, v) = (k ≢ []) × IsText k × IsText v

read_cstr-append : (s rest : Bytes) → IsText s → read_cstr (s ++ 0 ∷ rest) ≡ ok (s, rest)
unfolding read_cstr from_utf8
read_cstr-append s rest h = rw (split_once-append 0 s rest h.no_null, h.utf8)

next_parameter-append :
    (k v rest : Bytes)
    → IsParameter (k, v)
    → next_parameter (k ++ 0 ∷ (v ++ 0 ∷ rest)) ≡ ok (some ((k, v), rest))
unfolding next_parameter
next_parameter-append [] v rest h = absurd (h.0 refl)
next_parameter-append (c ∷ cs) v rest h =
    rw (read_cstr-append (c ∷ cs) (v ++ 0 ∷ rest) h.1, read_cstr-append v rest h.2)

next_parameter_end : next_parameter (0 ∷ []) ≡ ok none
unfolding next_parameter read_cstr split_once from_utf8 is_utf8
next_parameter_end = refl

parameters_loop-put :
    (fuel : ℕ) (ps acc : Parameters)
    → All IsParameter ps
    → length ps < fuel
    → parameters_loop fuel (put_parameters ps) acc ≡ some (ok (acc ++ ps))
unfolding parameters_loop put_parameters
parameters_loop-put zero ps acc h f = absurd (omega arith)
parameters_loop-put (suc fuel) [] acc h f = rw (next_parameter_end, parameters_loop) (rw append-nil)
parameters_loop-put (suc fuel) ((k, v) ∷ ps) acc h f =
    rw (next_parameter-append k v (put_parameters ps) h.0, parameters_loop)
      (parameters_loop-put fuel ps (acc ++ (k, v) ∷ []) h.1 (omega arith)
        ∙ ap (λ t. some (ok t)) (append_assoc acc ((k, v) ∷ []) ps))

length-put_parameters : (ps : Parameters) → length ps < length (put_parameters ps)
unfolding put_parameters
length-put_parameters [] = omega arith
length-put_parameters ((k, v) ∷ ps) = omega (
  arith,
  length-append k (0 ∷ (v ++ 0 ∷ put_parameters ps)),
  length-append v (0 ∷ put_parameters ps),
  length-put_parameters ps,
)

-- The parameters that the builder wrote are parsed back, in order.
pub parse_parameters-put :
    (ps : Parameters) → All IsParameter ps → parse_parameters (put_parameters ps) ≡ ok ps
parse_parameters-put ps h =
    let loop =
      parameters_loop-put (suc (length (put_parameters ps))) ps [] h
        (omega (arith, length-put_parameters ps)) in
    cc (loop, parse_parameters_total (put_parameters ps))

-- A startup message that the proxy builds is parsed as version 3.0 with the same parameters, and
-- keeps its own bytes for replay.
pub parse-startup_message :
    (ps : Parameters)
    → All IsParameter ps
    → parse (startup_message ps)
      ≡ ok (startup (record { protocol_version = v3_0; parameters = ps; raw = startup_message ps }))
unfolding parse startup_message
parse-startup_message ps h = rw (parse_parameters-put ps h) (ground arith)

-- A cancel request that the proxy builds carries the same key back, when it is long enough for one
-- and its length fits the field.
pub parse-cancel_request_frame :
    (key : Bytes)
    → 8 ≤ length key
    → length key + 8 < 2 ^ 31
    → parse (cancel_request_frame key) ≡ ok (cancel (record { key = record { bytes = key } }))
unfolding parse cancel_request_frame
parse-cancel_request_frame key h b = ground arith

-- A packet whose length field is right is read whole, over any chunks.
read_startup_frame-be32 :
    (body more : Bytes) (r : Reader)
    → flatten r ≡ be32 (length body + 4) ++ body ++ more
    → 4 ≤ length body
    → length body + 4 ≤ 10000
    → ((read_startup_frame r).0 ≡ ok (be32 (length body + 4) ++ body))
      × (flatten (read_startup_frame r).1 ≡ more)
unfolding read_startup_frame
read_startup_frame-be32 body more r e lo hi =
    let (prefix, left) = read_exact_lem 4 [] r (rw e (omega arith)) in
    let first : (read_exact 4 [] r).0 ≡ ok (be32 (length body + 4)) = prefix ∙ rw e in
    let left' : flatten (read_exact 4 [] r).1 ≡ body ++ more = left ∙ rw e in
    let (rest, behind) =
      read_exact_lem (length body) [] (read_exact 4 [] r).1
        (rw left' (omega (arith, length-append body more))) in
    let in_range : not
          (leb_ℤ (pos 8) (pos (length body + 4)) && leb_ℤ (pos (length body + 4)) (pos 10000))
        ≡ false =
      ground arith in
    let less : length body + 4 - 4 ≡ length body = omega arith in
    let got : (read_exact (length body) [] (read_exact 4 [] r).1).0 ≡ ok body =
      rest ∙ rw left' (ap ok (take-append body more)) in
    let behind' : flatten (read_exact (length body) [] (read_exact 4 [] r).1).1 ≡ more =
      behind ∙ rw left' (drop-append body more) in
    rw (first, i32_at-be32 (length body + 4) [] (omega arith), in_range, less, got) (refl, behind')

-- The proxy reads its own startup message off any chunks, and leaves the bytes behind it.
pub read_startup_request-startup_message :
    (ps : Parameters) (more : Bytes) (r : Reader)
    → All IsParameter ps
    → flatten r ≡ startup_message ps ++ more
    → length (startup_message ps) ≤ 10000
    → ((read_startup_request r).0
        ≡ ok (
            startup
              (record { protocol_version = v3_0; parameters = ps; raw = startup_message ps })))
      × (flatten (read_startup_request r).1 ≡ more)
read_startup_request-startup_message ps more r h e hi =
    let body = be32 196608 ++ put_parameters ps in
    let same : (length body + 4) % 2 ^ 32 ≡ length body + 4 =
      (unfold startup_message in omega (arith, hi)) in
    let framed : startup_message ps ≡ be32 (length body + 4) ++ body =
      unfold startup_message in rw same in
    let (read, left) =
      read_startup_frame-be32 body more r
        (e ∙ rw framed (append_assoc (be32 (length body + 4)) body more)) (omega arith)
        (let hi' = rw framed at hi in omega arith) in
    unfold read_startup_request in rw (read, ← framed, parse-startup_message ps h) (refl, left)
