-- ===== src/Startup.antt =====
-- src/protocol/startup.rs: the packets of the startup phase. A Rust string is its UTF-8 bytes.
pub mod Parse
pub mod RoundTrip
pub mod Version
use rama_pg.Bytes.{Bytes, be32, i32_at, codes, eqb}
use rama_pg.Bytes.Search.{split_once, starts_with}
use rama_pg.Bytes.Utf8.{from_utf8}
use rama_pg.Stream.{Reader, read_exact}
use rama_pg.Prelude.Int.{ℤ, pos, negsuc, leb_ℤ, eqb_ℤ, to_i32, from_i32}
use rama_pg.Prelude.{
  ℕ, zero, suc, ◌+◌, ◌-◌, ◌*◌, ◌/◌, ◌%◌, ◌^◌, min, List, [], ◌∷◌, ◌++◌, length, take, drop, Option,
  none, some, Bool, true, false, ◌&&◌, not, ltb, if◌then◌else◌, Error, invalid_data, Result, ok,
  err, ◌>>=◌,
}

pub record ProtocolVersion : Type 0 where
  pub code : ℤ

abbrev pub from_code : ℤ → ProtocolVersion
from_code code = record { code = code }

abbrev pub v3_0 : ProtocolVersion
v3_0 = from_code (pos 196608)

abbrev pub v3_2 : ProtocolVersion
v3_2 = from_code (pos 196610)

-- `ProtocolVersion::MAX`
abbrev pub max_version : ProtocolVersion
max_version = v3_2

-- `(self.0 >> 16) & 0xffff` and `self.0 & 0xffff`: the two halves of the 32-bit pattern.
unfoldable pub major : ProtocolVersion → ℕ
major v = from_i32 v.code / 2 ^ 16 % 2 ^ 16

unfoldable pub minor : ProtocolVersion → ℕ
minor v = from_i32 v.code % 2 ^ 16

-- `(major << 16) | minor`: the shifted value has no low bits, so the `|` is a sum.
unfoldable pub negotiated : ProtocolVersion → ProtocolVersion
unfolding major minor
negotiated v = from_code (to_i32 (major v * 2 ^ 16 % 2 ^ 32 + min (minor v) (minor max_version)))

abbrev pub ssl_request_code : ℕ
ssl_request_code = 80877103

abbrev pub gssenc_request_code : ℕ
gssenc_request_code = 80877104

abbrev pub cancel_request_code : ℕ
cancel_request_code = 80877102

abbrev pub max_startup_packet_len : ℕ
max_startup_packet_len = 10000

pub record CancelKey : Type 0 where
  pub bytes : Bytes

-- `CancelKey::process_id`
unfoldable pub process_id : CancelKey → Option ℤ
process_id k = if ltb (length k.bytes) 4 then none else some (i32_at k.bytes)

pub record CancelRequest : Type 0 where
  pub key : CancelKey

abbrev pub Parameters : Type 0
Parameters = List (Bytes × Bytes)

pub record StartupMessage : Type 0 where
  pub protocol_version : ProtocolVersion
  pub parameters : Parameters
  pub raw : Bytes

-- `self.parameters.iter().find(|(k, _)| k == key)`
unfoldable pub find_parameter : Bytes → Parameters → Option Bytes
find_parameter key [] = none
find_parameter key ((k, v) ∷ ps) = if eqb k key then some v else find_parameter key ps

unfoldable pub get : StartupMessage → Bytes → Option Bytes
get m key = find_parameter key m.parameters

unfoldable pub user : StartupMessage → Option Bytes
user m = get m (codes "user")

abbrev pub or_else {ℓ} : {A : Type ℓ} → Option A → Option A → Option A
or_else (some a) b = some a
or_else none b = b

unfoldable pub database : StartupMessage → Option Bytes
database m = or_else (get m (codes "database")) (user m)

unfoldable pub pq_keys : Parameters → List Bytes
pq_keys [] = []
pq_keys ((k, v) ∷ ps) = if starts_with (codes "_pq_.") k then k ∷ pq_keys ps else pq_keys ps

unfoldable pub pq_options : StartupMessage → List Bytes
unfolding pq_keys
pq_options m = pq_keys m.parameters

abbrev pub negotiated_version : StartupMessage → ProtocolVersion
negotiated_version m = negotiated m.protocol_version

pub data StartupRequest : Type 0 where
  ssl gss_enc : StartupRequest
  cancel : CancelRequest → StartupRequest
  startup : StartupMessage → StartupRequest

-- `read_cstr`: the string up to the first null, and the bytes behind it.
abbrev valid_or : Result Bytes → Bytes → Result (Bytes × Bytes)
valid_or (ok t) rest = ok (t, rest)
valid_or (err _) rest = err invalid_data

abbrev cstr_of : Option (Bytes × Bytes) → Result (Bytes × Bytes)
cstr_of none = err invalid_data
cstr_of (some (s, rest)) = valid_or (from_utf8 s) rest

unfoldable pub read_cstr : Bytes → Result (Bytes × Bytes)
read_cstr buf = cstr_of (split_once 0 buf)

-- The body of the loop of `parse_parameters`: `none` where an empty key ends the list.
abbrev key_then : Result (Bytes × Bytes) → Result (Option ((Bytes × Bytes) × Bytes))
key_then (err e) = err e
key_then (ok ([], rest)) = ok none
key_then (ok (c ∷ cs, rest)) = do
  (value, rest') ← read_cstr rest
  ok (some ((c ∷ cs, value), rest'))

unfoldable pub next_parameter : Bytes → Result (Option ((Bytes × Bytes) × Bytes))
next_parameter buf = key_then (read_cstr buf)

-- The loop; every round takes a byte, and `none` is the end of the fuel.
unfoldable pub parameters_loop : ℕ → Bytes → Parameters → Option (Result Parameters)
parameters_loop zero buf acc = none
parameters_loop (suc fuel) buf acc = elim (next_parameter buf) [
  | err e ↦ some (err e)
  | ok none ↦ some (ok acc)
  | ok (some (p, rest)) ↦ parameters_loop fuel rest (acc ++ p ∷ [])
]

abbrev or_invalid : Option (Result Parameters) → Result Parameters
or_invalid none = err invalid_data
or_invalid (some r) = r

unfoldable pub parse_parameters : Bytes → Result Parameters
parse_parameters buf = or_invalid (parameters_loop (suc (length buf)) buf [])

-- `StartupRequest::parse`
unfoldable pub parse : Bytes → Result StartupRequest
parse frame =
    let len = i32_at frame in
    let code = i32_at (drop 4 frame) in
    if ltb (length frame) 8
    then err invalid_data
    else if eqb_ℤ code (pos ssl_request_code) && eqb_ℤ len (pos 8)
    then ok ssl
    else if eqb_ℤ code (pos gssenc_request_code) && eqb_ℤ len (pos 8)
    then ok gss_enc
    else if eqb_ℤ code (pos cancel_request_code) && leb_ℤ (pos 16) len
    then ok (cancel (record { key = record { bytes = drop 8 frame } }))
    else do
      parameters ← parse_parameters (drop 8 frame)
      ok (
          startup
            (record { protocol_version = from_code code; parameters = parameters; raw = frame }))

abbrev pub startup_body : Result Bytes × Reader → ℕ → Result Bytes × Reader
startup_body (err e, r) len = (err e, r)
startup_body (ok body, r) len = (ok (be32 len ++ body), r)

abbrev pub startup_rest : Result Bytes × Reader → Result Bytes × Reader
startup_rest (err e, r) = (err e, r)
startup_rest (ok prefix, r) =
    let len = i32_at prefix in
    let n = from_i32 len in
    if not (leb_ℤ (pos 8) len && leb_ℤ len (pos max_startup_packet_len))
    then (err invalid_data, r)
    else startup_body (read_exact (n - 4) [] r) n

-- `read_startup_frame`
unfoldable pub read_startup_frame : Reader → Result Bytes × Reader
read_startup_frame r = startup_rest (read_exact 4 [] r)

-- `read_startup_request`
unfoldable pub read_startup_request : Reader → Result StartupRequest × Reader
unfolding read_startup_frame
read_startup_request r = ((read_startup_frame r).0 >>= parse, (read_startup_frame r).1)

unfoldable pub put_parameters : Parameters → Bytes
put_parameters [] = 0 ∷ []
put_parameters ((k, v) ∷ ps) = k ++ 0 ∷ (v ++ 0 ∷ put_parameters ps)

-- `startup_message`
unfoldable pub startup_message : Parameters → Bytes
startup_message ps =
    let body = be32 196608 ++ put_parameters ps in be32 ((length body + 4) % 2 ^ 32) ++ body

unfoldable pub cancel_request_frame : Bytes → Bytes
cancel_request_frame key = be32 ((8 + length key) % 2 ^ 32) ++ be32 cancel_request_code ++ key
