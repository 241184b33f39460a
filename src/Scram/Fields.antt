-- ===== src/Scram/Fields.antt =====
-- The parsers of src/scram/mod.rs and src/scram/client.rs for the messages of the exchange.
pub mod Sasl
use rama_pg.Bytes.{Bytes, codes, eqb, i32_at}
use rama_pg.Bytes.Search.{split_once, strip_prefix, split, rsplit_once, find_field}
use rama_pg.Bytes.Utf8.{from_utf8, is_utf8}
use rama_pg.Codec.{RawMessage, tag, payload, frame}
use rama_pg.Codec.Tag
use rama_pg.Message.{put_i32}
use rama_pg.Prelude.Int.{pos, eqb_ℤ}
use rama_pg.Prelude.{
  ℕ, zero, suc, List, [], ◌∷◌, ◌++◌, length, drop, Option, none, some, Bool, true, false, ◌||◌, not,
  ltb, ◌==◌, if◌then◌else◌, Result, ok, err, ◌>>=◌, ok_or, message,
}

-- The GS2 channel-binding flag: `p=<name>`, `y` or `n`.
pub data CbindFlag : Type 0 where
  flag_p flag_y flag_n : CbindFlag

pub record ClientFirst : Type 0 where
  pub gs2_header : Bytes
  pub bare : Bytes
  pub client_nonce : Bytes
  pub cbind_flag : CbindFlag
  pub cbind_name : Option Bytes

pub record ClientFinal : Type 0 where
  pub channel_binding : Bytes
  pub nonce : Bytes
  pub proof : Bytes
  pub without_proof : Bytes

-- `parse_sasl_initial`: the mechanism and the initial response; the length field is not used.
unfoldable pub parse_sasl_initial : Bytes → Result (Bytes × Bytes)
parse_sasl_initial body = do
  (name, rest) ← ok_or (split_once 0 body) (message "scram: missing mechanism terminator")
  mechanism ← from_utf8 name
  if ltb (length rest) 4
      then err (message "scram: truncated SASLInitialResponse")
      else ok (mechanism, drop 4 rest)

abbrev parse_flag_named : Bytes → Option Bytes → Result (CbindFlag × Option Bytes)
parse_flag_named flag (some name) = ok (flag_p, some name)
parse_flag_named flag none =
    if eqb flag (codes "y")
    then ok (flag_y, none)
    else if eqb flag (codes "n")
    then ok (flag_n, none)
    else err (message "scram: malformed gs2 channel-binding flag")

unfoldable pub parse_flag : Bytes → Result (CbindFlag × Option Bytes)
parse_flag flag = parse_flag_named flag (strip_prefix (codes "p=") flag)

-- `parse_client_first`
unfoldable pub parse_client_first : Bytes → Result ClientFirst
parse_client_first content = do
  s ← from_utf8 content
  (flag, rest) ← ok_or (split_once b',' s) (message "scram: malformed client-first (gs2 header)")
  (cbind_flag, cbind_name) ← parse_flag flag
  (authzid, bare) ←
      ok_or (split_once b',' rest) (message "scram: malformed client-first (gs2 header)")
  client_nonce ←
      ok_or (find_field (codes "r=") (split b',' bare)) (message "scram: missing client nonce")
  ok (record {
    gs2_header = flag ++ b',' ∷ (authzid ++ b',' ∷ []);
    bare = bare;
    client_nonce = client_nonce;
    cbind_flag = cbind_flag;
    cbind_name = cbind_name;
  })

-- The loop of `parse_client_final`: a later field replaces an earlier one.
abbrev final_field :
    Option Bytes × Option Bytes → Option Bytes → Option Bytes → Option Bytes × Option Bytes
final_field (binding, echo) (some v) as_nonce = (some v, echo)
final_field (binding, echo) none (some v) = (binding, some v)
final_field (binding, echo) none none = (binding, echo)

unfoldable pub final_fields : List Bytes → Option Bytes × Option Bytes → Option Bytes × Option Bytes
final_fields [] acc = acc
final_fields (f ∷ fs) acc =
    final_fields fs (final_field acc (strip_prefix (codes "c=") f) (strip_prefix (codes "r=") f))

-- `parse_client_final`
unfoldable pub parse_client_final : Bytes → Result ClientFinal
parse_client_final s = do
  (without_proof, proof) ←
      ok_or (rsplit_once (codes ",p=") s) (message "scram: missing client proof")
  let fields = final_fields (split b',' without_proof) (none, none)
  channel_binding ← ok_or fields.0 (message "scram: missing channel binding")
  nonce ← ok_or fields.1 (message "scram: missing nonce in client-final")
  ok (record {
    channel_binding = channel_binding;
    nonce = nonce;
    proof = proof;
    without_proof = without_proof;
  })

-- `field(message, prefix)` of client.rs
unfoldable pub field : Bytes → Bytes → Option Bytes
field text prefix = find_field prefix (split b',' text)

-- `sasl_initial_response` and `sasl_response` of client.rs
unfoldable pub sasl_initial_response : Bytes → Bytes → Bytes
sasl_initial_response mechanism client_first =
    frame Tag.password_message (mechanism ++ 0 ∷ (put_i32 (length client_first) ++ client_first))

unfoldable pub sasl_response : Bytes → Bytes
sasl_response client_final = frame Tag.password_message client_final

-- `expect_auth`
unfoldable pub expect_auth : RawMessage → ℕ → Result (Unit {0})
expect_auth m subtype =
    if not (tag m == Tag.authentication)
    then err (message "backend: expected an authentication message")
    else if ltb (length (payload m)) 4 || not (eqb_ℤ (i32_at (payload m)) (pos subtype))
    then err (message "backend: expected another authentication sub-type")
    else ok tt

abbrev name_onto : Bool → Bytes → List Bytes → List Bytes
name_onto true name rest = name ∷ rest
name_onto false name rest = rest

-- The loop of `parse_mechanisms`. Every round takes a byte, so the list's length is enough fuel.
unfoldable pub mechanisms_loop : ℕ → Bytes → List Bytes
mechanisms_loop zero bs = []
mechanisms_loop (suc fuel) bs = elim (split_once 0 bs) [
  | none ↦ []
  | some (name, rest) ↦ elim name [
    | [] ↦ []
    | c ∷ cs ↦ name_onto (is_utf8 (c ∷ cs)) (c ∷ cs) (mechanisms_loop fuel rest)
  ]
]

unfoldable pub parse_mechanisms : Bytes → List Bytes
parse_mechanisms bs = mechanisms_loop (suc (length bs)) bs

-- `mechanisms.iter().any(|m| m == name)`
unfoldable pub offers : Bytes → List Bytes → Bool
offers name [] = false
offers name (m ∷ ms) = eqb m name || offers name ms
