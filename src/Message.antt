-- ===== src/Message.antt =====
-- src/protocol/message.rs: the builders of server-to-client messages. A `&str` is its bytes.
use rama_pg.Bytes.{Bytes, be32, be16, codes}
use rama_pg.Codec.{frame}
use rama_pg.Codec.Tag
use rama_pg.Prelude.Int.{from_i32}
use rama_pg.Prelude.{ℕ, ◌%◌, ◌^◌, List, [], ◌∷◌, ◌++◌, length, Option, none, some}
use rama_pg.Startup.{ProtocolVersion}

abbrev pub text_oid : ℕ
text_oid = 25

-- The `Authentication` sub-types.
abbrev pub auth_ok : ℕ
auth_ok = 0

abbrev pub auth_cleartext_password : ℕ
auth_cleartext_password = 3

abbrev pub auth_sasl : ℕ
auth_sasl = 10

abbrev pub auth_sasl_continue : ℕ
auth_sasl_continue = 11

abbrev pub auth_sasl_final : ℕ
auth_sasl_final = 12

-- `put_i32(n as i32)`, `put_i16(n as i16)` and `put_i32(-1)`, `put_i16(-1)`
abbrev pub put_i32 : ℕ → Bytes
put_i32 n = be32 (n % 2 ^ 32)

abbrev pub put_i16 : ℕ → Bytes
put_i16 n = be16 (n % 2 ^ 16)

abbrev minus_one_32 : Bytes
minus_one_32 = 255 ∷ 255 ∷ 255 ∷ 255 ∷ []

abbrev minus_one_16 : Bytes
minus_one_16 = 255 ∷ 255 ∷ []

-- `put_cstr`
abbrev pub cstr : Bytes → Bytes
cstr s = s ++ 0 ∷ []

unfoldable pub authentication_ok : Bytes
authentication_ok = frame Tag.authentication (put_i32 auth_ok)

unfoldable pub authentication_cleartext_password : Bytes
authentication_cleartext_password = frame Tag.authentication (put_i32 auth_cleartext_password)

abbrev pub cstrs : List Bytes → Bytes
cstrs [] = []
cstrs (s ∷ ss) = cstr s ++ cstrs ss

unfoldable pub authentication_sasl : List Bytes → Bytes
authentication_sasl mechanisms =
    frame Tag.authentication (put_i32 auth_sasl ++ (cstrs mechanisms ++ 0 ∷ []))

unfoldable pub sasl_message : ℕ → Bytes → Bytes
sasl_message subtype content = frame Tag.authentication (put_i32 subtype ++ content)

unfoldable pub authentication_sasl_continue : Bytes → Bytes
unfolding sasl_message
authentication_sasl_continue content = sasl_message auth_sasl_continue content

unfoldable pub authentication_sasl_final : Bytes → Bytes
unfolding sasl_message
authentication_sasl_final content = sasl_message auth_sasl_final content

unfoldable pub parameter_status : Bytes → Bytes → Bytes
parameter_status name value = frame Tag.parameter_status (cstr name ++ cstr value)

-- One column: name, table OID, attribute number, type, size, modifier, format.
abbrev column : Bytes → Bytes
column name =
    cstr name
    ++ (put_i32 0
        ++ (put_i16 0 ++ (put_i32 text_oid ++ (minus_one_16 ++ (minus_one_32 ++ put_i16 0)))))

abbrev pub columns_of : List Bytes → Bytes
columns_of [] = []
columns_of (c ∷ cs) = column c ++ columns_of cs

unfoldable pub row_description : List Bytes → Bytes
row_description columns = frame Tag.row_description (put_i16 (length columns) ++ columns_of columns)

abbrev pub cell : Option Bytes → Bytes
cell (some text) = put_i32 (length text) ++ text
cell none = minus_one_32

abbrev pub cells : List (Option Bytes) → Bytes
cells [] = []
cells (v ∷ vs) = cell v ++ cells vs

unfoldable pub data_row : List (Option Bytes) → Bytes
data_row values = frame Tag.data_row (put_i16 (length values) ++ cells values)

unfoldable pub command_complete : Bytes → Bytes
command_complete tag = frame Tag.command_complete (cstr tag)

unfoldable pub backend_key_data_raw : Bytes → Bytes
backend_key_data_raw payload = frame Tag.backend_key_data payload

unfoldable pub ready_for_query : ℕ → Bytes
ready_for_query status = frame Tag.ready_for_query (status ∷ [])

unfoldable pub negotiate_protocol_version : ProtocolVersion → List Bytes → Bytes
negotiate_protocol_version version unsupported =
    frame Tag.negotiate_protocol_version
      (be32 (from_i32 version.code) ++ (put_i32 (length unsupported) ++ cstrs unsupported))

abbrev put_field : ℕ → Bytes → Bytes
put_field field_type value = field_type ∷ cstr value

unfoldable pub error_response : Bytes → Bytes → Bytes → Bytes
error_response severity code message = frame Tag.error_response (
    put_field b'S' severity
    ++ (put_field b'V' severity ++ (put_field b'C' code ++ (put_field b'M' message ++ 0 ∷ []))))

unfoldable pub fatal_error : Bytes → Bytes → Bytes
unfolding error_response
fatal_error code message = error_response (codes "FATAL") code message
