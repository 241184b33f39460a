-- ===== src/Codec/Tag.antt =====
-- The message tags of src/protocol/codec.rs.
use rama_pg.Prelude.{ℕ}

abbrev pub authentication : ℕ
authentication = b'R'

abbrev pub backend_key_data : ℕ
backend_key_data = b'K'

abbrev pub parameter_status : ℕ
parameter_status = b'S'

abbrev pub ready_for_query : ℕ
ready_for_query = b'Z'

abbrev pub error_response : ℕ
error_response = b'E'

abbrev pub negotiate_protocol_version : ℕ
negotiate_protocol_version = b'v'

abbrev pub row_description : ℕ
row_description = b'T'

abbrev pub data_row : ℕ
data_row = b'D'

abbrev pub command_complete : ℕ
command_complete = b'C'

abbrev pub password_message : ℕ
password_message = b'p'

abbrev pub query : ℕ
query = b'Q'

abbrev pub terminate : ℕ
terminate = b'X'
