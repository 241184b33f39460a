-- ===== src/Tests/Protocol.antt =====
-- The wire protocol at concrete inputs.
use rama_pg.Bytes.{Bytes, codes}
use rama_pg.Bytes.Utf8.{is_utf8}
use rama_pg.Codec.{
  FramedReader, MessageHeader, frame, read_frame, read_message_capped, copy_body_to, body_len, look,
  parse_header,
}
use rama_pg.Codec.Copy.{Copied, copy_body_to_lem}
use rama_pg.Codec.Framed.{IsReader, observe, unread, read_frame-decode, read_frame_cancel_safe}
use rama_pg.Codec.Frames.{receive, decode, receive-frame, receive_sound}
use rama_pg.Codec.Receive
use rama_pg.Codec.Receive.{read_message_capped-receive}
use rama_pg.Prelude.Int.{pos}
use rama_pg.Prelude.{
  suc, ◌+◌, ◌≡◌, ◌≤◌, ◌<◌, refl, [], ◌∷◌, ◌++◌, length, none, some, ok, flatten, arith, inl, min,
  All,
}
use rama_pg.Startup.{
  Parameters, parse, parse_parameters, parameters_loop, put_parameters, startup_message, startup,
  cancel, cancel_request_frame, read_startup_request, v3_0, negotiated, major, minor, from_code,
}
use rama_pg.Startup.Parse.{parse_parameters_total}
use rama_pg.Startup.RoundTrip.{
  IsText, IsParameter, parse_parameters-put, parse-cancel_request_frame,
  read_startup_request-startup_message,
}
use rama_pg.Startup.Version.{negotiated_lem}
use rama_pg.Stream.{Reader, Sink}

-- A `ReadyForQuery` and the start of the next message, in three chunks.
abbrev ready : Bytes
ready = b'Z' ∷ 0 ∷ 0 ∷ 0 ∷ 5 ∷ b'I' ∷ []

abbrev chunks : Reader
chunks = (b'Z' ∷ 0 ∷ 0 ∷ []) ∷ (0 ∷ 5 ∷ []) ∷ (b'I' ∷ b'S' ∷ []) ∷ []

abbrev reader : FramedReader
reader = record { inner = chunks; max_len = pos 1000; buf = [] }

reader-IsReader : IsReader reader
reader-IsReader = record {
  partial = inl (omega arith);
  live = ((λ e. cc), ((λ e. cc), ((λ e. cc), tt)));
}

few_bytes : length (flatten chunks) < 9
unfolding flatten
few_bytes = omega arith

read_frame-decode_example : observe (read_frame 9 reader) ≡ some (decode (pos 1000) (unread reader))
read_frame-decode_example = read_frame-decode 9 reader reader-IsReader few_bytes

-- One read, after which the call is dropped.
dropped : (read_frame 1 reader).0 ≡ none
unfolding read_frame look
dropped = refl

few_left : length (flatten (read_frame 1 reader).1.inner) < 9
unfolding read_frame look flatten
few_left = omega arith

read_frame_cancel_safe_example :
    observe (read_frame 9 (read_frame 1 reader).1) ≡ some (decode (pos 1000) (unread reader))
read_frame_cancel_safe_example = read_frame_cancel_safe 1 9 reader reader-IsReader dropped few_left

read_message_capped-receive_example :
    Receive.observe (read_message_capped (pos 1000) chunks)
    ≡ some (receive (pos 1000) (flatten chunks))
read_message_capped-receive_example =
    read_message_capped-receive (pos 1000) chunks reader-IsReader.live

receive-frame_example :
    receive (pos 1000) (frame b'Z' (b'I' ∷ []) ++ b'S' ∷ [])
    ≡ ok (record { frame = frame b'Z' (b'I' ∷ []) }, b'S' ∷ [])
receive-frame_example = receive-frame b'Z' (b'I' ∷ []) (b'S' ∷ []) 1000 (omega arith) (omega arith)

received : receive (pos 1000) (ready ++ b'S' ∷ []) ≡ ok (record { frame = ready }, b'S' ∷ [])
unfolding receive parse_header body_len
received = refl

receive_sound_example : (ready ++ b'S' ∷ [] ≡ ready ++ b'S' ∷ []) × (5 ≤ 6) × (6 ≤ 1000 + 1)
receive_sound_example = receive_sound 1000 (ready ++ b'S' ∷ []) received

abbrev header : MessageHeader
header = record { bytes = b'd' ∷ 0 ∷ 0 ∷ 0 ∷ 7 ∷ [] }

abbrev sink : Sink
sink = record { sent = []; room = 10 }

body_fits : body_len header ≤ length (flatten chunks)
unfolding body_len flatten
body_fits = omega arith

body_room : body_len header ≤ 10
unfolding body_len
body_room = omega arith

copy_body_to_lem_example : Copied (body_len header) chunks sink (copy_body_to header 2 chunks sink)
copy_body_to_lem_example = copy_body_to_lem header 2 chunks sink (omega arith) body_fits body_room

abbrev parameters : Parameters
parameters = (codes "user", codes "bob") ∷ (codes "database", codes "db") ∷ []

user-IsText : IsText (codes "user")
unfolding is_utf8
user-IsText = record { no_null = ground arith; utf8 = refl }

bob-IsText : IsText (codes "bob")
unfolding is_utf8
bob-IsText = record { no_null = ground arith; utf8 = refl }

database-IsText : IsText (codes "database")
unfolding is_utf8
database-IsText = record { no_null = ground arith; utf8 = refl }

db-IsText : IsText (codes "db")
unfolding is_utf8
db-IsText = record { no_null = ground arith; utf8 = refl }

parameters-IsParameter : All IsParameter parameters
parameters-IsParameter =
    (((λ e. cc), user-IsText, bob-IsText), (((λ e. cc), database-IsText, db-IsText), tt))

parse_parameters-put_example : parse_parameters (put_parameters parameters) ≡ ok parameters
parse_parameters-put_example = parse_parameters-put parameters parameters-IsParameter

whole : flatten (startup_message parameters ∷ []) ≡ startup_message parameters ++ []
unfolding flatten
whole = refl

short : length (startup_message parameters) ≤ 10000
unfolding startup_message put_parameters
short = omega arith

read_startup_request-startup_message_example :
    ((read_startup_request (startup_message parameters ∷ [])).0
      ≡ ok (
          startup (record {
            protocol_version = v3_0;
            parameters = parameters;
            raw = startup_message parameters;
          })))
    × (flatten (read_startup_request (startup_message parameters ∷ [])).1 ≡ [])
read_startup_request-startup_message_example =
    read_startup_request-startup_message parameters [] (startup_message parameters ∷ [])
      parameters-IsParameter whole short

parse-cancel_request_frame_example :
    parse (cancel_request_frame (codes "12345678"))
    ≡ ok (cancel (record { key = record { bytes = codes "12345678" } }))
parse-cancel_request_frame_example =
    parse-cancel_request_frame (codes "12345678") (omega arith) (omega arith)

parse_parameters_total_example :
    parameters_loop (suc (length (codes "nonsense"))) (codes "nonsense") []
    ≡ some (parse_parameters (codes "nonsense"))
parse_parameters_total_example = parse_parameters_total (codes "nonsense")

negotiated_lem_example :
    (major (negotiated (from_code (pos 196617))) ≡ major (from_code (pos 196617)))
    × (minor (negotiated (from_code (pos 196617))) ≡ min (minor (from_code (pos 196617))) 2)
negotiated_lem_example = negotiated_lem (from_code (pos 196617))
