-- ===== src/Direct.antt =====
-- src/proxy/direct.rs: the relay of a backend's startup to the client.
pub mod Message
pub mod Startup
pub mod Serve
use rama_pg.Bytes.{Bytes, i32_at}
use rama_pg.Codec.{RawMessage, tag, payload}
use rama_pg.Codec.Tag
use rama_pg.Exec.{
  Exec, ◌>>=◌, ◌>>◌, and_then, done, fail, lift, Conn, write_all, flush, read_message,
}
use rama_pg.Message.{backend_key_data_raw}
use rama_pg.Pool.{Relay, put_client, put_backend, on_client, on_backend}
use rama_pg.Prelude.Int.{ℤ, pos, eqb_ℤ}
use rama_pg.Prelude.{
  ℕ, zero, suc, List, [], ◌∷◌, ◌++◌, length, Option, none, some, Bool, true, false, not, ltb, ◌==◌,
  if◌then◌else◌, message, Result, ok, err,
}
use rama_pg.Startup.{CancelKey}

-- `auth_subtype` of direct.rs
unfoldable pub auth_subtype : RawMessage → Result ℤ
auth_subtype m =
    if ltb (length (payload m)) 4
    then err (message "authentication message shorter than 4 bytes")
    else ok (i32_at (payload m))

-- The two connections, and the backend's key that was recorded on the cancel handle.
pub record Direct : Type 0 where
  pub relay : Relay
  pub recorded : Option CancelKey

abbrev pub put_relay {ℓ} : {A : Type ℓ} → Direct → Result A × Relay → Result A × Direct
put_relay d (x, r) = (x, record d { relay = r })

abbrev pub to_client : Bytes → Exec Direct (Unit {0})
to_client bs d = put_relay d (on_client (write_all bs) d.relay)

abbrev pub flush_client : Exec Direct (Unit {0})
flush_client d = put_relay d (on_client flush d.relay)

abbrev pub to_backend : Bytes → Exec Direct (Unit {0})
to_backend bs d = put_relay d (on_backend (write_all bs >> flush) d.relay)

abbrev pub from_client : Exec Direct RawMessage
from_client d = put_relay d (on_client read_message d.relay)

abbrev pub from_backend : Exec Direct RawMessage
from_backend d = put_relay d (on_backend read_message d.relay)

abbrev pub set_recorded : CancelKey → Exec Direct (Unit {0})
set_recorded key d = (ok tt, record d { recorded = some key })

-- One client response, unless the challenge was the last.
abbrev pub one_response : Bool → Exec Direct (Unit {0})
one_response true = done tt
one_response false = from_client >>= λ response. to_backend response.frame

-- An `Authentication` message.
abbrev pub authentication : Bool → RawMessage → ℤ → Exec Direct (Unit {0})
authentication interactive m subtype =
    if eqb_ℤ subtype (pos 0)
    then to_client m.frame
    else if interactive
    then (to_client m.frame >> flush_client) >> one_response (eqb_ℤ subtype (pos 12))
    else fail (message "proxy-to-backend auth is not supported in terminate mode")

-- A `BackendKeyData` message.
abbrev pub key_data : Option CancelKey → RawMessage → Exec Direct (Unit {0})
key_data none m = to_client m.frame
key_data (some key) m =
    set_recorded (record { bytes = payload m }) >> to_client (backend_key_data_raw key.bytes)

-- One message of the backend: whether it was the last.
unfoldable pub startup_message : Option CancelKey → Bool → RawMessage → Exec Direct Bool
startup_message client_key interactive m =
    if tag m == Tag.authentication
    then lift (auth_subtype m) >>= (λ subtype. authentication interactive m subtype >> done false)
    else if tag m == Tag.backend_key_data
    then key_data client_key m >> done false
    else if tag m == Tag.ready_for_query
    then (to_client m.frame >> flush_client) >> done true
    else if tag m == Tag.error_response
    then (to_client m.frame >> flush_client) >> fail (message "backend rejected startup")
    else to_client m.frame >> done false

abbrev pub go_on {ℓ} :
    {S : Type ℓ}
    → (S → Option (Result (Unit {0}) × S))
    → Result Bool × S
    → Option (Result (Unit {0}) × S)
go_on next (err e, s) = some (err e, s)
go_on next (ok true, s) = some (ok tt, s)
go_on next (ok false, s) = next s

-- The loop of `relay_startup`, on fuel.
unfoldable pub relay_loop :
    ℕ → Option CancelKey → Bool → Direct → Option (Result (Unit {0}) × Direct)
relay_loop zero client_key interactive d = none
relay_loop (suc n) client_key interactive d =
    go_on (relay_loop n client_key interactive)
      ((from_backend >>= λ m. startup_message client_key interactive m) d)

-- `relay_startup`: every turn reads a message of the backend.
unfoldable pub relay_startup :
    Option CancelKey → Bool → Direct → Option (Result (Unit {0}) × Direct)
relay_startup client_key interactive d =
    relay_loop (suc (length d.relay.backend.input)) client_key interactive d
