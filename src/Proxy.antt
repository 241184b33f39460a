-- ===== src/Proxy.antt =====
-- src/proxy/mod.rs: the front of the proxy, up to the forwarder. TLS itself is not modelled: a
-- connection that is handed to it is an end of the plaintext part.
pub mod Front
pub mod Plaintext
use rama_pg.Auth.{AuthContext, Authenticator, ClientAuth}
use rama_pg.Bytes.{Bytes, codes, eqb}
use rama_pg.Exec.{Exec, ◌>>=◌, ◌>>◌, done, lift, Conn, write_all, flush}
use rama_pg.Message.{
  authentication_ok, backend_key_data_raw, fatal_error, negotiate_protocol_version, ready_for_query,
}
use rama_pg.Startup.{
  ProtocolVersion, major, StartupMessage, negotiated_version, pq_options, CancelKey, StartupRequest,
  ssl, gss_enc, cancel, startup, parse, read_startup_frame,
}
use rama_pg.Prelude.Int.{eqb_ℤ}
use rama_pg.Prelude.{
  ℕ, zero, suc, List, [], ◌∷◌, ◌++◌, length, Option, none, some, Bool, true, false, not, ◌||◌, ◌==◌,
  if◌then◌else◌, flatten, Result, ok, err,
}
use rama_pg.Stream.{Reader, put_back}
use Prim.Native.String.{String}

-- `reject`
unfoldable pub reject : Bytes → Bytes → Exec Conn (Unit {0})
reject code text = do write_all (fatal_error code text); flush

abbrev pub write_params : List Bytes → Exec Conn (Unit {0})
write_params [] = done tt
write_params (p ∷ ps) = write_all p >> write_params ps

-- `synthesize_startup`
unfoldable pub synthesize_startup : List Bytes → Bytes → Exec Conn (Unit {0})
synthesize_startup params cancel_key = do
  write_all authentication_ok
  write_params params
  write_all (backend_key_data_raw cancel_key)
  write_all (ready_for_query b'I')
  flush

abbrev pub left {ℓ} : {A : Type ℓ} → Result A × Reader → Conn → Result A × Conn
left (x, r) c = (x, record c { input = flatten r })

-- `read_startup_frame` on a connection; how its bytes come in chunks makes no difference.
abbrev pub startup_frame : Exec Conn Bytes
startup_frame c = left (read_startup_frame (put_back c.input [])) c

abbrev pub startup_request : Exec Conn StartupRequest
startup_request = startup_frame >>= λ frame. lift (parse frame)

-- What a forwarder is given.
pub record PgClient : Type 0 where
  pub startup_message : StartupMessage
  pub protocol_version : ProtocolVersion
  pub sni : Option Bytes
  pub auth : ClientAuth

-- How the front of a session ends, where it does not fail.
pub data FrontEnd : Type 0 where
  rejected : FrontEnd
  cancelled : CancelKey → FrontEnd
  forwarded : PgClient → FrontEnd

abbrev pub is_nil {ℓ} : {A : Type ℓ} → List A → Bool
is_nil [] = true
is_nil (x ∷ xs) = false

-- `negotiated != startup.protocol_version() || !unsupported.is_empty()`
unfoldable pub must_negotiate : StartupMessage → Bool
must_negotiate m =
    not (eqb_ℤ (negotiated_version m).code m.protocol_version.code) || not (is_nil (pq_options m))

-- The negotiation, which only a proxy that terminates authentication takes part in.
unfoldable pub negotiate : Bool → StartupMessage → Exec Conn (Unit {0})
negotiate false m = done tt
negotiate true m =
    if must_negotiate m
    then (write_all (negotiate_protocol_version (negotiated_version m) (pq_options m)) >> flush)
    else done tt

-- The session of a `StartupMessage`.
unfoldable pub admit : Authenticator → Option Bytes → StartupMessage → Exec Conn FrontEnd
admit authenticator sni m =
    if not (major m.protocol_version == 3)
    then reject (codes "0A000") (codes "rama-pg: unsupported protocol major version")
      >> done rejected
    else (do
      negotiate authenticator.terminates m
      auth ← authenticator.authenticate (record { startup = m; sni = sni })
      done (
          forwarded (record {
            startup_message = m;
            protocol_version = negotiated_version m;
            sni = sni;
            auth = auth;
          })))

abbrev pub front_request : Authenticator → Option Bytes → StartupRequest → Exec Conn FrontEnd
front_request authenticator sni (startup m) = admit authenticator sni m
front_request authenticator sni (cancel request) = done (cancelled request.key)
front_request authenticator sni ssl =
    reject (codes "08P01") (codes "unexpected message after TLS handshake") >> done rejected
front_request authenticator sni gss_enc =
    reject (codes "08P01") (codes "unexpected message after TLS handshake") >> done rejected

-- `PgSession::serve`, up to the forwarder or the cancellation provider.
unfoldable pub front : Authenticator → Option Bytes → Exec Conn FrontEnd
front authenticator sni = startup_request >>= front_request authenticator sni

-- How the plaintext part of a connection ends, where it does not fail.
pub data PlainEnd : Type 0 where
  to_tls : PlainEnd
  refused : PlainEnd
  cancel_plain : CancelKey → PlainEnd

-- One request in the clear: an end, or nothing where the loop goes on.
abbrev pub plain_request : StartupRequest → Exec Conn (Option PlainEnd)
plain_request ssl = (write_all (b'S' ∷ []) >> flush) >> done (some to_tls)
plain_request gss_enc = (write_all (b'N' ∷ []) >> flush) >> done none
plain_request (startup m) =
    reject (codes "08004")
      (codes "rama-pg requires a TLS connection (use sslmode=require or higher)")
    >> done (some refused)
plain_request (cancel request) = done (some (cancel_plain request.key))

abbrev pub again :
    (Conn → Option (Result PlainEnd × Conn))
    → Result (Option PlainEnd) × Conn
    → Option (Result PlainEnd × Conn)
again next (err e, c) = some (err e, c)
again next (ok (some end), c) = some (ok end, c)
again next (ok none, c) = next c

-- The loop of `PgProxy::serve`, on fuel.
unfoldable pub plain_loop : ℕ → Conn → Option (Result PlainEnd × Conn)
plain_loop zero c = none
plain_loop (suc n) c = again (plain_loop n) ((startup_request >>= plain_request) c)

-- The first byte of a TLS handshake record.
abbrev pub starts_tls : Bytes → Bool
starts_tls [] = false
starts_tls (b ∷ bs) = b == 22

-- `PgProxy::serve`, with what it peeks.
unfoldable pub serve : Conn → Option (Result PlainEnd × Conn)
serve c =
    let loop = plain_loop (suc (length c.input)) c in
    if starts_tls c.input then some (ok to_tls, c) else loop
