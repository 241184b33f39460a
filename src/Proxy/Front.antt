-- ===== src/Proxy/Front.antt =====
-- Which clients reach a forwarder.
use rama_pg.Auth.{Authenticator}
use rama_pg.Bytes.{Bytes, codes}
use rama_pg.Bytes.Search.{starts_with}
use rama_pg.Exec.{◌>>◌, Conn, write_all, write_room, flush}
use rama_pg.Exec.Ensures.{Leaves, and_then-Leaves, Leaves-map}
use rama_pg.Message.{negotiate_protocol_version}
use rama_pg.Proxy.{FrontEnd, rejected, cancelled, forwarded}
use rama_pg.Startup.{major, StartupMessage, negotiated_version, pq_options, startup}
use rama_pg.Prelude.{
  ℕ, zero, suc, [], ◌++◌, append-nil, All, ◌⊎◌, Option, Bool, true, false, ◌≡◌, refl, ap, ◌∙◌, ok,
}

-- The client and the proxy agree as they are: the version stays as it is when it is negotiated, and
-- none of the client's parameters is a protocol option.
abbrev pub Agrees : StartupMessage → Type 0
Agrees m =
    ((negotiated_version m).code ≡ m.protocol_version.code)
    × All (λ parameter. starts_with (codes "_pq_.") parameter.0 ≡ false) m.parameters

-- What the client is told before it is authenticated: nothing where the two agree, or where
-- authentication is passed through, else the negotiated version and its protocol options.
abbrev pub Told : Bool → StartupMessage → Bytes → Type 0
Told false m bs = bs ≡ []
Told true m bs =
    (Agrees m × (bs ≡ []))
    ⊎ (¬ Agrees m × (bs ≡ negotiate_protocol_version (negotiated_version m) (pq_options m)))

-- A client that is forwarded speaks protocol 3, was told of the negotiation, and was then
-- authenticated, with the outcome that the forwarder gets.
abbrev pub Admitted : Authenticator → Option Bytes → Bytes → FrontEnd → Conn → Type 0
Admitted authenticator sni before rejected c' = Unit
Admitted authenticator sni before (cancelled key) c' = Unit
Admitted authenticator sni before (forwarded client) c' =
    (major client.startup_message.protocol_version ≡ 3)
    × (client.protocol_version ≡ negotiated_version client.startup_message)
    × (client.sni ≡ sni)
    × ((c1 : Conn) × (told : Bytes) × Told authenticator.terminates client.startup_message told
        × (c1.sent ≡ before ++ told)
        × (authenticator.authenticate (record { startup = client.startup_message; sni = sni }) c1
            ≡ (ok client.auth, c')))

pub room-Sent :
    (before bs : Bytes) (c : Conn)
    → c.sent ≡ before
    → (n : ℕ) → Leaves (λ u c'. c'.sent ≡ before ++ bs) (write_room n bs c)
room-Sent before bs c h zero = tt
room-Sent before bs c h (suc n) = ap (λ l. l ++ bs) h

pub write_flush-Sent :
    (bs : Bytes) (c : Conn) → Leaves (λ u c'. c'.sent ≡ c.sent ++ bs) ((write_all bs >> flush) c)
write_flush-Sent bs c =
    and_then-Leaves (λ u c'. c'.sent ≡ c.sent ++ bs) _ (write_all bs c) _
      (room-Sent c.sent bs c refl c.room)
      λ u c1 h.
        Leaves-map (λ v c'. c'.sent ≡ (c.sent ++ bs) ++ []) _ _ (λ v c' e. e ∙ append-nil _)
          (room-Sent (c.sent ++ bs) [] c1 h c1.room)

-- Before the authentication.
abbrev Greeted : Bool → StartupMessage → Conn → Unit {0} → Conn → Type 0
Greeted terminates m c u c' = (told : Bytes) × Told terminates m told × (c'.sent ≡ c.sent ++ told)
