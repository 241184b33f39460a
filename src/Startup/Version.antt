-- ===== src/Startup/Version.antt =====
-- Version negotiation, and what the proxy reads off a version code.
use rama_pg.Prelude.Int.{to_i32, from_i32}
use rama_pg.Prelude.{ℕ, ◌+◌, ◌*◌, ◌%◌, ◌^◌, ◌<◌, ◌≡◌, min, arith}
use rama_pg.Startup.{ProtocolVersion, major, minor, negotiated}

from_i32-to_i32 : (w : ℕ) → w < 2 ^ 32 → from_i32 (to_i32 w) ≡ w
from_i32-to_i32 w h = ground arith

-- Negotiation keeps the client's major version and lowers its minor version to at most 2.
pub negotiated_lem :
    (v : ProtocolVersion)
    → (major (negotiated v) ≡ major v) × (minor (negotiated v) ≡ min (minor v) 2)
unfolding negotiated
negotiated_lem v =
    let w = major v * 2 ^ 16 % 2 ^ 32 + min (minor v) 2 in
    unfold major minor in omega (arith, from_i32-to_i32 w (unfold major minor in omega arith))
