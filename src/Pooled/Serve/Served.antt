-- ===== src/Pooled/Serve/Served.antt =====
-- What holds whenever a pooled session waits, and when it ends.
use rama_pg.Bytes.{Bytes}
use rama_pg.Codec.{RawMessage}
use rama_pg.Codec.Tag
use rama_pg.Exec.{Conn}
use rama_pg.Pool.Leases.{Lease, lease_cancel, Connector}
use rama_pg.Pooled.Idle.{EndsWith, Idles}
use rama_pg.Pooled.Serve.{Progress, pending, over}
use rama_pg.Pooled.Serve.Clean.{KeepsClean}
use rama_pg.Prelude.{List, Option, none, some, ◌≡◌, Result}

-- A lease is fit again whose backend ended on an idle `ReadyForQuery`, was then sent the reset query
-- last, and answered with no error up to one more idle `ReadyForQuery`.
abbrev pub ResetsFit : Option Bytes → (Lease → Type 0) → Type 0
ResetsFit reset Fit =
    (l : Lease) (conn : Conn) (all rest : List (Result (Option RawMessage)))
    → Idles reset all rest
    → EndsWith reset conn.sent
    → Fit (record l { conn = conn })

module _ {Idle : Type 0} (connector : Connector Idle) (Clean : Idle → Type 0) (Fit : Lease → Type 0)
    (keeps : KeepsClean connector Clean Fit) where
  -- The session has not run out of fuel. Where it waits, the cancel handle points at the backend that
  -- it has leased, if any, and at none else; when it has ended the handle points at nothing. The pool
  -- is clean throughout.
  abbrev pub IsServed : Option (Progress Idle) → Type 0
  IsServed none = ⊥
  IsServed (some (pending none s)) = (s.target ≡ none) × Clean s.pool.idle
  IsServed (some (pending (some l) s)) = (s.target ≡ lease_cancel l) × Clean s.pool.idle
  IsServed (some (over x es s)) = (s.target ≡ none) × Clean s.pool.idle
