-- ===== src/Route.antt =====
-- src/route.rs: the static router.
use rama_pg.Bytes.{Bytes, eqb}
use rama_pg.Bytes.Map.{lookup, insert, lookup-insert, lookup-insert_other}
use rama_pg.Prelude.{List, [], Option, none, some, false, ◌≡◌, refl}
use rama_pg.Startup.{or_else}

pub record Backend : Type 0 where
  pub address : Bytes

pub record Router : Type 0 where
  pub routes : List (Bytes × Backend)
  pub default : Option Backend

abbrev pub new : Router
new = record { routes = []; default = none }

unfoldable pub with_default : Router → Backend → Router
with_default r backend = record r { default = some backend }

unfoldable pub with_route : Router → Bytes → Backend → Router
with_route r sni backend = record r { routes = insert sni backend r.routes }

abbrev lookup_sni : Option Bytes → List (Bytes × Backend) → Option Backend
lookup_sni none routes = none
lookup_sni (some name) routes = lookup name routes

unfoldable pub route : Router → Option Bytes → Option Backend
route r sni = or_else (lookup_sni sni r.routes) r.default

-- A route decides its own name, whatever the default, and no other.
pub route-with_route :
    (r : Router) (sni : Bytes) (backend : Backend)
    → (route (with_route r sni backend) (some sni) ≡ some backend)
      × ((other : Bytes)
          → eqb sni other ≡ false
          → route (with_route r sni backend) (some other) ≡ route r (some other))
      × (route (with_route r sni backend) none ≡ r.default)
unfolding route with_route
route-with_route r sni backend = (
  rw (lookup-insert sni backend r.routes),
  λ other h. rw (lookup-insert_other sni other backend r.routes h),
  refl,
)
