-- ===== src/PgBouncer/Config/Settings.antt =====
-- What a configuration file decides.
use rama_pg.Bytes.{Bytes, codes}
use rama_pg.Bytes.Map.{lookup}
use rama_pg.PgBouncer.Config.{
  Section, Config, Outcome, config, section_of, unwrap_or, parse_ini, pool_mode_of, pool_size_of,
  backend_address, from_ini, with_backend, with_connstring, with_databases, refused,
  missing_databases, no_entries, bad_address,
}
use rama_pg.PgBouncer.Config.Lines.{last_in, value-parse_ini}
use rama_pg.Startup.{or_else}
use rama_pg.Prelude.{[], ◌∷◌, ◌++◌, Option, none, some, ◌≡◌, refl, sym, ap, ◌∙◌, ◌⊎◌, inl, inr}

module _ (first_value : Section → Option Bytes) (text : Bytes) where
  abbrev databases : Section
  databases = section_of (codes "databases") (parse_ini text)

  -- The connection string: that of `*`, and without one the value that is met first.
  abbrev pub Chosen : Bytes → Type 0
  Chosen connstring =
      (last_in text (codes "databases") (codes "*") ≡ some connstring)
      ⊎ ((last_in text (codes "databases") (codes "*") ≡ none)
          × (first_value databases ≡ some connstring))

  abbrev pub last_or : Bytes → Bytes → Bytes
  last_or key default = unwrap_or (last_in text (codes "pgbouncer") key) default

  -- The settings of a configuration with this backend.
  abbrev pub settings : Bytes → Config
  settings backend = record {
    listen =
        last_or (codes "listen_addr") (codes "127.0.0.1")
        ++ b':' ∷ last_or (codes "listen_port") (codes "6432");
    backend = backend;
    pool_mode = pool_mode_of (last_in text (codes "pgbouncer") (codes "pool_mode"));
    pool_size = pool_size_of (last_in text (codes "pgbouncer") (codes "default_pool_size"));
    auth_user = last_or (codes "auth_user") (codes "postgres");
    auth_dbname = last_or (codes "auth_dbname") (codes "postgres");
  }

  abbrev pub Configured : Outcome → Type 0
  Configured (config c) =
      (connstring : Bytes) × Chosen connstring
      × (backend_address connstring ≡ some c.backend)
      × (c ≡ settings c.backend)
  Configured (refused missing_databases) =
      (key : Bytes) → last_in text (codes "databases") key ≡ none
  Configured (refused no_entries) =
      (last_in text (codes "databases") (codes "*") ≡ none) × (first_value databases ≡ none)
  Configured (refused (bad_address connstring)) =
      Chosen connstring × (backend_address connstring ≡ none)

  abbrev pg : Section
  pg = section_of (codes "pgbouncer") (parse_ini text)

  backend-Configured :
      (connstring : Bytes) (backend : Option Bytes)
      → Chosen connstring
      → backend_address connstring ≡ backend
      → Configured (with_backend pg connstring backend)
  backend-Configured connstring none chosen e = (chosen, e)
  backend-Configured connstring (some backend) chosen e =
      let read = value-parse_ini text (codes "pgbouncer") in
      (
        connstring,
        chosen,
        e,
        rw
            (
              sym (read (codes "listen_addr")),
              sym (read (codes "listen_port")),
              sym (read (codes "pool_mode")),
              sym (read (codes "default_pool_size")),
              sym (read (codes "auth_user")),
              sym (read (codes "auth_dbname")),
            )
            refl,
      )

  connstring-Configured :
      (wild first : Option Bytes)
      → last_in text (codes "databases") (codes "*") ≡ wild
      → first_value databases ≡ first
      → Configured (with_connstring pg (or_else wild first))
  connstring-Configured (some cs) first w f =
      backend-Configured cs (backend_address cs) (inl w) refl
  connstring-Configured none (some cs) w f =
      backend-Configured cs (backend_address cs) (inr (w, f)) refl
  connstring-Configured none none w f = (w, f)

  databases-Configured :
      (found : Option Section)
      → lookup (codes "databases") (parse_ini text) ≡ found
      → Configured (with_databases first_value pg found)
  databases-Configured none e = λ key.
      sym (value-parse_ini text (codes "databases") key) ∙ ap (λ x. lookup key (unwrap_or x [])) e
  databases-Configured (some section) e =
      let is : databases ≡ section = ap (λ x. unwrap_or x []) e in
      connstring-Configured (lookup (codes "*") section) (first_value section)
        (sym (value-parse_ini text (codes "databases") (codes "*"))
          ∙ ap (λ x. lookup (codes "*") x) is)
        (ap first_value is)

  -- Every file is read to a configuration or refused. In a configuration each setting is that of the
  -- last entry with its key in a `pgbouncer` section, or its default, and the backend is the address
  -- in the last `*` of the `databases` sections or, where there is none, in the value that an
  -- iteration meets first. A file is refused where no entry stands in such a section, where neither
  -- gives a value, and where the value has no address.
  pub from_ini-Configured : Configured (from_ini first_value text)
  unfolding from_ini
  from_ini-Configured = databases-Configured (lookup (codes "databases") (parse_ini text)) refl
