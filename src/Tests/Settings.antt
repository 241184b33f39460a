-- ===== src/Tests/Settings.antt =====
-- The configuration file of the tests of config.rs.
use rama_pg.Bytes.{Bytes, codes}
use rama_pg.PgBouncer.Config.{
  Section, config, refused, missing_databases, from_ini, parse_ini, take_lines, take_line,
  read_line, lines, strip_suffix, backend_address, split_whitespace,
}
use rama_pg.PgBouncer.Config.Settings.{Configured, from_ini-Configured}
use rama_pg.Bytes.Search.{split, split_once, strip_prefix, starts_with}
use rama_pg.Query.{trim}
use rama_pg.Decimal.{parse_uint}
use rama_pg.Pool.{statement}
use rama_pg.Prelude.{[], ◌∷◌, ◌++◌, Option, none, some, ◌≡◌, refl}

abbrev first_value : Section → Option Bytes
first_value [] = none
first_value ((key, value) ∷ rest) = some value

abbrev text : Bytes
text =
    codes "[databases]\n shop = host=10.0.0.1 port=5433\n * = host=127.0.0.1 port=5434\n\n"
    ++ (codes "[pgbouncer]\n listen_port = 7000\n pool_mode = statement\n"
        ++ codes "default_pool_size = 25\n auth_user = admin\n ; a comment\n")

parses_pgbouncer_ini :
    from_ini first_value text
    ≡ config (record {
      listen = codes "127.0.0.1:7000";
      backend = codes "127.0.0.1:5434";
      pool_mode = statement;
      pool_size = 25;
      auth_user = codes "admin";
      auth_dbname = codes "postgres";
    })
unfolding from_ini parse_ini take_lines take_line read_line lines split trim strip_suffix
    strip_prefix starts_with split_once backend_address split_whitespace parse_uint
parses_pgbouncer_ini = refl

requires_databases_section :
    from_ini first_value (codes "[pgbouncer]\nlisten_port = 6432") ≡ refused missing_databases
unfolding from_ini parse_ini take_lines take_line read_line lines split trim strip_suffix
    strip_prefix starts_with split_once
requires_databases_section = refl

from_ini-Configured_example : Configured first_value text (from_ini first_value text)
from_ini-Configured_example = from_ini-Configured first_value text
