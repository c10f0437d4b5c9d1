-- ===== src/Lambda/Ready.antt =====
-- aws/lambda/events.go: what a request finds that passes its guard.
use passwd_pot.Common.{true, Bool, Bytes, Option, none, some, ◌≡◌, Bool}
use passwd_pot.Database.Pool.{Sql, PotDb}
use passwd_pot.Lambda.Boot.{geo_url, single, Globals, single}

module _ (sql : Sql) where
  -- The resolver uses the cache and has a geo client.
  abbrev pub Caching : Globals sql → Type 0
  Caching g =
      (g.event_resolver.use_cache ≡ true)
      × ((url : Bytes) × (g.event_resolver.geo_client ≡ some url))

  -- Both clients have the database, its pool is not nil, and the resolver is as it was made.
  pub record Ready (g : Globals sql) : Type 0 where
    pub pot_db : PotDb sql
    pub pool : sql.Pool
    pub is_open : pot_db.db ≡ some pool
    pub of_events : g.event_client.db ≡ some pot_db
    pub of_resolver : g.event_resolver.db ≡ some pot_db
    pub caching : Caching g

  -- Where there is no setup error, all is ready.
  Guarded : Globals sql → Type 0
  Guarded g = Caching g × (g.setup_error ≡ none → Ready g)

  -- The globals before the first setup.
  abbrev begun : Bytes → Globals sql
  begun geo_server = record {
    db = none;
    setup_error = none;
    event_client = record { db = none };
    event_resolver = record { db = none; geo_client = some (geo_url geo_server); use_cache = true };
  }
