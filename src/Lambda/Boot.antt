-- ===== src/Lambda/Boot.antt =====
-- aws/lambda/events.go: the globals that `init` and `setup` fill, and what the guards of the
-- handlers say of them.
use passwd_pot.Common.{
  ok, err, contains, codes, bytes_eq, if◌then◌else◌, Bytes, List, [], ◌∷◌, Option, none, some, Bool,
  true, false, bytes_eq, if◌then◌else◌,
}
use passwd_pot.Resolver.{Err}
use passwd_pot.Resolver.Options.{
  ResolveClient, new_resolve_client, use_cache_option, set_geo_client, set_db,
}
use passwd_pot.Recorder.Options
use passwd_pot.Database.Pool.{Sql, PotDb, open_db, ping}

abbrev pub default_dsn : Bytes
default_dsn = codes "postgres://postgres:@127.0.0.1/?sslmode=disable"

-- `geoClient.URL`
abbrev pub geo_url : Bytes → Bytes
geo_url geo_server =
    if bytes_eq geo_server [] then codes "http://geo.passwd-pot.io:8080" else geo_server

-- The part of a request that touches the globals: `Handle` clears the error before the setup,
-- `HandleBatch` does not. Both pass the guard where there is none.
pub data Request : Type 0 where
  single batch : Request

module _ (sql : Sql) where
  -- `eventResolver`; its geo client is the URL that it asks.
  abbrev pub EventResolver : Type 0
  EventResolver = ResolveClient (PotDb sql) Bytes

  -- `db`, `setupError`, `eventClient`, and `eventResolver`.
  pub record Globals : Type 0 where
    pub db : Option (PotDb sql)
    pub setup_error : Option Err
    pub event_client : Options.Client (PotDb sql)
    pub event_resolver : EventResolver

  -- `init` before its `setup`, at the variable `geoServer`. The options that it gives include a geo
  -- client, so that there is no error.
  unfoldable pub init_globals : Bytes → Option Globals
  unfolding new_resolve_client Options.new
  init_globals geo_server =
      let url = geo_url geo_server in
      elim (Options.new (PotDb sql) []) [
        | err e ↦ none
        | ok ec ↦
            elim (new_resolve_client (PotDb sql) Bytes
              (use_cache_option (PotDb sql) Bytes ∷ set_geo_client (PotDb sql) Bytes url ∷ [])) [
                | err e ↦ none
                | ok c ↦ some (record {
                  db = none;
                  setup_error = none;
                  event_client = ec;
                  event_resolver = c;
                })
              ]
      ]

  -- `setup` behind the ping.
  abbrev pub set_up : PotDb sql → Option Err → Globals → Globals
  set_up p (some e) g = record g { db = some p; setup_error = some e }
  set_up p none g = record g {
    db = some p;
    event_client = (Options.set_db (PotDb sql) p g.event_client).0;
    event_resolver = (set_db (PotDb sql) Bytes p g.event_resolver).0;
  }

  -- `db`, opened where there is none; the error of `Open` is not looked at.
  abbrev pub the_db : sql.Moment → Bytes → Option (PotDb sql) → PotDb sql
  unfolding open_db
  the_db now dsn (some p) = p
  the_db now dsn none = (open_db sql now dsn).0

  -- `setup`, at the variable `dsn`; `none` is the panic of the ping at a nil pool.
  unfoldable pub setup : sql.Moment → Bytes → Globals → Option Globals
  unfolding ping
  setup now dsn g =
      let p = the_db now (if bytes_eq dsn [] then default_dsn else dsn) g.db in
      elim (ping sql now p) [ none ↦ none | some e ↦ some (set_up p e g) ]

  abbrev pub cleared : Request → Globals → Globals
  cleared single g = record g { setup_error = none }
  cleared batch g = g

  unfoldable pub guard : sql.Moment → Bytes → Request → Globals → Option (Bool × Globals)
  unfolding setup
  guard now dsn r g = elim g.setup_error [
    | none ↦ some (true, g)
    | some e ↦ elim (setup now dsn (cleared r g)) [ none ↦ none | some g' ↦ some (false, g') ]
  ]

  -- `init` and then some requests; `none` where the process has panicked.
  unfoldable pub serve_from : Bytes → List (sql.Moment × Request) → Globals → Option Globals
  unfolding guard
  serve_from dsn [] g = some g
  serve_from dsn ((now, r) ∷ rs) g = elim (guard now dsn r g) [
    | none ↦ none
    | some (passed, g') ↦ serve_from dsn rs g'
  ]

  unfoldable pub serve : sql.Moment → Bytes → Bytes → List (sql.Moment × Request) → Option Globals
  unfolding setup init_globals serve_from
  serve now dsn geo_server rs = elim (init_globals geo_server) [
    | none ↦ none
    | some begun ↦ elim (setup now dsn begun) [ none ↦ none | some g ↦ serve_from dsn rs g ]
  ]

-- `main`: the handler that the name of the function asks for.
pub data Handler : Type 0 where
  handle_batch handle_geo_lookup handle : Handler

unfoldable pub main : Bytes → Handler
unfolding contains
main function_name =
    if contains function_name (codes "batch")
    then handle_batch
    else if contains function_name (codes "geolookup")
    then handle_geo_lookup
    else handle
