-- ===== src/Database/Pool.antt =====
-- potdb/db.go: the connection pool, and the statements that are passed on to it.
use passwd_pot.Common.{
  ℕ, ℤ, negsuc, Bytes, codes, contains, Bool, Option, none, some, Result, ok, err, if◌then◌else◌,
}
use passwd_pot.Resolver.{Err}
use passwd_pot.Database.{is_mysql, replace_params}

-- `database/sql`: `Open` of a driver by its name, and `Ping`, whose answers may differ from one
-- moment to another. A pool is not nil beside a nil error, and nil beside an error.
pub record Sql : Type 1 where
  pub Pool : Type 0
  pub Moment : Type 0
  pub open_db : Moment → Bytes → Bytes → Result Err Pool
  pub ping : Moment → Pool → Option Err

module _ (sql : Sql) where
  -- `potDB`, whose pool may be nil.
  pub record PotDb : Type 0 where
    pub db : Option sql.Pool
    pub mysql : Bool

  -- `loadDSN`: a pool that does not answer its ping is returned beside the error.
  unfoldable pub load_dsn : sql.Moment → Bytes → Option sql.Pool × Option Err
  unfolding contains
  load_dsn now dsn =
      let opened =
        if contains dsn (codes "postgres")
        then sql.open_db now (codes "postgres") dsn
        else sql.open_db now (codes "mysql") dsn in
      elim opened [ err e ↦ (none, some e) | ok db ↦ (some db, sql.ping now db) ]

  -- `Open`, which returns a wrapper in any case.
  unfoldable pub open_db : sql.Moment → Bytes → PotDb × Option Err
  unfolding load_dsn is_mysql
  open_db now dsn = let (db, e) = load_dsn now dsn in (record { db = db; mysql = is_mysql dsn }, e)

  -- `Ping`; `none` is the panic at a nil pool.
  unfoldable pub ping : sql.Moment → PotDb → Option (Option Err)
  ping now p = elim p.db [ none ↦ none | some db ↦ some (sql.ping now db) ]

-- `Exec`, `Query` and `QueryRow`: the statement that the pool is given.
unfoldable pub passed_on : Bool → Bytes → Bytes
unfolding replace_params
passed_on mysql query = replace_params mysql query

-- `psqlDialect`, the result of an insert: its id, and -1 for the number of rows.
pub record PsqlDialect : Type 0 where
  pub id : ℕ

abbrev pub last_insert_id : PsqlDialect → Result Err ℕ
last_insert_id psql = ok psql.id

abbrev pub rows_affected : PsqlDialect → Result Err ℤ
rows_affected psql = ok (negsuc 0)
