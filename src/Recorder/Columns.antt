-- ===== src/Recorder/Columns.antt =====
-- event/event.go: the columns that `RecordEvent` writes and `GetEvent` reads, over the table and
-- the view of schema/psql/schema_psql.sql.
use passwd_pot.Common.{
  ℕ, ◌==◌, ℤ, pos, Bytes, List, [], ◌∷◌, Option, none, some, Result, ok, if◌then◌else◌, Bool, ◌≡◌,
}
use passwd_pot.Api.{Event}
use passwd_pot.Resolver.{Err}
use passwd_pot.Resolver.Location.{Geo}
use passwd_pot.Recorder.{EventDb, record_event}

-- The columns of the table `event`.
pub data Column : Type 0 where
  id dt username passwd remote_addr remote_geo_id remote_port remote_name remote_version : Column
  origin_addr origin_geo_id application protocol : Column

abbrev pub position : Column → ℕ
position Column.id = 0
position Column.dt = 1
position Column.username = 2
position Column.passwd = 3
position Column.remote_addr = 4
position Column.remote_geo_id = 5
position Column.remote_port = 6
position Column.remote_name = 7
position Column.remote_version = 8
position Column.origin_addr = 9
position Column.origin_geo_id = 10
position Column.application = 11
position Column.protocol = 12

-- What a column holds. A real number is scaled to an integer, as in a `Geo`.
pub data Value : Type 0 where
  null : Value
  number : ℤ → Value
  text : Bytes → Value
  instant : ℤ → Value
  real : ℤ → Value

abbrev pub Row : Type 0
Row = Column → Value

abbrev pub set_column : Column → Value → Row → Row
set_column c v row d = if position c == position d then v else row d

-- The row that an INSERT makes of its columns and arguments: the others are NULL.
abbrev pub given : List Column → List Value → Row
given (c ∷ cs) (v ∷ vs) = set_column c v (given cs vs)
given _ _ = λ d. null

-- An instant is kept as precisely as the column can.
abbrev pub kept : (ℤ → ℤ) → Value → Value
kept precision (instant t) = instant (precision t)
kept precision v = v

-- The database: an inserted row is there under its id, and an update sets one column of the row.
-- The tables `event` and `geo` are looked up by the primary key.
pub record Tables : Type 1 where
  pub Store : Type 0
  pub event : Store → ℕ → Option Row
  pub geo : Store → ℕ → Option Geo
  pub precision : ℤ → ℤ
  pub insert : List Column → List Value → Store → Result Err (Result Err ℕ) × Store
  pub update : Column → Value → ℕ → Store → Option Err × Store
  pub event-insert :
      (cs : List Column) (vs : List Value) (s s' : Store) (n : ℕ)
      → insert cs vs s ≡ (ok (ok n), s')
      → event s' n
        ≡ some (set_column Column.id (number (pos n)) (λ d. kept precision (given cs vs d)))
  pub event-update :
      (c : Column) (v : Value) (s s' : Store) (n : ℕ) (row : Row)
      → update c v n s ≡ (none, s')
      → event s n ≡ some row
      → event s' n ≡ some (set_column c v row)

-- The INSERT of `RecordEvent`.
abbrev pub insert_columns : List Column
insert_columns =
    Column.dt ∷ Column.username ∷ Column.passwd ∷ Column.remote_addr ∷ Column.remote_port
    ∷ Column.remote_name ∷ Column.remote_version ∷ Column.origin_addr ∷ Column.application
    ∷ Column.protocol ∷ []

unfoldable pub insert_args : Event → List Value
insert_args e =
    instant e.time
    ∷ text e.user
    ∷ text e.passwd
    ∷ text e.remote_addr
    ∷ number e.remote_port
    ∷ text e.remote_name
    ∷ text e.remote_version
    ∷ text e.origin_addr
    ∷ text e.application
    ∷ text e.protocol
    ∷ []

-- The columns of the view `event_geo`.
pub data ViewColumn : Type 0 where
  id dt username passwd remote_addr remote_name remote_version remote_port : ViewColumn
  remote_country remote_city origin_addr origin_country origin_city : ViewColumn
  remote_latitude remote_longitude origin_latitude origin_longitude : ViewColumn

-- `coalesce`
abbrev pub coalesce : Option Value → Value → Value
coalesce none v = v
coalesce (some w) v = w

abbrev pub column {ℓ κ} : {A : Type ℓ} {B : Type κ} → (A → B) → Option A → Option B
column f none = none
column f (some x) = some (f x)

module _ (t : Tables) where
  -- What the client of the events is given by the tables.
  unfoldable pub event_db : t.Store → EventDb
  unfolding insert_args
  event_db s = record { insert = λ e. (t.insert insert_columns (insert_args e) s).0 }

  -- `RecordEvent` on the tables.
  unfoldable pub record_in : Event → t.Store → Result Err ℕ × t.Store
  unfolding record_event insert_args event_db
  record_in event s =
      (record_event (event_db s) event, (t.insert insert_columns (insert_args event) s).1)

  -- The UPDATE of `markEvent`.
  unfoldable pub mark_in : ℕ → ℕ → Bool → t.Store → Option Err × t.Store
  mark_in event_id geo_id remote s =
      t.update (if remote then Column.remote_geo_id else Column.origin_geo_id) (number (pos geo_id))
        event_id s

  -- LEFT JOIN geo on the id in a column.
  abbrev pub join : t.Store → Value → Option Geo
  join s (number (pos n)) = t.geo s n
  join s _ = none

  -- The view `event_geo`.
  abbrev pub event_geo : t.Store → Row → ViewColumn → Value
  event_geo s a ViewColumn.id = a Column.id
  event_geo s a ViewColumn.dt = a Column.dt
  event_geo s a ViewColumn.username = a Column.username
  event_geo s a ViewColumn.passwd = a Column.passwd
  event_geo s a ViewColumn.remote_addr = a Column.remote_addr
  event_geo s a ViewColumn.remote_name = a Column.remote_name
  event_geo s a ViewColumn.remote_version = a Column.remote_version
  event_geo s a ViewColumn.remote_port = a Column.remote_port
  event_geo s a ViewColumn.remote_country =
      coalesce (column (λ (b : Geo). text b.country_code) (join s (a Column.remote_geo_id)))
        (text [])
  event_geo s a ViewColumn.remote_city =
      coalesce (column (λ (b : Geo). text b.city) (join s (a Column.remote_geo_id))) (text [])
  event_geo s a ViewColumn.origin_addr = a Column.origin_addr
  event_geo s a ViewColumn.origin_country =
      coalesce (column (λ (c : Geo). text c.country_code) (join s (a Column.origin_geo_id)))
        (text [])
  event_geo s a ViewColumn.origin_city =
      coalesce (column (λ (c : Geo). text c.city) (join s (a Column.origin_geo_id))) (text [])
  event_geo s a ViewColumn.remote_latitude =
      coalesce (column (λ (b : Geo). real b.latitude) (join s (a Column.remote_geo_id)))
        (real (pos 0))
  event_geo s a ViewColumn.remote_longitude =
      coalesce (column (λ (b : Geo). real b.longitude) (join s (a Column.remote_geo_id)))
        (real (pos 0))
  event_geo s a ViewColumn.origin_latitude =
      coalesce (column (λ (c : Geo). real c.latitude) (join s (a Column.origin_geo_id)))
        (real (pos 0))
  event_geo s a ViewColumn.origin_longitude =
      coalesce (column (λ (c : Geo). real c.longitude) (join s (a Column.origin_geo_id)))
        (real (pos 0))
