-- ===== src/Lambda/Stores.antt =====
-- aws/lambda/events.go: one database below the handlers: the client of the events and the resolver
-- use the same tables.
use passwd_pot.Common.{ℕ, ◌==◌, Bytes, false, [], ◌∷◌, Option, Result, ◌≡◌}
use passwd_pot.Resolver.{
  Err, History, Env, select_geo, get_location, insert_geo, touch_geo, mark_event, Row,
}
use passwd_pot.Resolver.Location.{Geo}
use passwd_pot.Recorder.{BatchDb}
use passwd_pot.Recorder.Columns.{Column, Value, Tables, mark_in, event_db}
use passwd_pot.Lambda.{Backend}

-- The tables with the statements of the resolver. Those for `geo` leave the rows of `event` alone,
-- and an update changes one row.
pub record Schema : Type 1 where
  pub tables : Tables
  pub select : Bytes → tables.Store → Row
  pub insert_location : Geo → tables.Store → Result Err (Result Err ℕ) × tables.Store
  pub touch : ℕ → tables.Store → Option Err × tables.Store
  pub event-insert_location :
      (g : Geo) (s : tables.Store) (n : ℕ)
      → tables.event (insert_location g s).1 n ≡ tables.event s n
  pub event-touch :
      (id : ℕ) (s : tables.Store) (n : ℕ) → tables.event (touch id s).1 n ≡ tables.event s n
  pub event-update-other :
      (c : Column) (v : Value) (m n : ℕ) (s : tables.Store)
      → (m == n) ≡ false
      → tables.event (tables.update c v m s).1 n ≡ tables.event s n

module _ (d : Schema) where
  -- The tables behind some calls of the resolver.
  unfoldable pub replay : d.tables.Store → History → d.tables.Store
  unfolding mark_in
  replay s [] = s
  replay s (select_geo a ∷ h) = replay s h
  replay s (get_location a ∷ h) = replay s h
  replay s (insert_geo g ∷ h) = (d.insert_location g (replay s h)).1
  replay s (touch_geo id ∷ h) = (d.touch id (replay s h)).1
  replay s (mark_event remote geo_id id ∷ h) = (mark_in d.tables id geo_id remote (replay s h)).1

  -- The resolver on the tables as they are at first, with the geo service and the clock of `env`.
  unfoldable pub over_tables : d.tables.Store → Env → Env
  unfolding replay mark_in
  over_tables s env = record env {
    select = λ h a. d.select a (replay s h);
    insert = λ h g. (d.insert_location g (replay s h)).0;
    touch = λ h id. (d.touch id (replay s h)).0;
    mark = λ h remote geo_id id. (mark_in d.tables id geo_id remote (replay s h)).0;
  }

  -- The handlers on the tables: the event is inserted into `s`, which leaves `s1` to the resolver.
  abbrev pub backend_over : d.tables.Store → d.tables.Store → Env → BatchDb → Option Err → Backend
  backend_over s s1 env batches ping = record {
    env = over_tables s1 env;
    events = event_db d.tables s;
    batches = batches;
    ping = ping;
  }
