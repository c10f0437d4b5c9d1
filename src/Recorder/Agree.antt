-- ===== src/Recorder/Agree.antt =====
-- event/event.go: the row of an event that is recorded alone, and of one in a batch.
use passwd_pot.Common.{ℕ, pos, true, false, List, [], ◌∷◌, none, some, ok, ◌≡◌, refl, ap, ◌∙◌}
use mathlib.Core.Path.{fun_ext}
use passwd_pot.Api.{Event}
use passwd_pot.Recorder.Columns.{
  Column, Value, number, text, instant, Row, set_column, given, kept, Tables, insert_args,
  record_in, mark_in,
}
use passwd_pot.Recorder.Reading.{written, record_in-event}

-- The columns of the COPY of `RecordBatchEvents`.
abbrev pub copy_columns : List Column
copy_columns =
    Column.dt ∷ Column.username ∷ Column.passwd ∷ Column.remote_addr ∷ Column.remote_geo_id
    ∷ Column.remote_port ∷ Column.remote_name ∷ Column.remote_version ∷ Column.origin_addr
    ∷ Column.origin_geo_id ∷ Column.application ∷ Column.protocol ∷ []

-- The arguments of `stmt.Exec` for an event.
unfoldable pub copy_args : Event → List Value
copy_args e =
    instant e.time
    ∷ text e.user
    ∷ text e.passwd
    ∷ text e.remote_addr
    ∷ number (pos e.remote_geo_id)
    ∷ number e.remote_port
    ∷ text e.remote_name
    ∷ text e.remote_version
    ∷ text e.origin_addr
    ∷ number (pos e.origin_geo_id)
    ∷ text e.application
    ∷ text e.protocol
    ∷ []

module _ (t : Tables) where
  -- The row that the database makes of it, with the next id.
  unfoldable pub copied : Event → ℕ → Row
  unfolding copy_args
  copied event id =
      set_column Column.id (number (pos id))
        (λ d. kept t.precision (given copy_columns (copy_args event) d))

  -- The event with both ids of locations.
  abbrev pub tagged : Event → ℕ → ℕ → Event
  tagged event r o = record event { remote_geo_id = r; origin_geo_id = o }

  pub marked-copied :
      (event : Event) (id r o : ℕ) (c : Column)
      → set_column Column.origin_geo_id
          (number (pos o))
          (set_column Column.remote_geo_id (number (pos r)) (written t event id))
          c
        ≡ copied (tagged event r o) id c
  unfolding copied copy_args insert_args
  marked-copied event id r o Column.id = refl
  marked-copied event id r o Column.dt = refl
  marked-copied event id r o Column.username = refl
  marked-copied event id r o Column.passwd = refl
  marked-copied event id r o Column.remote_addr = refl
  marked-copied event id r o Column.remote_geo_id = refl
  marked-copied event id r o Column.remote_port = refl
  marked-copied event id r o Column.remote_name = refl
  marked-copied event id r o Column.remote_version = refl
  marked-copied event id r o Column.origin_addr = refl
  marked-copied event id r o Column.origin_geo_id = refl
  marked-copied event id r o Column.application = refl
  marked-copied event id r o Column.protocol = refl

  -- The two ways to the table agree: an event that is recorded alone, and that both updates of the
  -- resolver mark, leaves the row that a batch writes for it with the same two ids of locations.
  pub record_in-copied :
      (event : Event) (s s1 s2 s3 : t.Store) (id r o : ℕ)
      → record_in t event s ≡ (ok id, s1)
      → mark_in t id r true s1 ≡ (none, s2)
      → mark_in t id o false s2 ≡ (none, s3)
      → t.event s3 id ≡ some (copied (tagged event r o) id)
  unfolding mark_in
  record_in-copied event s s1 s2 s3 id r o recorded marked_r marked_o =
      let e1 = record_in-event t event s s1 id recorded in
      let e2 = t.event-update Column.remote_geo_id (number (pos r)) s1 s2 id _ marked_r e1 in
      t.event-update Column.origin_geo_id (number (pos o)) s2 s3 id _ marked_o e2
      ∙ ap some (fun_ext (marked-copied event id r o))
