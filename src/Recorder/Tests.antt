-- ===== src/Recorder/Tests.antt =====
-- event/event.go with a database whose second row fails.
use passwd_pot.Common.{codes, List, pos, ◌==◌, if◌then◌else◌, [], ◌∷◌, none, some, length}
use passwd_pot.Api.{Event}
use passwd_pot.Recorder.{BatchDb, record_batch_events}
use passwd_pot.Common.{refl, ◌≡◌}
use passwd_pot.Resolver.Location.{Geo}
use passwd_pot.Recorder.{record_event}
use passwd_pot.Recorder.Columns.{
  Column, number, insert_columns, insert_args, record_in, event_db, mark_in,
}
use passwd_pot.Recorder.Agree.{copied, tagged, record_in-copied}
use passwd_pot.Recorder.Copying.{Leaves, follow, record_batch_events-Leaves}
use passwd_pot.Recorder.Committed.{memory_copies}
use passwd_pot.Recorder.Memory.{Memory, insert_row, update_row, memory_tables}
use passwd_pot.Recorder.Batch.{Explains, all_steps, record_batch_events-Explains}

abbrev guess : Event
guess = record {
  id = 0;
  time = pos 0;
  user = codes "root";
  passwd = codes "toor";
  remote_addr = codes "10.0.0.1";
  remote_geo_id = 0;
  remote_port = pos 22;
  remote_name = [];
  remote_version = [];
  origin_addr = codes "10.0.0.2";
  origin_geo_id = 0;
  application = codes "ftp-passwd-pot";
  protocol = codes "ftp";
}

abbrev faulty : BatchDb
faulty = record {
  begin_fails = none;
  prepare_fails = none;
  exec_fails = λ n e. if n == 1 then some (codes "broken") else none;
  close_fails = none;
  commit_fails = none;
  elapsed = 1;
}

abbrev batch : List Event
batch = guess ∷ guess ∷ guess ∷ []

record_batch_example :
    Explains faulty
      (all_steps batch)
      (length batch)
      (record_batch_events faulty batch).steps
      (record_batch_events faulty batch).result
record_batch_example = record_batch_events-Explains faulty batch

abbrev here_geo : Geo
here_geo = record {
  id = 3;
  ip = codes "10.0.0.1";
  last_update = pos 0;
  country_code = codes "DE";
  region_code = [];
  region_name = [];
  city = codes "Berlin";
  time_zone = [];
  latitude = pos 52;
  longitude = pos 13;
  metro_code = 0;
}

abbrev empty_tables : Memory
empty_tables = record { last = 0; events = λ n. none; geos = here_geo ∷ here_geo ∷ here_geo ∷ [] }

abbrev recorded : Memory
recorded = (insert_row insert_columns (insert_args guess) empty_tables).1

abbrev sender_marked : Memory
sender_marked = (update_row Column.remote_geo_id (number (pos 3)) 1 recorded).1

abbrev both_marked : Memory
both_marked = (update_row Column.origin_geo_id (number (pos 3)) 1 sender_marked).1

same_row_example :
    both_marked.events 1 ≡ some (copied memory_tables (tagged memory_tables guess 3 3) 1)
unfolding record_in record_event event_db mark_in
same_row_example =
    record_in-copied memory_tables guess empty_tables recorded sender_marked both_marked 1 3 3 refl
      refl refl

abbrev working : BatchDb
working = record faulty { exec_fails = λ n e. none }

leaves_example :
    Leaves memory_tables memory_copies working
      (guess ∷ guess ∷ [])
      empty_tables
      (record_batch_events working (guess ∷ guess ∷ [])).result
      (follow memory_tables memory_copies
        (record_batch_events working (guess ∷ guess ∷ [])).steps
        []
        empty_tables)
leaves_example =
    record_batch_events-Leaves memory_tables memory_copies working (guess ∷ guess ∷ []) empty_tables
