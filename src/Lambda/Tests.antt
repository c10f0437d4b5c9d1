-- ===== src/Lambda/Tests.antt =====
-- aws/lambda/events.go with the database and service of Resolver/Table.
use passwd_pot.Database.Pool.{Sql, PotDb, open_db, ping}
use passwd_pot.Lambda.Boot.{Globals}
use passwd_pot.Lambda.Ready.{Ready}
use passwd_pot.Common.{true, zero, suc, refl, true, ℕ, Option}
use passwd_pot.Common.{
  Bytes, codes, pos, [], ◌∷◌, ◌≡◌, refl, ok, bytes_eq, lookup, none, some, List,
}
use passwd_pot.Api.{Event}
use passwd_pot.Cache
use passwd_pot.Cache.Memory.{memory}
use passwd_pot.Resolver
use passwd_pot.Resolver.{World, resolve_event}
use passwd_pot.Resolver.Table.{table}
use passwd_pot.Lambda.{Backend, BatchEvent, State, resolve_addr, handle_batch}
use passwd_pot.Recorder.Columns.{insert_columns, insert_args}
use passwd_pot.Recorder.Memory.{Memory, insert_row}
use passwd_pot.Lambda.Stored.{received, IsStored, handle_batch-IsStored}

abbrev pub guess_from : Bytes → Event
guess_from addr = record {
  id = 0;
  time = pos 0;
  user = codes "root";
  passwd = codes "toor";
  remote_addr = addr;
  remote_geo_id = 0;
  remote_port = pos 22;
  remote_name = [];
  remote_version = [];
  origin_addr = [];
  origin_geo_id = 0;
  application = codes "ftp-passwd-pot";
  protocol = codes "ftp";
}

abbrev pub a : Bytes
a = codes "10.0.0.1"

abbrev pub b : Bytes
b = codes "10.0.0.2"

abbrev pub start : World memory
start = record { cache = []; calls = [] }

resolve_a : resolve_addr memory table a start ≡ (ok 3, (resolve_addr memory table a start).1)
unfolding resolve_addr Resolver.resolve Resolver.resolve_addr Cache.get lookup bytes_eq
resolve_a = refl

resolve_b :
    resolve_addr memory table b (resolve_addr memory table a start).1
    ≡ (ok 6, (resolve_addr memory table b (resolve_addr memory table a start).1).1)
unfolding resolve_addr Resolver.resolve Resolver.resolve_addr Cache.get lookup bytes_eq
resolve_b = refl

abbrev pub backend : Backend
backend = record {
  env = table;
  events = record { insert = λ e. ok (ok 1) };
  batches = record {
    begin_fails = none;
    prepare_fails = none;
    exec_fails = λ n e. none;
    close_fails = none;
    commit_fails = none;
    elapsed = 1;
  };
  ping = none;
}

abbrev a_batch : BatchEvent
a_batch = record { origin_addr = b; events = guess_from a ∷ [] }

abbrev stuck : State memory
stuck = record { world = start; setup_error = some (codes "down") }

-- Two events of one address and then one of another.
abbrev pub grouped : List Event
grouped = guess_from a ∷ guess_from a ∷ guess_from b ∷ []

abbrev pub fine : State memory
fine = record { world = start; setup_error = none }

abbrev pub three : BatchEvent
three = record { origin_addr = b; events = grouped }

batch_example : IsStored memory backend three fine.world (handle_batch memory backend three fine).0
batch_example = handle_batch-IsStored memory backend three fine

-- A database that is down at first. The batch finds it back but leaves the error, which the single
-- event then clears.
abbrev answers_later : ℕ → ℕ → Option Bytes
answers_later zero pool = some (codes "down")
answers_later (suc now) pool = none

abbrev late : Sql
late = record { Pool = ℕ; Moment = ℕ; open_db = λ now driver dsn. ok 1; ping = answers_later }

abbrev opened : PotDb late
opened = record { db = some 1; mysql = true }

abbrev all_set : Globals late
all_set = record {
  db = some opened;
  setup_error = none;
  event_client = record { db = some opened };
  event_resolver = record {
    db = some opened;
    geo_client = some (codes "http://geo.passwd-pot.io:8080");
    use_cache = true;
  };
}

abbrev pub empty_tables : Memory
empty_tables = record { last = 0; events = λ n. none; geos = [] }

abbrev pub from_a : Event
from_a = received memory (guess_from a)

abbrev pub one_row : Memory
one_row = (insert_row insert_columns (insert_args from_a) empty_tables).1
