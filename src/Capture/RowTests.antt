-- ===== src/Capture/RowTests.antt =====
-- The batch of Tests, as the batch handler of the gateway stores it.
use mathlib.Core.List.Perm
use passwd_pot.Common.{codes, [], ◌∷◌, none, ok, ◌≡◌, refl, lookup, bytes_eq, insert}
use passwd_pot.Api.{Event}
use passwd_pot.Cache
use passwd_pot.Cache.Memory.{memory}
use passwd_pot.Resolver
use passwd_pot.Resolver.Table.{table}
use passwd_pot.Recorder.{record_batch_events, exec_rows}
use passwd_pot.Lambda.{
  Backend, BatchEvent, State, handle_batch, run_batch, assign, next_id, resolve_addr, store_batch,
  gateway_addr,
}
use passwd_pot.Proxy.{drain, collect}
use passwd_pot.Proxy.Fifo.{fifo}
use passwd_pot.Capture.Guesses.{SendsTried}
use passwd_pot.Recorder.Memory.{Memory, memory_tables}
use passwd_pot.Recorder.Committed.{memory_copies}
use passwd_pot.Capture.Readers.{ReadsTried, handle_batch-ReadsTried}
use passwd_pot.Capture.Tests.{lengths, client, relayed, login}

abbrev sent : SendsTried fifo lengths relayed client
unfolding drain collect
sent = (
  login (codes "root") (codes "b") ∷ login (codes "root") (codes "a") ∷ [],
  refl,
  Perm.swap _ _ [],
  refl,
)

abbrev backend : Backend
backend = record {
  env = table;
  events = record { insert = λ e. ok (ok 1) };
  batches = record {
    begin_fails = none;
    prepare_fails = none;
    exec_fails = λ n e. none;
    close_fails = none;
    commit_fails = none;
    elapsed = 1;
  };
  ping = none;
}

abbrev from_remote : Event → Event
from_remote e = record e { remote_addr = codes "10.0.0.1" }

abbrev gateway_batch : BatchEvent
gateway_batch = record {
  origin_addr = codes "10.0.0.9";
  events =
      from_remote (login (codes "root") (codes "b"))
      ∷ from_remote (login (codes "root") (codes "a"))
      ∷ [];
}

abbrev fine : State memory
fine = record { world = record { cache = []; calls = [] }; setup_error = none }

accepted :
    (handle_batch memory backend gateway_batch fine).0
    ≡ ok (record { duration = 1; rows = 2; last_id = 0 })
unfolding handle_batch run_batch assign next_id resolve_addr store_batch gateway_addr
    record_batch_events exec_rows Resolver.resolve Resolver.resolve_addr Cache.get lookup insert
    bytes_eq
accepted = refl

abbrev no_rows : Memory
no_rows = record { last = 0; events = λ n. none; geos = [] }

readers_example :
    ReadsTried memory_tables memory_copies memory backend gateway_batch fine
      (record { duration = 1; rows = 2; last_id = 0 })
      no_rows
      client
unfolding sent
readers_example =
    handle_batch-ReadsTried memory_tables memory_copies memory fifo lengths relayed client sent
      backend gateway_batch fine (record { duration = 1; rows = 2; last_id = 0 }) no_rows refl
      accepted
