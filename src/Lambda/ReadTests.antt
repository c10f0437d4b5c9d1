-- ===== src/Lambda/ReadTests.antt =====
-- aws/lambda/events.go on tables in memory: an event is handled and read.
use passwd_pot.Common.{
  insert, ap, inl, inr, ℕ, lookup, bytes_eq, false, true, none, [], ok, Result, ◌≡◌, refl, arith,
  List, ◌∷◌,
}
use passwd_pot.Cache
use passwd_pot.Cache.Memory.{memory}
use passwd_pot.Resolver
use passwd_pot.Resolver.{resolve_event}
use passwd_pot.Resolver.Shared.{both_cached}
use passwd_pot.Resolver.Table.{table}
use passwd_pot.Recorder.{record_event, record_batch_events, exec_rows}
use passwd_pot.Recorder.Memory.{Memory, geo_at}
use passwd_pot.Recorder.Committed.{place, place_one, memory_copies}
use passwd_pot.Lambda.ReadBack.{Took, ReadsBack, handle-ReadsBack}
use passwd_pot.Lambda.Traced.{Sound}
use passwd_pot.Lambda.BatchLocated.{KeepsGeo, batch_backend, BatchReads, handle_batch-BatchReads}
use passwd_pot.Recorder.Columns.{Value, record_in, event_db, mark_in}
use passwd_pot.Lambda.{
  resolve_addr, handle_batch, run_batch, assign, next_id, store_batch, gateway_addr, State,
  ApiError, handle, store_event,
}
use passwd_pot.Lambda.Stores.{backend_over, over_tables, replay}
use passwd_pot.Lambda.Located.{
  Held, Answers, tables-HoldsRows, numbered, ReadsLocated, handle-ReadsLocated,
}
use passwd_pot.Lambda.Shared.{memory_schema, memory-Lasting}
use passwd_pot.Lambda.Tests.{three, guess_from, a, fine, backend, empty_tables, from_a, one_row}

abbrev run : Result ApiError ℕ × State memory
run =
    handle memory (backend_over memory_schema empty_tables one_row table backend.batches none)
      (guess_from a) fine

uncached : both_cached memory (numbered memory_schema memory (guess_from a) 1) fine.world ≡ false
unfolding Cache.get lookup
uncached = refl

quiet :
    (resolve_event memory true
      (over_tables memory_schema one_row table)
      (numbered memory_schema memory (guess_from a) 1)
      fine.world).0.1
    ≡ []
unfolding resolve_event Resolver.resolve_addr Cache.get lookup over_tables replay mark_in bytes_eq
    gateway_addr
quiet = refl

located_example :
    (run.0 ≡ ok 1)
    × ReadsLocated memory_schema from_a 1 (replay memory_schema one_row run.1.world.calls)
unfolding record_in record_event event_db
located_example =
    handle-ReadsLocated memory_schema memory table backend.batches none (guess_from a) fine
      empty_tables one_row 1 memory-Lasting (λ x g h e. cc) (λ h. cc) refl refl refl
      (λ h. omega arith) uncached quiet

place-geos : (rows : List (List Value)) (s : Memory) → (place rows s).1.geos ≡ s.geos
unfolding place
place-geos [] s = refl
place-geos (vs ∷ rows) s = place-geos rows (place_one vs s)

copies-KeepsGeo : KeepsGeo memory_schema memory_copies
copies-KeepsGeo rows s n = (ap (λ gs. geo_at gs n) (place-geos rows s), refl)

answers : Answers memory_schema table
answers x g h e = cc

empty-Sound :
    Sound memory
      (over_tables memory_schema empty_tables table)
      (Held memory_schema memory-Lasting empty_tables table)
      (tables-HoldsRows memory_schema memory-Lasting empty_tables table answers)
      fine.world
unfolding Cache.get lookup
empty-Sound x id e = absurd (cc)

batch_done :
    (handle_batch memory
      (batch_backend memory_schema memory_copies empty_tables table backend.events backend.batches
        none)
      three
      fine).0
    ≡ ok (record { duration = 1; rows = 3; last_id = 0 })
unfolding handle_batch run_batch assign next_id resolve_addr store_batch gateway_addr
    record_batch_events exec_rows Resolver.resolve Resolver.resolve_addr Cache.get lookup insert
    bytes_eq over_tables replay
batch_done = refl

batch_read_example :
    BatchReads memory_schema memory_copies memory
      (batch_backend memory_schema memory_copies empty_tables table backend.events backend.batches
        none)
      three
      fine.world
      (record { duration = 1; rows = 3; last_id = 0 })
      (replay memory_schema empty_tables
        (handle_batch memory
          (batch_backend memory_schema memory_copies empty_tables table backend.events
            backend.batches none)
          three
          fine).1.world.calls)
batch_read_example =
    handle_batch-BatchReads memory_schema memory_copies memory empty_tables table backend.events
      backend.batches none three fine (record { duration = 1; rows = 3; last_id = 0 })
      memory-Lasting answers copies-KeepsGeo refl empty-Sound
      (inr tt, (inl refl, (inr ((λ h. ground arith), ((λ h. ground arith), tt)), tt))) batch_done

updated : Took memory_schema one_row run.1.world.calls
unfolding Took handle store_event record_event event_db resolve_event Resolver.resolve_addr
    Cache.get lookup over_tables replay mark_in bytes_eq gateway_addr
updated = (refl, (refl, tt))

handled_event_example :
    (run.0 ≡ ok 1)
    × ReadsBack memory_schema from_a 1 run.1.world.calls
        (replay memory_schema one_row run.1.world.calls)
unfolding record_in record_event event_db
handled_event_example =
    handle-ReadsBack memory_schema memory table backend.batches none (guess_from a) fine
      empty_tables one_row 1 (λ h. cc) refl refl refl (λ h. omega arith) updated
