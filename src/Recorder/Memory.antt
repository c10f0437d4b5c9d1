-- ===== src/Recorder/Memory.antt =====
-- Tables in memory, as event/event.go wants them: the events by their ids, with the last one, and the rows
-- of `geo` in the order of their ids.
use passwd_pot.Common.{
  get_elem?, zero, ℕ, suc, ◌==◌, pos, List, Option, none, some, Result, ok, if◌then◌else◌, ◌≡◌,
  arith, sym,
}
use passwd_pot.Resolver.{Err}
use passwd_pot.Resolver.Location.{Geo}
use passwd_pot.Recorder.Columns.{Column, Value, number, Row, set_column, given, kept, Tables}

pub record Memory : Type 0 where
  pub last : ℕ
  pub events : ℕ → Option Row
  pub geos : List Geo

abbrev pub numbered : ℕ → Option Geo → Option Geo
numbered n none = none
numbered n (some g) = some (record g { id = n })

abbrev pub geo_at : List Geo → ℕ → Option Geo
geo_at gs zero = none
geo_at gs (suc n) = numbered (suc n) (get_elem? gs n)

abbrev pub put : ℕ → Row → (ℕ → Option Row) → ℕ → Option Row
put n row events j = if j == n then some row else events j

abbrev pub updated : Column → Value → Option Row → Option Row
updated c v none = none
updated c v (some row) = some (set_column c v row)

abbrev pub inserted : List Column → List Value → ℕ → Row
inserted cs vs n = set_column Column.id (number (pos n)) (λ d. kept (λ t. t) (given cs vs d))

abbrev pub insert_row : List Column → List Value → Memory → Result Err (Result Err ℕ) × Memory
insert_row cs vs s =
    let n = suc s.last in
    (ok (ok n), record s { last = n; events = put n (inserted cs vs n) s.events })

abbrev pub update_row : Column → Value → ℕ → Memory → Option Err × Memory
update_row c v n s =
    (none, record s { events = λ j. if j == n then updated c v (s.events j) else s.events j })

pub insert_row-event :
    (cs : List Column) (vs : List Value) (s s' : Memory) (n : ℕ)
    → insert_row cs vs s ≡ (ok (ok n), s')
    → s'.events n ≡ some (inserted cs vs n)
insert_row-event cs vs s s' n e =
    let same : suc s.last ≡ n = cc in
    let store : s' ≡ (insert_row cs vs s).1 = cc in rw store (rw (sym same) (ground arith))

pub update_row-event :
    (c : Column) (v : Value) (s s' : Memory) (n : ℕ) (row : Row)
    → update_row c v n s ≡ (none, s')
    → s.events n ≡ some row
    → s'.events n ≡ some (set_column c v row)
update_row-event c v s s' n row e found =
    let store : s' ≡ (update_row c v n s).1 = cc in rw store (rw found (ground arith))

abbrev pub memory_tables : Tables
memory_tables = record {
  Store = Memory;
  event = λ s n. s.events n;
  geo = λ s n. geo_at s.geos n;
  precision = λ t. t;
  insert = insert_row;
  update = update_row;
  event-insert = insert_row-event;
  event-update = update_row-event;
}
