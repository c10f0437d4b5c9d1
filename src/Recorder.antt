-- ===== src/Recorder.antt =====
-- event/event.go: the client that writes events to the database.
pub mod Batch
pub mod Options
pub mod Columns
pub mod Reading
pub mod Memory
pub mod Agree
pub mod Copying
pub mod Committed
mod Tests
use passwd_pot.Common.{
  ℕ, ◌+◌, ◌/◌, Bytes, List, [], ◌∷◌, ◌++◌, Option, none, some, Result, ok, err, length,
}
use passwd_pot.Api.{Event, BatchEventResponse}
use passwd_pot.Resolver.{Err}

-- What the database does with a row: `Insert` and `LastInsertId` of its result.
pub record EventDb : Type 0 where
  pub insert : Event → Result Err (Result Err ℕ)

-- `RecordEvent`
unfoldable pub record_event : EventDb → Event → Result Err ℕ
record_event db event = elim (db.insert event) [ err e ↦ err e | ok res ↦ res ]

-- A step of a batch, as the database sees it.
pub data Step : Type 0 where
  begin : Step
  prepare : Step
  exec : Event → Step
  close : Step
  commit : Step

-- How the database answers each step: an error, or none. `exec_fails n` is the answer to the n-th
-- row. `elapsed` is `time.Since(a) / time.Millisecond`.
pub record BatchDb : Type 0 where
  pub begin_fails : Option Err
  pub prepare_fails : Option Err
  pub exec_fails : ℕ → Event → Option Err
  pub close_fails : Option Err
  pub commit_fails : Option Err
  pub elapsed : ℕ

-- A step that was tried, with the answer of the database.
abbrev pub Tried : Type 0
Tried = Step × Option Err

-- The steps that were tried, and the result.
pub record BatchRun {ℓ} (A : Type ℓ) : Type ℓ where
  pub steps : List Tried
  pub result : Result Err A

abbrev pub step_then {ℓ} : {A : Type ℓ} → Step → Option Err → BatchRun A → BatchRun A
step_then s (some e) rest = record { steps = (s, some e) ∷ []; result = err e }
step_then s none rest = record { steps = (s, none) ∷ rest.steps; result = rest.result }

-- The loop over the events, and what follows it.
unfoldable pub exec_rows :
    BatchDb → ℕ → List Event → BatchRun BatchEventResponse → BatchRun BatchEventResponse
exec_rows db n [] after = after
exec_rows db n (event ∷ events) after =
    let rest = exec_rows db (n + 1) events after in
    step_then (exec event) (db.exec_fails n event) rest

-- `RecordBatchEvents`. No step is undone on an error.
unfoldable pub record_batch_events : BatchDb → List Event → BatchRun BatchEventResponse
unfolding exec_rows
record_batch_events db events =
    let response : BatchEventResponse = record {
      duration = db.elapsed;
      rows = length events;
      last_id = 0;
    } in
    let committed =
      step_then commit db.commit_fails (record { steps = []; result = ok response }) in
    let closed = step_then close db.close_fails committed in
    let rows = exec_rows db 0 events closed in
    let prepared = step_then prepare db.prepare_fails rows in
    step_then begin db.begin_fails prepared
