-- ===== src/Recorder/Batch.antt =====
-- event/event.go: the steps of a batch, and its result.
use passwd_pot.Common.{
  inl, inr, refl, sym, ap, List, [], ◌∷◌, ◌++◌, some, ok, err, length, map, ◌≡◌, ◌⊎◌, ℕ, Result,
  Option, ◌+◌, ap, inl, inr, none,
}
use passwd_pot.Api.{Event, BatchEventResponse}
use passwd_pot.Recorder.{
  Step, begin, prepare, exec, close, commit, BatchDb, BatchRun, record_batch_events, exec_rows, Err,
  step_then, Tried,
}

-- A commit is tried somewhere in the steps.
abbrev pub Commits : List Tried → Type 0
Commits [] = ⊥
Commits ((commit, _) ∷ ss) = Unit
Commits ((begin, _) ∷ ss) = Commits ss
Commits ((prepare, _) ∷ ss) = Commits ss
Commits ((exec e, _) ∷ ss) = Commits ss
Commits ((close, _) ∷ ss) = Commits ss

-- A step that the database did without an error.
abbrev pub did : Step → Tried
did s = (s, none)

abbrev pub did_exec : Event → Tried
did_exec e = did (exec e)

-- All steps of a batch, each of which the database did without an error.
abbrev pub all_steps : List Event → List Tried
all_steps events = did begin ∷ did prepare ∷ (map did_exec events ++ did close ∷ did commit ∷ [])

-- What a run that was to make the steps `plan` says of its batch of `rows` events.
abbrev pub Explains : BatchDb → List Tried → ℕ → List Tried → Result Err BatchEventResponse → Type 0
Explains db plan rows steps (ok response) = (steps ≡ plan) × (response.rows ≡ rows)
Explains db plan rows steps (err e) = ¬ (Commits steps) ⊎ (db.commit_fails ≡ some e)

abbrev IsCommit : Step → Type 0
IsCommit commit = Unit
IsCommit _ = ⊥

not-Commits :
    (s : Step) (a : Option Err) (ss : List Tried)
    → ¬ (IsCommit s)
    → ¬ (Commits ss)
    → ¬ (Commits ((s, a) ∷ ss))
not-Commits commit a ss h k c = h tt
not-Commits begin a ss h k c = k c
not-Commits prepare a ss h k c = k c
not-Commits (exec e) a ss h k c = k c
not-Commits close a ss h k c = k c

module _ (db : BatchDb) (rows : ℕ) where
  Explains-cons :
      (s : Step) (plan steps : List Tried) (r : Result Err BatchEventResponse)
      → ¬ (IsCommit s)
      → Explains db plan rows steps r
      → Explains db (did s ∷ plan) rows (did s ∷ steps) r
  Explains-cons s plan steps (ok response) h k = (ap (λ ss. did s ∷ ss) k.0, k.1)
  Explains-cons s plan steps (err e) h (inl k) = inl (not-Commits s none steps h k)
  Explains-cons s plan steps (err e) h (inr k) = inr k

  Explains-step_then :
      (s : Step) (fails : Option Err) (plan : List Tried) (run : BatchRun BatchEventResponse)
      → ¬ (IsCommit s)
      → Explains db plan rows run.steps run.result
      → Explains db (did s ∷ plan) rows (step_then s fails run).steps (step_then s fails run).result
  Explains-step_then s none plan run h k = Explains-cons s plan run.steps run.result h k
  Explains-step_then s (some e) plan run h k = inl (not-Commits s (some e) [] h (λ c. c))

  Explains-exec_rows :
      (n : ℕ) (events : List Event) (plan : List Tried) (run : BatchRun BatchEventResponse)
      → Explains db plan rows run.steps run.result
      → Explains db
          (map did_exec events ++ plan)
          rows
          (exec_rows db n events run).steps
          (exec_rows db n events run).result
  unfolding exec_rows
  Explains-exec_rows n [] plan run k = k
  Explains-exec_rows n (event ∷ events) plan run k =
      Explains-step_then (exec event) (db.exec_fails n event) (map did_exec events ++ plan)
        (exec_rows db (n + 1) events run) (λ c. c) (Explains-exec_rows (n + 1) events plan run k)

  Explains-commit :
      (response : BatchEventResponse)
      → response.rows ≡ rows
      → (fails : Option Err) → fails ≡ db.commit_fails
      → Explains db
          (did commit ∷ [])
          rows
          (step_then commit fails (record { steps = []; result = ok response })).steps
          (step_then commit fails (record { steps = []; result = ok response })).result
  Explains-commit response h none k = (refl, h)
  Explains-commit response h (some e) k = inr (sym k)

-- A batch is written whole or not at all. If there is no error, the database has begun and prepared
-- the transaction, written every event once and in order, closed the statement and committed, and
-- gave no error at any of these steps, and the response counts the events; if there is one, no commit
-- was tried, unless the commit itself gave that error.
pub record_batch_events-Explains :
    (db : BatchDb) (events : List Event)
    → Explains db
        (all_steps events)
        (length events)
        (record_batch_events db events).steps
        (record_batch_events db events).result
unfolding record_batch_events
record_batch_events-Explains db events =
    Explains-step_then db (length events) begin db.begin_fails _ _ (λ c. c)
      (Explains-step_then db (length events) prepare db.prepare_fails _ _ (λ c. c)
        (Explains-exec_rows db (length events) 0 events (did close ∷ did commit ∷ []) _ (
          Explains-step_then db (length events) close db.close_fails _ _ (λ c. c)
            (Explains-commit db (length events)
              (record { duration = db.elapsed; rows = length events; last_id = 0 }) refl
              db.commit_fails refl))))
