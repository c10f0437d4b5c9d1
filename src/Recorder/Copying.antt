-- ===== src/Recorder/Copying.antt =====
-- event/event.go: the rows that a batch leaves in the tables.
use mathlib.Core.Path.{fun_ext}
use passwd_pot.Common.{
  ℕ, pos, List, [], ◌∷◌, ◌++◌, map, append-nil, append_assoc, none, some, Result, ok, err, ◌≡◌, ◌⊎◌,
  inl, inr, refl, sym, ap, ◌∙◌, length,
}
use passwd_pot.Api.{Event, BatchEventResponse}
use passwd_pot.Recorder.{
  Err, Step, begin, prepare, exec, close, commit, BatchDb, record_batch_events, Tried,
}
use passwd_pot.Recorder.Batch.{
  Commits, all_steps, Explains, record_batch_events-Explains, did_exec, did,
}
use passwd_pot.Recorder.Columns.{Column, Value, number, Row, set_column, given, kept, Tables}
use passwd_pot.Recorder.Reading.{get_event, read_back, get_event-located}
use passwd_pot.Recorder.Agree.{copy_columns, copy_args, copied, marked-copied}

module _ (t : Tables) where
  -- The row of some arguments of the COPY, with an id.
  abbrev pub copied_row : List Value → ℕ → Row
  copied_row vs id =
      set_column Column.id (number (pos id)) (λ d. kept t.precision (given copy_columns vs d))

  -- Rows that are in the table, each under its id.
  abbrev pub Placed : t.Store → List ℕ → List (List Value) → Type 0
  Placed s [] [] = Unit
  Placed s (id ∷ ids) (vs ∷ rows) = (t.event s id ≡ some (copied_row vs id)) × Placed s ids rows
  Placed s [] (vs ∷ rows) = ⊥
  Placed s (id ∷ ids) [] = ⊥

  -- A transaction of the database: what was copied is in the table once it is committed, and the
  -- rows have ids. A commit that gives an error may be done all the same: `commit_unsure` is what it
  -- leaves, of which nothing is known.
  pub record Copies : Type 0 where
    pub commit_unsure : List (List Value) → t.Store → List ℕ × t.Store
    pub commit_rows : List (List Value) → t.Store → List ℕ × t.Store
    pub commit-Placed :
        (rows : List (List Value)) (s : t.Store)
        → Placed (commit_rows rows s).1 (commit_rows rows s).0 rows

  module _ (copies : Copies) where
    -- What is left behind a step that gives an error: it aborts the transaction, of which nothing is
    -- then written, whatever is tried behind it.
    abbrev pub aborted : Step → List (List Value) → t.Store → List ℕ × t.Store
    aborted begin rows s = ([], s)
    aborted prepare rows s = ([], s)
    aborted (exec e) rows s = ([], s)
    aborted close rows s = ([], s)
    aborted commit rows s = copies.commit_unsure rows s

    -- The steps of a batch on the tables, with the rows that were copied so far: the ids of those
    -- that were committed, and the tables behind.
    unfoldable pub follow : List Tried → List (List Value) → t.Store → List ℕ × t.Store
    unfolding copy_args
    follow [] rows s = ([], s)
    follow ((begin, none) ∷ ss) rows s = follow ss [] s
    follow ((prepare, none) ∷ ss) rows s = follow ss rows s
    follow ((exec e, none) ∷ ss) rows s = follow ss (rows ++ copy_args e ∷ []) s
    follow ((close, none) ∷ ss) rows s = follow ss rows s
    follow ((commit, none) ∷ ss) rows s = copies.commit_rows rows s
    follow ((step, some e) ∷ ss) rows s = aborted step rows s

    -- Each event is read under its id, with the locations that its two ids of `geo` name.
    abbrev pub Readable : t.Store → List ℕ → List Event → Type 0
    Readable s [] [] = Unit
    Readable s (id ∷ ids) (e ∷ es) =
        (get_event t id s
          ≡ (read_back t e id (t.geo s e.remote_geo_id) (t.geo s e.origin_geo_id), none))
        × Readable s ids es
    Readable s [] (e ∷ es) = ⊥
    Readable s (id ∷ ids) [] = ⊥

    Placed-Readable :
        (s : t.Store) (ids : List ℕ) (es : List Event)
        → Placed s ids (map copy_args es)
        → Readable s ids es
    unfolding copied
    Placed-Readable s [] [] p = tt
    Placed-Readable s [] (e ∷ es) p = absurd p
    Placed-Readable s (id ∷ ids) [] p = absurd p
    Placed-Readable s (id ∷ ids) (e ∷ es) (p, ps) = (
      get_event-located t e s id e.remote_geo_id e.origin_geo_id _ _
          (p ∙ ap some (sym (fun_ext (marked-copied t e id e.remote_geo_id e.origin_geo_id)))) refl
          refl,
      Placed-Readable s ids es ps,
    )

    follow-exec :
        (es : List Event) (ss : List Tried) (rows : List (List Value)) (s : t.Store)
        → follow (map did_exec es ++ ss) rows s ≡ follow ss (rows ++ map copy_args es) s
    unfolding follow
    follow-exec [] ss rows s = ap (λ rs. follow ss rs s) (sym (append-nil rows))
    follow-exec (e ∷ es) ss rows s =
        follow-exec es ss (rows ++ copy_args e ∷ []) s
        ∙ ap (λ rs. follow ss rs s) (append_assoc rows (copy_args e ∷ []) (map copy_args es))

    follow-undone :
        (ss : List Tried) (rows : List (List Value)) (s : t.Store)
        → ¬ (Commits ss)
        → follow ss rows s ≡ ([], s)
    unfolding follow
    follow-undone [] rows s h = refl
    follow-undone ((begin, none) ∷ ss) rows s h = follow-undone ss [] s h
    follow-undone ((prepare, none) ∷ ss) rows s h = follow-undone ss rows s h
    follow-undone ((exec e, none) ∷ ss) rows s h = follow-undone ss (rows ++ copy_args e ∷ []) s h
    follow-undone ((close, none) ∷ ss) rows s h = follow-undone ss rows s h
    follow-undone ((begin, some x) ∷ ss) rows s h = refl
    follow-undone ((prepare, some x) ∷ ss) rows s h = refl
    follow-undone ((exec e, some x) ∷ ss) rows s h = refl
    follow-undone ((close, some x) ∷ ss) rows s h = refl
    follow-undone ((commit, a) ∷ ss) rows s h = absurd (h tt)

    -- What the tables are behind a batch, by its result.
    abbrev pub Leaves :
        BatchDb → List Event → t.Store → Result Err BatchEventResponse → List ℕ × t.Store → Type 0
    Leaves db events s (ok response) after = Readable after.1 after.0 events
    Leaves db events s (err e) after = (after ≡ ([], s)) ⊎ (db.commit_fails ≡ some e)

    -- A batch that ran through all its steps can be read.
    pub all_steps-Readable :
        (events : List Event) (s : t.Store) (steps : List Tried)
        → steps ≡ all_steps events
        → Readable (follow steps [] s).1 (follow steps [] s).0 events
    unfolding follow
    all_steps-Readable events s steps h =
        let rows = map copy_args events in
        let done : follow steps [] s ≡ copies.commit_rows rows s =
          ap (λ ss. follow ss [] s) h ∙ follow-exec events (did close ∷ did commit ∷ []) [] s in
        rw done (
          Placed-Readable (copies.commit_rows rows s).1 (copies.commit_rows rows s).0 events
            (copies.commit-Placed rows s))

    steps-Leaves :
        (db : BatchDb) (events : List Event) (s : t.Store) (steps : List Tried)
        (r : Result Err BatchEventResponse)
        → Explains db (all_steps events) (length events) steps r
        → Leaves db events s r (follow steps [] s)
    steps-Leaves db events s steps (ok response) (h, count) = all_steps-Readable events s steps h
    steps-Leaves db events s steps (err e) (inl undone) = inl (follow-undone steps [] s undone)
    steps-Leaves db events s steps (err e) (inr failed) = inr failed

    -- A batch can be read or has changed nothing: if `RecordBatchEvents` gives no error, there is
    -- an id for each event, under which `GetEvent` reads that event, with the instant as the column
    -- keeps it and the locations that its two ids of `geo` name; if it gives an error, the tables
    -- are as they were, unless it was the commit that gave the error.
    pub record_batch_events-Leaves :
        (db : BatchDb) (events : List Event) (s : t.Store)
        → Leaves db events s
            (record_batch_events db events).result
            (follow (record_batch_events db events).steps [] s)
    record_batch_events-Leaves db events s =
        steps-Leaves db events s (record_batch_events db events).steps
          (record_batch_events db events).result (record_batch_events-Explains db events)
