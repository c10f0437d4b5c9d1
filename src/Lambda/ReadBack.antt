-- ===== src/Lambda/ReadBack.antt =====
-- aws/lambda/events.go, resolver/resolve.go, event/event.go: an event that `Handle` takes, and what
-- `GetEvent` then reads.
use mathlib.Core.Path.{fun_ext, subst}
use passwd_pot.Resolver.Kept.{IsLocating}
use passwd_pot.Common.{
  ℕ, ◌==◌, pos, Bool, true, false, if◌then◌else◌, [], ◌∷◌, Option, none, some, ok, ◌≡◌, ◌≢◌, refl,
  ap, ◌∙◌, arith, Bool-cases, Result-cases, inl, inr,
}
use passwd_pot.Api.{Event}
use passwd_pot.Cache.{ConcurrentMap}
use passwd_pot.Resolver.{
  Err, Call, History, Env, select_geo, get_location, insert_geo, touch_geo, mark_event,
}
use passwd_pot.Resolver.Marks.{last_mark}
use passwd_pot.Recorder.{record_event, BatchDb}
use passwd_pot.Recorder.Columns
use passwd_pot.Recorder.Columns.{
  Column, Value, number, set_column, position, Tables, insert_columns, insert_args, record_in,
  event_db, mark_in,
}
use passwd_pot.Recorder.Reading.{get_event, read_back, written, record_in-event, get_event-located}
use passwd_pot.Lambda.{State, handle}
use passwd_pot.Lambda.Stored.{received, handle-IsMarked}
use passwd_pot.Lambda.Stores.{over_tables, Schema, replay, backend_over}
use passwd_pot.Lambda.Marking.{geo_column, marks, marks-column}

module _ (d : Schema) where
  -- The database took every update of these calls.
  unfoldable pub Took : d.tables.Store → History → Type 0
  unfolding replay mark_in
  Took s [] = Unit
  Took s (select_geo a ∷ h) = Took s h
  Took s (get_location a ∷ h) = Took s h
  Took s (insert_geo g ∷ h) = Took s h
  Took s (touch_geo i ∷ h) = Took s h
  Took s (mark_event remote g i ∷ h) =
      ((mark_in d.tables i g remote (replay d s h)).0 ≡ none) × Took s h

  pub call-Took :
      (s : d.tables.Store) (c : Call) (h : History) → IsLocating c → Took s h → Took s (c ∷ h)
  unfolding Took
  call-Took s (select_geo a) h l k = k
  call-Took s (get_location a) h l k = k
  call-Took s (insert_geo g) h l k = k
  call-Took s (touch_geo i) h l k = k
  call-Took s (mark_event remote g i) h l k = absurd l

  pub mark-Took :
      (s : d.tables.Store) (base : Env) (remote : Bool) (geo_id id : ℕ) (h : History)
      → (over_tables d s base).mark h remote geo_id id ≡ none
      → Took s h
      → Took s (mark_event remote geo_id id ∷ h)
  unfolding Took over_tables
  mark-Took s base remote geo_id id h e k = (e, k)

  update-row :
      (c : Column) (v : Value) (i id : ℕ) (s : d.tables.Store) (row : Columns.Row)
      → (d.tables.update c v i s).0 ≡ none
      → d.tables.event s id ≡ some row
      → d.tables.event (d.tables.update c v i s).1 id
        ≡ some (if i == id then set_column c v row else row)
  update-row c v i id s row took e = elim (Bool-cases (i == id)) [
    | inl same ↦
        let at_id : i ≡ id = ground (arith, same) in
        let e' : d.tables.event s i ≡ some row = ap (d.tables.event s) at_id ∙ e in
        rw same (
          subst (λ n. d.tables.event (d.tables.update c v i s).1 n ≡ some (set_column c v row))
            at_id
            (d.tables.event-update c v s (d.tables.update c v i s).1 i row
              (λ k. (took k, (d.tables.update c v i s).1)) e'))
    | inr other ↦ rw other (d.event-update-other c v i id s other ∙ e)
  ]

  marks-step :
      (remote : Bool) (geo_id i id : ℕ) (s : d.tables.Store) (row : Columns.Row)
      → (mark_in d.tables i geo_id remote s).0 ≡ none
      → d.tables.event s id ≡ some row
      → d.tables.event (mark_in d.tables i geo_id remote s).1 id
        ≡ some (if i == id then set_column (geo_column remote) (number (pos geo_id)) row else row)
  unfolding mark_in
  marks-step true geo_id i id s row took e =
      update-row Column.remote_geo_id (number (pos geo_id)) i id s row took e
  marks-step false geo_id i id s row took e =
      update-row Column.origin_geo_id (number (pos geo_id)) i id s row took e

  -- The row of an event behind some calls of the resolver.
  replay-event :
      (id : ℕ) (s : d.tables.Store) (row : Columns.Row) (h : History)
      → Took s h
      → d.tables.event s id ≡ some row
      → d.tables.event (replay d s h) id ≡ some (marks id h row)
  unfolding replay marks Took
  replay-event id s row [] up e = e
  replay-event id s row (select_geo a ∷ h) up e = replay-event id s row h up e
  replay-event id s row (get_location a ∷ h) up e = replay-event id s row h up e
  replay-event id s row (insert_geo g ∷ h) up e =
      d.event-insert_location g (replay d s h) id ∙ replay-event id s row h up e
  replay-event id s row (touch_geo i ∷ h) up e =
      d.event-touch i (replay d s h) id ∙ replay-event id s row h up e
  replay-event id s row (mark_event remote g i ∷ h) (took, up) e =
      marks-step remote g i id (replay d s h) (marks id h row) took (replay-event id s row h up e)

  pub record_in-insert :
      (event : Event) (s s1 : d.tables.Store) (id : ℕ)
      → record_in d.tables event s ≡ (ok id, s1)
      → (event_db d.tables s).insert event ≡ ok (ok id)
  unfolding record_in record_event event_db insert_args
  record_in-insert event s s1 id e =
      elim (Result-cases (d.tables.insert insert_columns (insert_args event) s).0) [
        | inr (x, failed) ↦ absurd (let e' = rw (failed, record_in) at e in cc)
        | inl (res, given_) ↦
            let e' = rw (given_, record_in) at e in
            let same : res ≡ ok id = cc in given_ ∙ ap ok same
      ]

  -- What an event of a row reads like, with the rows of `geo` that the ids name.
  abbrev pub ReadsBack : Event → ℕ → History → d.tables.Store → Type 0
  ReadsBack event id h s =
      (r : ℕ) × (o : ℕ) × (last_mark true id h ≡ some r)
      × (last_mark false id h ≡ some o)
      × (get_event d.tables id s
          ≡ (read_back d.tables event id (d.tables.geo s r) (d.tables.geo s o), none))

  -- From the gateway to the reader: an event with a remote address that `Handle` takes, on a setup
  -- that is fine, and that the tables insert under an id above zero: the handler returns that id,
  -- and `GetEvent` then reads under it the event as it was received, with the instant as the column
  -- keeps it, and with the locations of the two rows of `geo` whose ids the resolver wrote last,
  -- whatever was in the cache and whatever failed in resolving the addresses, provided that the
  -- database took the updates. The calls of the resolver are counted from the request on: what
  -- went before is in the tables.
  pub handle-ReadsBack :
      (cm : ConcurrentMap) (env : Env) (batches : BatchDb) (ping : Option Err) (event : Event)
      (st : State cm) (s s1 : d.tables.Store) (id : ℕ)
      → event.remote_addr ≢ []
      → st.setup_error ≡ none
      → st.world.calls ≡ []
      → record_in d.tables (received cm event) s ≡ (ok id, s1)
      → id ≢ 0
      → Took s1 (handle cm (backend_over d s s1 env batches ping) event st).1.world.calls
      → let after = handle cm (backend_over d s s1 env batches ping) event st in
        (after.0 ≡ ok id)
        × ReadsBack (received cm event) id after.1.world.calls (replay d s1 after.1.world.calls)
  handle-ReadsBack cm env batches ping event st s s1 id given fine begun recorded positive up =
      let b = backend_over d s s1 env batches ping in
      let (answer, ((r, hr), (o, ho))) =
        handle-IsMarked cm b event st id given fine
          (record_in-insert (received cm event) s s1 id recorded) positive in
      let h = (handle cm b event st).1.world.calls in
      let row = written d.tables (received cm event) id in
      let there =
        replay-event id s1 row h up
          (record_in-event d.tables (received cm event) s s1 id recorded) in
      (
        answer,
        (
          r,
          o,
          hr,
          ho,
          get_event-located d.tables (received cm event) (replay d s1 h) id r o _ _
              (there ∙ ap some (fun_ext (marks-column id row h r o hr ho))) refl refl,
        ),
      )
