-- ===== src/Lambda/Stored.antt =====
-- aws/lambda/events.go: an event or a batch that a handler accepts.
use passwd_pot.Common.{
  Option-cases, Bool-cases, suc, ℕ, Bytes, true, false, List, [], ◌∷◌, none, some, Result, ok, err,
  ◌≡◌, ◌≢◌, inl, inr, refl, ap, ◌∙◌, bytes_eq, bytes_eq_nonempty, Result-cases, length,
}
use passwd_pot.Api.{Event, BatchEventResponse}
use passwd_pot.Cache.{ConcurrentMap}
use passwd_pot.Resolver.{Env, World, History}
use passwd_pot.Resolver.Marks.{last_mark, Marked, resolve_event-Marked}
use passwd_pot.Recorder.{record_event}
use passwd_pot.Recorder.Batch.{record_batch_events-Explains}
use passwd_pot.Lambda.{
  ApiError, Backend, Loop, State, gateway_addr, next_id, tag, add_event, assign, store_event,
  handle, handle_batch, run_batch, BatchEvent,
}
use passwd_pot.Lambda.Answered.{no_ids, Answered, run_batch-Answered}

module _ (cm : ConcurrentMap) where
  -- Updates of the row of an event were sent, with a geo id for the sender and for the origin.
  abbrev pub IsMarked : ℕ → History → Type 0
  IsMarked id h =
      ((r : ℕ) × (last_mark true id h ≡ some r)) × ((o : ℕ) × (last_mark false id h ≡ some o))

  Marked-IsMarked :
      (id : ℕ) (x : (List ℕ × List Bytes) × World cm) → Marked cm id x → IsMarked id x.1.calls
  Marked-IsMarked id ((r ∷ o ∷ [], errs), w) (hr, ho) = ((r, hr), (o, ho))
  Marked-IsMarked id (([], errs), w) h = absurd h
  Marked-IsMarked id ((r ∷ [], errs), w) h = absurd h
  Marked-IsMarked id ((r ∷ o ∷ x ∷ xs, errs), w) h = absurd h

  -- The event as `Handle` records it.
  abbrev pub received : Event → Event
  received event = record event { origin_addr = gateway_addr event.origin_addr }

  -- An event with a remote address, on a setup that is fine, whose row the database inserts under
  -- an id above zero: the handler returns that id, and has sent an update for that row with a geo
  -- id for the sender and one with a geo id for the origin, whatever fails in resolving them.
  pub handle-IsMarked :
      (b : Backend) (event : Event) (s : State cm) (id : ℕ)
      → event.remote_addr ≢ []
      → s.setup_error ≡ none
      → b.events.insert (received event) ≡ ok (ok id)
      → id ≢ 0
      → ((handle cm b event s).0 ≡ ok id) × IsMarked id (handle cm b event s).1.world.calls
  unfolding handle store_event record_event
  handle-IsMarked b event s id given fine inserted positive =
      rw (bytes_eq_nonempty event.remote_addr given, handle)
        (rw (fine, handle)
          (rw (inserted, store_event)
            (
              refl,
              Marked-IsMarked id _ (
                  resolve_event-Marked cm true b.env (record (received event) { id = id }) s.world
                    positive),
            )))

  -- Some events as the loop leaves them: each is the one that was there, but for the two geo ids and
  -- the address of the origin.
  abbrev pub Retagged : Bytes → ℕ → List Event → List Event → Type 0
  Retagged origin gid [] [] = Unit
  Retagged origin gid [] (e' ∷ es') = ⊥
  Retagged origin gid (e ∷ es) [] = ⊥
  Retagged origin gid (e ∷ es) (e' ∷ es') =
      ((id : ℕ) × (e' ≡ tag cm e id gid origin)) × Retagged origin gid es es'

  abbrev RetaggedBy :
      Bytes → ℕ → List Event → Result ApiError (List Event × Loop) × World cm → Type 0
  RetaggedBy origin gid es (err x, w) = Unit
  RetaggedBy origin gid es (ok (es', l), w) = Retagged origin gid es es'

  add_event-RetaggedBy :
      (origin : Bytes) (gid id : ℕ) (e : Event) (es : List Event)
      (r : Result ApiError (List Event × Loop) × World cm)
      → RetaggedBy origin gid es r
      → RetaggedBy origin gid (e ∷ es) (add_event cm (tag cm e id gid origin) r)
  add_event-RetaggedBy origin gid id e es (err x, w) h = tt
  add_event-RetaggedBy origin gid id e es (ok (es', l), w) h = ((id, refl), h)

  assign-RetaggedBy :
      (env : Env) (origin : Bytes) (gid : ℕ) (es : List Event) (l : Loop) (w : World cm)
      → RetaggedBy origin gid es (assign cm env origin gid es l w)
  unfolding assign
  assign-RetaggedBy env origin gid [] l w = tt
  assign-RetaggedBy env origin gid (e ∷ es) l w = elim (Bool-cases (bytes_eq e.remote_addr [])) [
    | inl empty ↦ rw (empty, assign) tt
    | inr given ↦
        rw (given, assign)
          (elim (Result-cases (next_id cm env e.remote_addr l w).0) [
            | inr (x, failed) ↦ rw failed tt
            | inl (l', next) ↦ rw next (
                add_event-RetaggedBy origin gid l'.id e es _
                  (assign-RetaggedBy env origin gid es l' (next_id cm env e.remote_addr l w).1))
          ])
  ]

  length-Retagged :
      (origin : Bytes) (gid : ℕ) (es es' : List Event)
      → Retagged origin gid es es'
      → length es' ≡ length es
  length-Retagged origin gid [] [] h = refl
  length-Retagged origin gid [] (e' ∷ es') h = absurd h
  length-Retagged origin gid (e ∷ es) [] h = absurd h
  length-Retagged origin gid (e ∷ es) (e' ∷ es') (he, h) =
      ap suc (length-Retagged origin gid es es' h)

  -- A batch is acknowledged only if it was stored: the transaction ran through all its steps, with a
  -- row for each event, and was committed.
  abbrev pub IsStored :
      (b : Backend) (batch : BatchEvent) (w : World cm)
      → Result ApiError BatchEventResponse
      → Type 0
  IsStored b batch w (err x) = Unit
  IsStored b batch w (ok response) =
      (a : Answered cm b batch w response) × Retagged (gateway_addr batch.origin_addr) a.gid
        batch.events a.rows
      × (response.rows ≡ length batch.events)

  pub Answered-Retagged :
      (b : Backend) (batch : BatchEvent) (w : World cm) (response : BatchEventResponse)
      (a : Answered cm b batch w response)
      → Retagged (gateway_addr batch.origin_addr) a.gid batch.events a.rows
  Answered-Retagged b batch w response a =
      rw a.assigned at
        (assign-RetaggedBy b.env (gateway_addr batch.origin_addr) a.gid batch.events no_ids a.w1)

  Answered-IsStored :
      (b : Backend) (batch : BatchEvent) (w : World cm) (response : BatchEventResponse)
      → Answered cm b batch w response
      → IsStored b batch w (ok response)
  Answered-IsStored b batch w response a =
      let tagged = Answered-Retagged b batch w response a in
      let (steps, count) = rw a.result at (record_batch_events-Explains b.batches a.rows) in
      (a, tagged, count ∙ length-Retagged _ a.gid batch.events a.rows tagged)

  run_batch-IsStored :
      (b : Backend) (batch : BatchEvent) (w : World cm)
      → IsStored b batch w (run_batch cm b batch w).0
  run_batch-IsStored b batch w = elim (Result-cases (run_batch cm b batch w).0) [
    | inr (x, failed) ↦ rw failed tt
    | inl (response, done) ↦
        rw done
          (Answered-IsStored b batch w response (run_batch-Answered cm b batch w response done))
  ]

  -- The batch handler acknowledges a batch only if it is stored: if it answers without an error,
  -- then the rows that its loop gives are written by a transaction all of whose steps the database
  -- has done without an error, from the begin to the commit; there is one row for each event of the
  -- batch, in order, which is that event but for the two geo ids and the address of the origin; all
  -- rows have the batch's origin address and the geo id that it was resolved to, and the response
  -- counts them.
  pub handle_batch-IsStored :
      (b : Backend) (batch : BatchEvent) (s : State cm)
      → IsStored b batch s.world (handle_batch cm b batch s).0
  unfolding handle_batch
  handle_batch-IsStored b batch s = elim (Option-cases s.setup_error) [
    | inr (e, failed) ↦ rw (failed, handle_batch) tt
    | inl fine ↦ rw (fine, handle_batch) (run_batch-IsStored b batch s.world)
  ]
