-- ===== src/Lambda/BatchLocated.antt =====
-- aws/lambda/events.go, resolver/resolve.go, event/event.go: a batch that `HandleBatch` takes, and
-- the locations that `GetEvent` then reads.
use mathlib.Core.Path.{subst}
use passwd_pot.Common.{
  ℕ, Bytes, List, [], ◌∷◌, Option, none, some, ok, ◌≡◌, refl, sym, ◌∙◌, lookup, Assoc,
}
use passwd_pot.Api.{Event, BatchEventResponse}
use passwd_pot.Cache.{ConcurrentMap}
use passwd_pot.Resolver.{Err, Env, World, known_addr}
use passwd_pot.Recorder.{
  Tried, EventDb, BatchDb, begin, prepare, exec, close, commit, record_batch_events,
}
use passwd_pot.Recorder.Columns.{Value}
use passwd_pot.Recorder.Copying.{Copies, follow, Readable, all_steps-Readable}
use passwd_pot.Lambda.{Backend, BatchEvent, State, gateway_addr, run_batch, handle_batch}
use passwd_pot.Lambda.Grouped.{Grouped, Tags, assign-Tags}
use passwd_pot.Lambda.Stores.{Schema, replay, over_tables}
use passwd_pot.Lambda.Located.{
  HasAddr, Lasting, Answers, Held, tables-HoldsRows, ReadsLocated, located,
}
use passwd_pot.Lambda.Traced.{Sound, resolve_addr-Found, assign-AssignFine}
use passwd_pot.Lambda.Answered.{no_ids, Answered, run_batch-Answered}

module _ (d : Schema) (copies : Copies d.tables) where
  -- A batch leaves the rows of `geo` alone, also where its commit gives an error.
  abbrev pub KeepsGeo : Type 0
  KeepsGeo =
      (rows : List (List Value)) (s : d.tables.Store) (n : ℕ)
      → (d.tables.geo (copies.commit_rows rows s).1 n ≡ d.tables.geo s n)
        × (d.tables.geo (copies.commit_unsure rows s).1 n ≡ d.tables.geo s n)

  follow-geo :
      KeepsGeo
      → (ss : List Tried) (rows : List (List Value)) (s : d.tables.Store) (n : ℕ)
      → d.tables.geo (follow d.tables copies ss rows s).1 n ≡ d.tables.geo s n
  unfolding follow
  follow-geo keeps [] rows s n = refl
  follow-geo keeps ((begin, none) ∷ ss) rows s n = follow-geo keeps ss [] s n
  follow-geo keeps ((prepare, none) ∷ ss) rows s n = follow-geo keeps ss rows s n
  follow-geo keeps ((exec e, none) ∷ ss) rows s n = follow-geo keeps ss _ s n
  follow-geo keeps ((close, none) ∷ ss) rows s n = follow-geo keeps ss rows s n
  follow-geo keeps ((commit, none) ∷ ss) rows s n = (keeps rows s n).0
  follow-geo keeps ((begin, some x) ∷ ss) rows s n = refl
  follow-geo keeps ((prepare, some x) ∷ ss) rows s n = refl
  follow-geo keeps ((exec e, some x) ∷ ss) rows s n = refl
  follow-geo keeps ((close, some x) ∷ ss) rows s n = refl
  follow-geo keeps ((commit, some x) ∷ ss) rows s n = (keeps rows s n).1

  -- Each event of a batch is read under its id, with the address of the origin and with locations
  -- of both addresses.
  abbrev pub LocatedAll : Bytes → d.tables.Store → List ℕ → List Event → Type 0
  LocatedAll origin s [] [] = Unit
  LocatedAll origin s (id ∷ ids) (e ∷ es) =
      ReadsLocated d (record e { origin_addr = origin }) id s × LocatedAll origin s ids es
  LocatedAll origin s [] (e ∷ es) = ⊥
  LocatedAll origin s (id ∷ ids) [] = ⊥

  tagged-LocatedAll :
      (cm : ConcurrentMap) (env : Env) (origin : Bytes) (gid : ℕ) (known : Assoc ℕ)
      (s : d.tables.Store) (ids : List ℕ) (es rows : List Event)
      → HasAddr d gid (known_addr origin) s
      → ((a : Bytes) (n : ℕ) → lookup a known ≡ some n → HasAddr d n (known_addr a) s)
      → Tags cm env origin gid known es rows
      → Readable d.tables copies s ids rows
      → LocatedAll origin s ids es
  tagged-LocatedAll cm env origin gid known s [] [] [] ho hk t r = tt
  tagged-LocatedAll cm env origin gid known s [] [] (e' ∷ rows) ho hk t r = absurd t
  tagged-LocatedAll cm env origin gid known s [] (e ∷ es) [] ho hk t r = absurd t
  tagged-LocatedAll cm env origin gid known s [] (e ∷ es) (e' ∷ rows) ho hk t r = absurd r
  tagged-LocatedAll cm env origin gid known s (id ∷ ids) [] [] ho hk t r = absurd r
  tagged-LocatedAll cm env origin gid known s (id ∷ ids) [] (e' ∷ rows) ho hk t r = absurd t
  tagged-LocatedAll cm env origin gid known s (id ∷ ids) (e ∷ es) [] ho hk t r = absurd t
  tagged-LocatedAll cm env origin gid known s (id ∷ ids) (e ∷ es) (e' ∷ rows) ho hk
        ((n, found, same), ts) (read, rs) =
      let read' = rw same at read in
      (
        located d (record e { origin_addr = origin }) id n gid s (hk e.remote_addr n found) ho
            read',
        tagged-LocatedAll cm env origin gid known s ids es rows ho hk ts rs,
      )

  HasAddr-follow :
      KeepsGeo
      → (ss : List Tried) (s : d.tables.Store) (n : ℕ) (a : Bytes) → HasAddr d n a s
      → HasAddr d n a (follow d.tables copies ss [] s).1
  HasAddr-follow keeps ss s n a h = record {
    row = h.row;
    at = follow-geo keeps ss [] s n ∙ h.at;
    same_ip = h.same_ip;
  }

  -- The backend of a batch on the tables.
  abbrev pub batch_backend : d.tables.Store → Env → EventDb → BatchDb → Option Err → Backend
  batch_backend s base events batches ping = record {
    env = over_tables d s base;
    events = events;
    batches = batches;
    ping = ping;
  }

  -- What a batch leaves on the tables: the rows that its loop gives are stored, and read under the
  -- ids that the database gives them.
  abbrev pub BatchReads :
      (cm : ConcurrentMap)
      → Backend
      → BatchEvent
      → World cm
      → BatchEventResponse
      → d.tables.Store
      → Type 0
  BatchReads cm b batch w response s =
      (a : Answered cm b batch w response) × (let final =
          follow d.tables copies (record_batch_events b.batches a.rows).steps [] s in
        LocatedAll (gateway_addr batch.origin_addr) final.1 final.0 batch.events)

  run_batch-BatchReads :
      (cm : ConcurrentMap) (s : d.tables.Store) (base : Env) (events : EventDb) (batches : BatchDb)
      (ping : Option Err) (batch : BatchEvent) (w : World cm) (response : BatchEventResponse)
      (lasting : Lasting d) (answers : Answers d base)
      → KeepsGeo
      → Sound cm
          (over_tables d s base)
          (Held d lasting s base)
          (tables-HoldsRows d lasting s base answers)
          w
      → Grouped [] batch.events
      → (run_batch cm (batch_backend s base events batches ping) batch w).0 ≡ ok response
      → BatchReads cm
          (batch_backend s base events batches ping)
          batch
          w
          response
          (replay d s (run_batch cm (batch_backend s base events batches ping) batch w).1.calls)
  unfolding lookup
  run_batch-BatchReads cm s base events batches ping batch w response lasting answers keeps sound
        grouped e =
      let b = batch_backend s base events batches ping in
      let env = over_tables d s base in
      let holds = tables-HoldsRows d lasting s base answers in
      let P = Held d lasting s base in
      let origin = gateway_addr batch.origin_addr in
      let a = run_batch-Answered cm b batch w response e in
      let (held, sound1, later1) =
        rw a.origin at (resolve_addr-Found cm env P holds origin w sound) in
      let (fine, later2) = rw a.assigned at (
        assign-AssignFine cm env P holds origin a.gid batch.events no_ids a.w1
          (record { sound = sound1; known = λ x n h. absurd (cc) })) in
      let tags =
        assign-Tags cm env origin a.gid batch.events a.rows a.l a.w1 a.w2 grouped a.assigned in
      let tables = replay d s a.w2.calls in
      let steps = (record_batch_events batches a.rows).steps in
      subst (λ (v : World cm). BatchReads cm b batch w response (replay d s v.calls)) (sym a.after)
        (
          a,
          tagged-LocatedAll cm env origin a.gid a.l.geo_ids
              (follow d.tables copies steps [] tables).1 (follow d.tables copies steps [] tables).0
              batch.events a.rows
              (HasAddr-follow keeps steps tables a.gid (known_addr origin)
                (later2 a.gid (known_addr origin) held))
              (λ x n h. HasAddr-follow keeps steps tables n (known_addr x) (fine.known x n h)) tags
              (all_steps-Readable d.tables copies a.rows tables steps a.steps),
        )

  -- From the gateway to the reader, for a batch in which the events of each address stand
  -- together: if the handler answers without an error, the rows that its loop gives are stored,
  -- and each event of the batch is read by `GetEvent` under an id that the database gives, in the
  -- order of the batch, as it was received, with the instant as the column keeps it, but for the
  -- address of the origin, which is that of the batch; with the location in a row of `geo` of its
  -- own remote address, and with that in a row of the address of the origin; an address that is
  -- not like an IPv4 address counts as 127.0.0.1. The setup is fine; what the cache holds at an
  -- address is the id of a row of that address; a row of `geo` keeps its address, and storing a
  -- batch leaves `geo` as it is; and the geo service answers about the address that it was asked
  -- for. The tables are those before the calls of the resolver that the state has recorded.
  pub handle_batch-BatchReads :
      (cm : ConcurrentMap) (s : d.tables.Store) (base : Env) (events : EventDb) (batches : BatchDb)
      (ping : Option Err) (batch : BatchEvent) (st : State cm) (response : BatchEventResponse)
      (lasting : Lasting d) (answers : Answers d base)
      → KeepsGeo
      → st.setup_error ≡ none
      → Sound cm
          (over_tables d s base)
          (Held d lasting s base)
          (tables-HoldsRows d lasting s base answers)
          st.world
      → Grouped [] batch.events
      → (handle_batch cm (batch_backend s base events batches ping) batch st).0 ≡ ok response
      → BatchReads cm (batch_backend s base events batches ping) batch st.world response (
          replay d s
            (handle_batch cm (batch_backend s base events batches ping) batch st).1.world.calls)
  unfolding handle_batch
  handle_batch-BatchReads cm s base events batches ping batch st response lasting answers keeps fine
        sound grouped e =
      let b = batch_backend s base events batches ping in
      let answer : (handle_batch cm b batch st).0 ≡ (run_batch cm b batch st.world).0 =
        rw (fine, handle_batch) refl in
      let world : (handle_batch cm b batch st).1.world ≡ (run_batch cm b batch st.world).1 =
        rw (fine, handle_batch) refl in
      subst (λ (v : World cm). BatchReads cm b batch st.world response (replay d s v.calls))
        (sym world)
        (run_batch-BatchReads cm s base events batches ping batch st.world response lasting answers
          keeps sound grouped (sym answer ∙ e))
