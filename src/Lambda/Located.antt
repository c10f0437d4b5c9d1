-- ===== src/Lambda/Located.antt =====
-- aws/lambda/events.go, resolver/resolve.go, event/event.go: an event that `Handle` takes, and the
-- locations that `GetEvent` then reads.
use mathlib.Core.Path.{subst, sym}
use passwd_pot.Recorder.{record_event}
use passwd_pot.Common.{
  bytes_eq_nonempty, ℕ, Bytes, true, false, List, [], ◌∷◌, Option, none, some, ok, ◌≡◌, ◌≢◌, refl,
  ap, ◌∙◌,
}
use passwd_pot.Api.{Event}
use passwd_pot.Cache.{ConcurrentMap}
use passwd_pot.Resolver.{
  Err, History, Env, Call, World, select_geo, get_location, insert_geo, touch_geo, mark_event,
  found, known_addr, resolve_event,
}
use passwd_pot.Resolver.Location.{Geo}
use passwd_pot.Resolver.Shared.{both_cached}
use passwd_pot.Resolver.Marks.{last_mark, Marked, resolve_event-Marked}
use passwd_pot.Resolver.Closed.{HoldsRows, BothHeld, resolve_event-BothHeld}
use passwd_pot.Resolver.Quiet.{resolve_event-quiet}
use passwd_pot.Recorder.{BatchDb}
use passwd_pot.Recorder.Columns.{Column, Value, mark_in, record_in}
use passwd_pot.Recorder.Reading.{get_event, read_back}
use passwd_pot.Lambda.{State, handle, Backend, store_event}
use passwd_pot.Lambda.Stored.{received}
use passwd_pot.Lambda.Stores.{Schema, replay, over_tables, backend_over}
use passwd_pot.Lambda.ReadBack.{handle-ReadsBack, record_in-insert, Took, call-Took, mark-Took}

module _ (d : Schema) where
  -- There is a row of `geo` under an id, of this address.
  pub record HasAddr (n : ℕ) (addr : Bytes) (s : d.tables.Store) : Type 0 where
    pub row : Geo
    pub at : d.tables.geo s n ≡ some row
    pub same_ip : row.ip ≡ addr

  -- The table `geo`: a query for an address gives one of its rows, and a row keeps its address.
  pub record Lasting : Type 0 where
    pub select-HasAddr :
        (a : Bytes) (g : Geo) (s : d.tables.Store) → d.select a s ≡ found g → HasAddr g.id a s
    pub insert-HasAddr :
        (g : Geo) (n : ℕ) (s : d.tables.Store)
        → (d.insert_location g s).0 ≡ ok (ok n)
        → HasAddr n g.ip (d.insert_location g s).1
    pub insert-kept :
        (g : Geo) (n : ℕ) (a : Bytes) (s : d.tables.Store)
        → HasAddr n a s
        → HasAddr n a (d.insert_location g s).1
    pub touch-kept :
        (id n : ℕ) (a : Bytes) (s : d.tables.Store) → HasAddr n a s → HasAddr n a (d.touch id s).1
    pub update-kept :
        (c : Column) (v : Value) (m n : ℕ) (a : Bytes) (s : d.tables.Store)
        → HasAddr n a s
        → HasAddr n a (d.tables.update c v m s).1

  -- The geo service answers about the address that it was asked for.
  abbrev pub Answers : Env → Type 0
  Answers base = (a : Bytes) (g : Geo) (h : History) → base.locate h a ≡ ok g → g.ip ≡ a

  module _ (lasting : Lasting) (s : d.tables.Store) (base : Env) where
    abbrev pub Held : ℕ → Bytes → History → Type 0
    Held n a h = HasAddr n a (replay d s h)

    call-Held : (n : ℕ) (a : Bytes) (c : Call) (h : History) → Held n a h → Held n a (c ∷ h)
    unfolding replay mark_in
    call-Held n a (select_geo _) h k = k
    call-Held n a (get_location _) h k = k
    call-Held n a (insert_geo g) h k = lasting.insert-kept g n a (replay d s h) k
    call-Held n a (touch_geo id) h k = lasting.touch-kept id n a (replay d s h) k
    call-Held n a (mark_event remote g i) h k = lasting.update-kept _ _ i n a (replay d s h) k

    pub tables-HoldsRows : Answers base → HoldsRows (over_tables d s base) Held
    unfolding replay over_tables
    tables-HoldsRows answers = record {
      lasts = call-Held;
      selects = λ a g h e. lasting.select-HasAddr a g (replay d s h) e;
      inserts = λ g n h e. lasting.insert-HasAddr g n (replay d s h) e;
      locates = λ a g h e. answers a g h e;
    }

  -- What an event of a row reads like, with the rows of `geo` of its two addresses.
  pub record ReadsLocated (event : Event) (id : ℕ) (s : d.tables.Store) : Type 0 where
    pub remote : Geo
    pub origin : Geo
    pub remote_ip : remote.ip ≡ known_addr event.remote_addr
    pub origin_ip : origin.ip ≡ known_addr event.origin_addr
    pub reads :
        get_event d.tables id s ≡ (read_back d.tables event id (some remote) (some origin), none)

  pub located :
      (event : Event) (id r o : ℕ) (s : d.tables.Store)
      → HasAddr r (known_addr event.remote_addr) s
      → HasAddr o (known_addr event.origin_addr) s
      → get_event d.tables id s
        ≡ (read_back d.tables event id (d.tables.geo s r) (d.tables.geo s o), none)
      → ReadsLocated event id s
  located event id r o s hr ho e = record {
    remote = hr.row;
    origin = ho.row;
    remote_ip = hr.same_ip;
    origin_ip = ho.same_ip;
    reads =
        e
        ∙ ap (λ m. (read_back d.tables event id m (d.tables.geo s o), none)) hr.at
        ∙ ap (λ m. (read_back d.tables event id (some hr.row) m, none)) ho.at;
  }

  -- The event as the resolver gets it.
  abbrev pub numbered : ConcurrentMap → Event → ℕ → Event
  numbered cm event id = record (received cm event) { id = id }

  -- The ids that were written last are those that were returned.
  BothHeld-marks :
      (P : ℕ → Bytes → History → Type 0) (cm : ConcurrentMap) (event : Event) (id r o : ℕ)
      (x : (List ℕ × List Err) × World cm)
      → last_mark true id x.1.calls ≡ some r
      → last_mark false id x.1.calls ≡ some o
      → Marked cm id x
      → BothHeld P event (x.0, x.1.calls)
      → P r (known_addr event.remote_addr) x.1.calls × P o (known_addr event.origin_addr) x.1.calls
  BothHeld-marks P cm event id r o (([], errs), w) hr ho m b = absurd b
  BothHeld-marks P cm event id r o ((r' ∷ [], errs), w) hr ho m b = absurd b
  BothHeld-marks P cm event id r o ((r' ∷ o' ∷ n ∷ ns, errs), w) hr ho m b = absurd b
  BothHeld-marks P cm event id r o ((r' ∷ o' ∷ [], errs), w) hr ho m b =
      let same_r : r' ≡ r = cc in
      let same_o : o' ≡ o = cc in
      (
        subst (λ n. P n (known_addr event.remote_addr) w.calls) same_r b.0,
        subst (λ n. P n (known_addr event.origin_addr) w.calls) same_o b.1,
      )

  handle-world :
      (cm : ConcurrentMap) (b : Backend) (event : Event) (st : State cm) (id : ℕ)
      → event.remote_addr ≢ []
      → st.setup_error ≡ none
      → b.events.insert (received cm event) ≡ ok (ok id)
      → (handle cm b event st).1.world
        ≡ (resolve_event cm true b.env (numbered cm event id) st.world).1
  unfolding handle store_event record_event
  handle-world cm b event st id given fine inserted =
      rw (bytes_eq_nonempty event.remote_addr given, handle)
        (rw (fine, handle) (rw (inserted, store_event) refl))

  -- From the gateway to the reader, with the locations: an event with a remote address that `Handle`
  -- takes, on a setup that is fine, and that the tables insert under an id above zero. The cache
  -- does not have both addresses, the resolver meets no error, a
  -- row of `geo` keeps its address, and the geo service answers about the address that it was asked
  -- for. Then the handler returns the id, and `GetEvent` reads under it the event as it was
  -- received, with the instant as the column keeps it, with the location in a row of `geo` of the
  -- remote address, and with that in a row of the address of the origin; an address that is not
  -- like an IPv4 address counts as 127.0.0.1. The calls of the resolver are counted from the
  -- request on: what went before is in the tables.
  pub handle-ReadsLocated :
      (cm : ConcurrentMap) (base : Env) (batches : BatchDb) (ping : Option Err) (event : Event)
      (st : State cm) (s s1 : d.tables.Store) (id : ℕ)
      → Lasting
      → Answers base
      → event.remote_addr ≢ []
      → st.setup_error ≡ none
      → st.world.calls ≡ []
      → record_in d.tables (received cm event) s ≡ (ok id, s1)
      → id ≢ 0
      → both_cached cm (numbered cm event id) st.world ≡ false
      → (resolve_event cm true (over_tables d s1 base) (numbered cm event id) st.world).0.1 ≡ []
      → let after = handle cm (backend_over d s s1 base batches ping) event st in
        (after.0 ≡ ok id) × ReadsLocated (received cm event) id (replay d s1 after.1.world.calls)
  unfolding Took
  handle-ReadsLocated cm base batches ping event st s s1 id lasting answers given fine begun
        recorded positive not_cached quiet =
      let b = backend_over d s s1 base batches ping in
      let env = over_tables d s1 base in
      let e = numbered cm event id in
      let x = resolve_event cm true env e st.world in
      let world =
        handle-world cm b event st id given fine
          (record_in-insert d (received cm event) s s1 id recorded) in
      let took : Took d s1 (handle cm b event st).1.world.calls =
        subst (λ (v : World cm). Took d s1 v.calls) (sym world)
          (resolve_event-quiet env (Took d s1) (call-Took d s1) (mark-Took d s1 base) cm e st.world
            positive not_cached quiet (subst (Took d s1) (sym begun) tt)) in
      let (answer, back) =
        handle-ReadsBack d cm base batches ping event st s s1 id given fine begun recorded positive
          took in
      let (r, o, hr, ho, reads) = rw world at back in
      let held =
        BothHeld-marks (Held lasting s1 base) cm e id r o x hr ho
          (resolve_event-Marked cm true env e st.world positive)
          (resolve_event-BothHeld env (Held lasting s1 base)
            (tables-HoldsRows lasting s1 base answers) cm e st.world positive not_cached quiet) in
      (answer, rw world (located (received cm event) id r o _ held.0 held.1 reads))
