-- ===== src/Resolver.antt =====
-- resolver/resolve.go: addresses to geo rows, over a database and a geo service.
pub mod Location
pub mod Address
pub mod Marks
pub mod Shared
pub mod Reuse
pub mod Clients
pub mod Options
pub mod Service
pub mod Answered
pub mod Kept
pub mod Closed
pub mod Quiet
pub mod Table
mod Tests
use passwd_pot.Common.{
  ℕ, ℤ, Bytes, codes, Bool, true, false, not, ◌&&◌, ltb, ◌==◌, if◌then◌else◌, List, [], ◌∷◌, ◌++◌,
  Option, none, some, Result, ok, err,
}
use passwd_pot.Api.{Event}
use passwd_pot.Cache
use passwd_pot.Cache.{ConcurrentMap}
use Location.{Geo, before, equals}
use Address.{looks_like_ipv4}

-- An error value, known by its text.
abbrev pub Err : Type 0
Err = Bytes

-- A call of the database or of the geo service. In `mark_event` the flag says whether the field is
-- that of the remote address.
pub data Call : Type 0 where
  select_geo : Bytes → Call
  get_location : Bytes → Call
  insert_geo : Geo → Call
  touch_geo : ℕ → Call
  mark_event : Bool → ℕ → ℕ → Call

-- The calls made so far, the newest first.
abbrev pub History : Type 0
History = List Call

-- The row that `SELECT ... LIMIT 1` gives: `no_rows` is `sql.ErrNoRows`.
pub data Row : Type 0 where
  found : Geo → Row
  no_rows : Row
  row_error : Err → Row

-- The database, the geo service and the clock, each of whose answers may depend on all that was
-- asked before. `insert` gives a result, whose `LastInsertId` may still fail. `expire` is the time
-- a month ago.
pub record Env : Type 0 where
  pub select : History → Bytes → Row
  pub locate : History → Bytes → Result Err Geo
  pub insert : History → Geo → Result Err (Result Err ℕ)
  pub touch : History → ℕ → Option Err
  pub mark : History → Bool → ℕ → ℕ → Option Err
  pub expire : History → ℤ

-- `insertGeo`
pub insert_row : Env → Geo → History → Result Err ℕ × History
insert_row env geo h = elim (env.insert h geo) [
  | err e ↦ (err e, insert_geo geo ∷ h)
  | ok res ↦ (res, insert_geo geo ∷ h)
]

-- The branch with no row.
pub add_location : Env → Bytes → History → Result Err ℕ × History
unfolding insert_row
add_location env addr h = elim (env.locate h addr) [
  | err e ↦ (err e, get_location addr ∷ h)
  | ok geo ↦ insert_row env geo (get_location addr ∷ h)
]

pub touched : ℕ → Option Err → Result Err ℕ
touched id none = ok id
touched id (some e) = err e

-- The branch with a row that is older than a month.
pub renew_location : Env → Geo → Bytes → History → Result Err ℕ × History
unfolding insert_row touched equals
renew_location env geo addr h = elim (env.locate h addr) [
  | err e ↦ (err e, get_location addr ∷ h)
  | ok new_geo ↦
      let h' = get_location addr ∷ h in
      if equals geo new_geo
      then (touched geo.id (env.touch h' geo.id), touch_geo geo.id ∷ h')
      else insert_row env new_geo h'
]

-- What is not like an IPv4 address is looked up as 127.0.0.1.
pub known_addr : Bytes → Bytes
unfolding looks_like_ipv4
known_addr addr = if looks_like_ipv4 addr then addr else codes "127.0.0.1"

-- Behind the query, for each row that it may give; `expire` is the time a month before it.
pub by_row : Env → Bytes → ℤ → Row → History → Result Err ℕ × History
unfolding add_location renew_location before
by_row env a expire (row_error e) h = (err e, h)
by_row env a expire no_rows h = add_location env a h
by_row env a expire (found geo) h =
    if before geo.last_update expire then renew_location env geo a h else (ok geo.id, h)

-- `resolveAddr`. Its test for a client that is nil is never met: `Resolve` and `ResolveEvent`, which
-- alone call it, read a field of the client before.
unfoldable pub resolve_addr : Env → Bytes → History → Result Err ℕ × History
unfolding known_addr by_row
resolve_addr env addr h =
    let a = known_addr addr in by_row env a (env.expire h) (env.select h a) (select_geo a ∷ h)

-- The statement that `markEvent` executes.
pub mark : Env → ℕ → ℕ → Bool → History → Option Err × History
mark env id geo_id remote h = (env.mark h remote geo_id id, mark_event remote geo_id id ∷ h)

-- `multierr.Append(rerr, err)`: the errors so far, as a list.
pub append_error : List Err → Option Err → List Err
append_error errs none = errs
append_error errs (some e) = errs ++ e ∷ []

-- The id and the error that `resolveAddr` returns: the id is 0 beside an error.
abbrev pub id_of : Result Err ℕ → ℕ
id_of (ok id) = id
id_of (err e) = 0

abbrev pub error_of : Result Err ℕ → Option Err
error_of (ok id) = none
error_of (err e) = some e

module _ (cm : ConcurrentMap) where
  -- The state: the cache that all clients share, and the calls.
  pub record World : Type 0 where
    pub cache : cm.Map
    pub calls : History

  -- `Resolve`; the flag is the client's `useCache`.
  unfoldable pub resolve : Bool → Env → Bytes → World → Result Err ℕ × World
  resolve use_cache env addr w =
      let (id, hit) = Cache.get cm addr w.cache in
      let (r, h) = resolve_addr env addr w.calls in
      if use_cache && hit then (ok id, w) else (r, record w { calls = h })

  -- `if c.useCache && geoId > 0 { geoCache.Set(event.RemoteAddr, geoId) }`
  pub remember : Bool → Bytes → ℕ → cm.Map → cm.Map
  remember use_cache addr geo_id cache =
      if use_cache && ltb 0 geo_id then Cache.set cm addr geo_id cache else cache

  -- Both addresses are in the cache: only the event is marked, and the last error is returned.
  pub mark_both : Env → ℕ → ℕ → ℕ → World → (List ℕ × List Err) × World
  unfolding mark
  mark_both env id r_id o_id w =
      let (e1, h1) = mark env id r_id true w.calls in
      let (e2, h2) = mark env id o_id false h1 in
      (
        (r_id ∷ o_id ∷ [], elim e2 [ some e ↦ e ∷ [] | none ↦ append_error [] e1 ]),
        record w { calls = h2 },
      )

  -- Otherwise both are resolved and marked, whatever fails. Both ids are put into the cache under
  -- the remote address.
  pub resolve_both : Bool → Env → Event → World → (List ℕ × List Err) × World
  unfolding mark remember append_error
  resolve_both use_cache env event w =
      let (r1, h1) = resolve_addr env event.remote_addr w.calls in
      let cache1 = remember use_cache event.remote_addr (id_of r1) w.cache in
      let (e1, h2) = mark env event.id (id_of r1) true h1 in
      let (r2, h3) = resolve_addr env event.origin_addr h2 in
      let cache2 = remember use_cache event.remote_addr (id_of r2) cache1 in
      let (e2, h4) = mark env event.id (id_of r2) false h3 in
      let errs =
        append_error (append_error (append_error (append_error [] (error_of r1)) e1) (error_of r2))
          e2 in
      ((id_of r1 ∷ id_of r2 ∷ [], errs), record { cache = cache2; calls = h4 })

  unfoldable pub resolve_event : Bool → Env → Event → World → (List ℕ × List Err) × World
  unfolding mark_both resolve_both
  resolve_event use_cache env event w =
      let (r_id, _) = Cache.get cm event.remote_addr w.cache in
      let (o_id, _) = Cache.get cm event.origin_addr w.cache in
      if event.id == 0
      then ((0 ∷ 0 ∷ [], codes "bad event recv" ∷ []), w)
      else if use_cache && (ltb 0 r_id && ltb 0 o_id)
      then mark_both env event.id r_id o_id w
      else resolve_both use_cache env event w
