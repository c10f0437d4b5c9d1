-- ===== src/Lambda.antt =====
-- aws/lambda/events.go and geolookup.go: the handlers behind the API gateway.
pub mod Setup
pub mod Boot
pub mod Ready
pub mod Assign
pub mod Grouped
pub mod Stored
pub mod Stores
pub mod Marking
pub mod ReadBack
pub mod Located
pub mod Traced
pub mod Answered
pub mod BatchLocated
pub mod Shared
mod Tests
mod ReadTests
use passwd_pot.Common.{
  ℕ, Bytes, codes, bytes_eq, Bool, true, false, if◌then◌else◌, List, [], ◌∷◌, Option, none, some,
  Result, ok, err, Assoc, lookup, insert,
}
use passwd_pot.Api.{Event, BatchEventResponse}
use passwd_pot.Cache.{ConcurrentMap}
use passwd_pot.Resolver.{Err, Env, World, resolve, resolve_event}
use passwd_pot.Resolver.Location.{Geo}
use passwd_pot.Recorder.{EventDb, record_event, BatchDb, BatchRun, record_batch_events}

-- What the text of an error body is made from.
pub data Body : Type 0 where
  batch_insert_error : Body
  setup_error_body : Err → Body
  bad_event : Event → Body
  batch_failed : Err → Body
  bad_setup : Err → Body
  load_failed : Err → Body
  invalid_addr : Body
  lookup_failed : Err → Body

-- `APIError`: the status code and the body of the gateway's response.
pub record ApiError : Type 0 where
  pub status_code : ℕ
  pub body : Body

abbrev pub api_error : ℕ → Body → ApiError
api_error status_code body = record { status_code = status_code; body = body }

-- What the handlers run against: the answers of the resolver's database and service, the two event
-- tables, and `db.Ping`, whose answer may differ at each call of `setup`.
pub record Backend : Type 0 where
  pub env : Env
  pub events : EventDb
  pub batches : BatchDb
  pub ping : Option Err

-- `if addr == "test-invoke-source-ip" { addr = "127.0.0.1" }`
unfoldable pub gateway_addr : Bytes → Bytes
gateway_addr addr =
    if bytes_eq addr (codes "test-invoke-source-ip") then codes "127.0.0.1" else addr

-- What `setup` makes of `setupError`: a failed ping sets it, and nothing clears it.
unfoldable pub setup : Option Err → Option Err → Option Err
setup ping setup_error = elim ping [ some e ↦ some e | none ↦ setup_error ]

pub record BatchEvent : Type 0 where
  pub origin_addr : Bytes
  pub events : List Event

-- The variables of the loop of `HandleBatch`.
pub record Loop : Type 0 where
  pub geo_ids : Assoc ℕ
  pub id : ℕ

abbrev pub text_of : Option Err → Err
text_of none = []
text_of (some e) = e

module _ (cm : ConcurrentMap) where
  -- The state of a handler: the resolver's, and the global `setupError`.
  pub record State : Type 0 where
    pub world : World cm
    pub setup_error : Option Err

  -- `resolveAddr`: the client always uses the cache.
  unfoldable pub resolve_addr : Env → Bytes → World cm → Result ApiError ℕ × World cm
  resolve_addr env addr w =
      let (r, w') = resolve cm true env addr w in
      elim r [ ok id ↦ (ok id, w') | err e ↦ (err (api_error 500 batch_insert_error), w') ]

  -- The part of the body before the assignments: the id that the event gets, which is that of the
  -- last address that was resolved where this one was seen before.
  unfoldable pub next_id : Env → Bytes → Loop → World cm → Result ApiError Loop × World cm
  unfolding resolve_addr
  next_id env addr l w = elim (lookup addr l.geo_ids) [
    | some _ ↦ (ok l, w)
    | none ↦
        let (r, w') = resolve_addr env addr w in
        elim r [
          | err e ↦ (err e, w')
          | ok id ↦ (ok (record { geo_ids = insert addr id l.geo_ids; id = id }), w')
        ]
  ]

  -- The assignments to an event.
  abbrev pub tag : Event → ℕ → ℕ → Bytes → Event
  tag e id gid origin = record e { remote_geo_id = id; origin_geo_id = gid; origin_addr = origin }

  abbrev pub add_event :
      Event
      → Result ApiError (List Event × Loop) × World cm
      → Result ApiError (List Event × Loop) × World cm
  add_event e (err x, w) = (err x, w)
  add_event e (ok (es, l), w) = (ok (e ∷ es, l), w)

  -- The loop: the events as they are assigned, and the variables behind it.
  unfoldable pub assign :
      Env
      → Bytes
      → ℕ
      → List Event
      → Loop
      → World cm
      → Result ApiError (List Event × Loop) × World cm
  unfolding next_id
  assign env origin gid [] l w = (ok ([], l), w)
  assign env origin gid (e ∷ es) l w = elim (bytes_eq e.remote_addr []) [
    | true ↦ (err (api_error 500 (bad_event e)), w)
    | false ↦
        let (r, w') = next_id env e.remote_addr l w in
        elim r [
          | err x ↦ (err x, w')
          | ok l' ↦ add_event (tag e l'.id gid origin) (assign env origin gid es l' w')
        ]
  ]

  -- Behind the loop.
  unfoldable pub store_batch :
      BatchDb → Result ApiError (List Event × Loop) → Result ApiError BatchEventResponse
  unfolding record_batch_events
  store_batch db (err x) = err x
  store_batch db (ok (events, l)) = elim ((record_batch_events db events).result) [
    | err e ↦ err (api_error 500 (batch_failed e))
    | ok response ↦ ok response
  ]

  -- `HandleBatch` where the setup is fine.
  unfoldable pub run_batch :
      Backend → BatchEvent → World cm → Result ApiError BatchEventResponse × World cm
  unfolding gateway_addr resolve_addr assign store_batch
  run_batch b batch w =
      let origin = gateway_addr batch.origin_addr in
      let (r, w') = resolve_addr b.env origin w in
      elim r [
        | err x ↦ (err x, w')
        | ok gid ↦
            let (assigned, w'') =
              assign b.env origin gid batch.events (record { geo_ids = []; id = 0 }) w' in
            (store_batch b.batches assigned, w'')
      ]

  unfoldable pub handle_batch :
      Backend → BatchEvent → State → Result ApiError BatchEventResponse × State
  unfolding run_batch setup
  handle_batch b batch s = elim s.setup_error [
    | some e ↦
        let after = setup b.ping (some e) in
        (err (api_error 500 (setup_error_body (text_of after))), record s { setup_error = after })
    | none ↦ let (r, w) = run_batch b batch s.world in (r, record s { world = w })
  ]

  -- `Handle` behind its guards: the event is recorded, and resolved under its new id; an error of
  -- the resolver is only logged.
  unfoldable pub store_event : Backend → Event → World cm → Result ApiError ℕ × World cm
  unfolding record_event gateway_addr
  store_event b event w =
      let e = record event { origin_addr = gateway_addr event.origin_addr } in
      elim (record_event b.events e) [
        | err x ↦ (err (api_error 500 (load_failed x)), w)
        | ok id ↦ (ok id, (resolve_event cm true b.env (record e { id = id }) w).1)
      ]

  unfoldable pub handle : Backend → Event → State → Result ApiError ℕ × State
  unfolding store_event setup
  handle b event s = elim (bytes_eq event.remote_addr []) [
    | true ↦ (err (api_error 400 (bad_event event)), s)
    | false ↦ elim s.setup_error [
      | some e ↦ (err (api_error 500 (bad_setup e)), record s { setup_error = setup b.ping none })
      | none ↦ let (r, w) = store_event b event s.world in (r, record s { world = w })
    ]
  ]

-- `HandleGeoLookup`; `locate` is `geoClient.GetLocationForAddr`.
unfoldable pub handle_geo_lookup : (Bytes → Result Err Geo) → Bytes → Result ApiError Geo
handle_geo_lookup locate addr =
    if bytes_eq addr []
    then err (api_error 500 invalid_addr)
    else elim (locate addr) [ err e ↦ err (api_error 500 (lookup_failed e)) | ok geo ↦ ok geo ]
