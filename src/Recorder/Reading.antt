-- ===== src/Recorder/Reading.antt =====
-- event/event.go: `GetEvent`, which reads an event back with the locations of its addresses.
use passwd_pot.Common.{
  ℕ, ℤ, pos, Bytes, codes, true, false, List, [], ◌∷◌, map, Option, none, some, ok, ◌≡◌, refl,
  Result-cases, inl, inr,
}
use passwd_pot.Api.{Event, EventGeo, empty_event_geo}
use passwd_pot.Resolver.{Err}
use passwd_pot.Resolver.Location.{Geo}
use passwd_pot.Recorder.{record_event}
use passwd_pot.Recorder.Columns.{
  Column, ViewColumn, Value, number, text, instant, real, Row, set_column, given, kept, Tables,
  insert_columns, insert_args, record_in, event_db, mark_in, event_geo,
}

-- A destination of `Scan`: the event with the value in one field, or none where the value does not
-- convert. NULL converts into none of these types; other kinds of values than those of the field's
-- own are not in the columns, and count as errors.
abbrev pub Dest : Type 0
Dest = Value → EventGeo → Option EventGeo

abbrev pub into_text : (Bytes → EventGeo → EventGeo) → Dest
into_text put (text s) e = some (put s e)
into_text put _ e = none

abbrev pub into_number : (ℤ → EventGeo → EventGeo) → Dest
into_number put (number n) e = some (put n e)
into_number put _ e = none

abbrev pub into_instant : (ℤ → EventGeo → EventGeo) → Dest
into_instant put (instant t) e = some (put t e)
into_instant put _ e = none

abbrev pub into_real : (ℤ → EventGeo → EventGeo) → Dest
into_real put (real x) e = some (put x e)
into_real put _ e = none

-- `Scan` stops at the first value that does not convert, and wants as many values as destinations.
unfoldable pub scan : List Dest → List Value → EventGeo → EventGeo × Option Err
scan [] [] e = (e, none)
scan (d ∷ ds) (v ∷ vs) e = elim (d v e) [
  | none ↦ (e, some (codes "sql: Scan error"))
  | some e' ↦ scan ds vs e'
]
scan _ _ e = (e, some (codes "sql: wrong number of destination arguments in Scan"))

abbrev pub select_columns : List ViewColumn
select_columns =
    ViewColumn.id ∷ ViewColumn.dt ∷ ViewColumn.username ∷ ViewColumn.passwd ∷ ViewColumn.remote_addr
    ∷ ViewColumn.remote_name ∷ ViewColumn.remote_version ∷ ViewColumn.remote_port
    ∷ ViewColumn.remote_country ∷ ViewColumn.remote_city ∷ ViewColumn.origin_addr
    ∷ ViewColumn.origin_country ∷ ViewColumn.origin_city ∷ ViewColumn.remote_latitude
    ∷ ViewColumn.remote_longitude ∷ ViewColumn.origin_latitude ∷ ViewColumn.origin_longitude ∷ []

unfoldable pub destinations : List Dest
destinations =
    into_number (λ n e. record e { id = n })
    ∷ into_instant (λ x e. record e { time = x })
    ∷ into_text (λ s e. record e { user = s })
    ∷ into_text (λ s e. record e { passwd = s })
    ∷ into_text (λ s e. record e { remote_addr = s })
    ∷ into_text (λ s e. record e { remote_name = s })
    ∷ into_text (λ s e. record e { remote_version = s })
    ∷ into_number (λ n e. record e { remote_port = n })
    ∷ into_text (λ s e. record e { remote_country = s })
    ∷ into_text (λ s e. record e { remote_city = s })
    ∷ into_text (λ s e. record e { origin_addr = s })
    ∷ into_text (λ s e. record e { origin_country = s })
    ∷ into_text (λ s e. record e { origin_city = s })
    ∷ into_real (λ x e. record e { remote_latitude = x })
    ∷ into_real (λ x e. record e { remote_longitude = x })
    ∷ into_real (λ x e. record e { origin_latitude = x })
    ∷ into_real (λ x e. record e { origin_longitude = x })
    ∷ []

module _ (t : Tables) where
  -- `GetEvent`: the event, which is empty where there is no row, and the error.
  unfoldable pub get_event : ℕ → t.Store → EventGeo × Option Err
  unfolding scan destinations
  get_event id s = elim (t.event s id) [
    | none ↦ (empty_event_geo, some (codes "sql: no rows in result set"))
    | some row ↦ scan destinations (map (event_geo t s row) select_columns) empty_event_geo
  ]

  abbrev pub text_of : (Geo → Bytes) → Option Geo → Bytes
  text_of f none = []
  text_of f (some g) = f g

  abbrev pub real_of : (Geo → ℤ) → Option Geo → ℤ
  real_of f none = pos 0
  real_of f (some g) = f g

  -- An event as it should be read back, with these locations of its sender and of the pot.
  abbrev pub read_back : Event → ℕ → Option Geo → Option Geo → EventGeo
  read_back event id remote origin = record {
    id = pos id;
    time = t.precision event.time;
    user = event.user;
    passwd = event.passwd;
    remote_addr = event.remote_addr;
    remote_port = event.remote_port;
    remote_name = event.remote_name;
    remote_version = event.remote_version;
    remote_country = text_of (λ g. g.country_code) remote;
    remote_city = text_of (λ g. g.city) remote;
    origin_addr = event.origin_addr;
    origin_country = text_of (λ g. g.country_code) origin;
    origin_city = text_of (λ g. g.city) origin;
    remote_latitude = real_of (λ g. g.latitude) remote;
    remote_longitude = real_of (λ g. g.longitude) remote;
    origin_latitude = real_of (λ g. g.latitude) origin;
    origin_longitude = real_of (λ g. g.longitude) origin;
    metro_code = 0;
  }

  abbrev pub written : Event → ℕ → Row
  unfolding insert_args
  written event id =
      set_column Column.id (number (pos id))
        (λ d. kept t.precision (given insert_columns (insert_args event) d))

  pub record_in-event :
      (event : Event) (s s' : t.Store) (id : ℕ)
      → record_in t event s ≡ (ok id, s')
      → t.event s' id ≡ some (written event id)
  unfolding record_in record_event insert_args event_db
  record_in-event event s s' id e =
      let (answer, left) = t.insert insert_columns (insert_args event) s in
      elim (Result-cases answer) [
        | inr (x, failed) ↦ absurd (let e' = rw (failed, record_in) at e in cc)
        | inl (res, given_) ↦
            let e' = rw (given_, record_in) at e in
            t.event-insert insert_columns (insert_args event) s s' id cc
      ]

  get_event-written :
      (event : Event) (s : t.Store) (id : ℕ)
      → t.event s id ≡ some (written event id)
      → get_event id s ≡ (read_back event id none none, none)
  unfolding get_event scan destinations insert_args
  get_event-written event s id e = rw (e, get_event) refl

  pub get_event-located :
      (event : Event) (s : t.Store) (id r o : ℕ) (remote origin : Option Geo)
      → t.event s id
        ≡ some (
            set_column Column.origin_geo_id
              (number (pos o))
              (set_column Column.remote_geo_id (number (pos r)) (written event id)))
      → t.geo s r ≡ remote
      → t.geo s o ≡ origin
      → get_event id s ≡ (read_back event id remote origin, none)
  unfolding get_event scan destinations insert_args
  get_event-located event s id r o none none e hr ho = rw (e, get_event) (simp (hr, ho) refl)
  get_event-located event s id r o none (some c) e hr ho = rw (e, get_event) (simp (hr, ho) refl)
  get_event-located event s id r o (some b) none e hr ho = rw (e, get_event) (simp (hr, ho) refl)
  get_event-located event s id r o (some b) (some c) e hr ho =
      rw (e, get_event) (simp (hr, ho) refl)

  -- An event that was recorded is read back under the id that was returned: at first with no
  -- locations, and once both updates of the resolver went through, with those of the two rows of
  -- `geo` that they name. Nothing is lost but what the column cuts off the instant, the
  -- application and the protocol.
  pub get_event-record_in :
      (event : Event) (s s1 s2 s3 : t.Store) (id r o : ℕ) (remote origin : Geo)
      → record_in t event s ≡ (ok id, s1)
      → mark_in t id r true s1 ≡ (none, s2)
      → mark_in t id o false s2 ≡ (none, s3)
      → t.geo s3 r ≡ some remote
      → t.geo s3 o ≡ some origin
      → (get_event id s1 ≡ (read_back event id none none, none))
        × (get_event id s3 ≡ (read_back event id (some remote) (some origin), none))
  unfolding mark_in
  get_event-record_in event s s1 s2 s3 id r o remote origin recorded marked_r marked_o hr ho =
      let e1 = record_in-event event s s1 id recorded in
      let e2 = t.event-update Column.remote_geo_id (number (pos r)) s1 s2 id _ marked_r e1 in
      let e3 = t.event-update Column.origin_geo_id (number (pos o)) s2 s3 id _ marked_o e2 in
      (
        get_event-written event s1 id e1,
        get_event-located event s3 id r o (some remote) (some origin) e3 hr ho,
      )
