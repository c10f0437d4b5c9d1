-- ===== src/Resolver/Marks.antt =====
-- resolver/resolve.go: the ids that `ResolveEvent` returns, and those that it writes to the event.
use passwd_pot.Common.{
  ℕ, Bytes, Bool, true, false, ◌==◌, ◌&&◌, if◌then◌else◌, List, [], ◌∷◌, Option, none, some, ◌≡◌,
  ◌≢◌, refl, arith, ℤ,
}
use passwd_pot.Api.{Event}
use passwd_pot.Cache.{ConcurrentMap}
use passwd_pot.Resolver.Location.{Geo}
use passwd_pot.Resolver.{
  select_geo, get_location, insert_geo, touch_geo, mark_event, History, Row, found, no_rows,
  row_error, Env, add_location, renew_location, known_addr, resolve_addr, id_of, World,
  resolve_event, by_row,
}

abbrev same_flag : Bool → Bool → Bool
same_flag true b = b
same_flag false true = false
same_flag false false = true

-- The geo id that the calls have left in the remote (or the origin) field of an event.
unfoldable pub last_mark : Bool → ℕ → History → Option ℕ
last_mark remote id [] = none
last_mark remote id (mark_event flag geo_id event_id ∷ h) =
    if same_flag remote flag && event_id == id then some geo_id else last_mark remote id h
last_mark remote id (select_geo _ ∷ h) = last_mark remote id h
last_mark remote id (get_location _ ∷ h) = last_mark remote id h
last_mark remote id (insert_geo _ ∷ h) = last_mark remote id h
last_mark remote id (touch_geo _ ∷ h) = last_mark remote id h

module _ (env : Env) (remote : Bool) (id : ℕ) where
  last_mark-add_location :
      (addr : Bytes) (h : History)
      → last_mark remote id (add_location env addr h).1 ≡ last_mark remote id h
  unfolding add_location last_mark
  last_mark-add_location addr h = ground arith

  last_mark-renew_location :
      (geo : Geo) (addr : Bytes) (h : History)
      → last_mark remote id (renew_location env geo addr h).1 ≡ last_mark remote id h
  unfolding renew_location last_mark
  last_mark-renew_location geo addr h = ground arith

  last_mark-by_row :
      (a : Bytes) (expire : ℤ) (row : Row) (h : History)
      → last_mark remote id (by_row env a expire row h).1 ≡ last_mark remote id h
  unfolding by_row
  last_mark-by_row a expire (row_error e) h = refl
  last_mark-by_row a expire no_rows h = last_mark-add_location a h
  last_mark-by_row a expire (found geo) h = ground (arith, last_mark-renew_location geo a h)

  pub last_mark-resolve_addr :
      (addr : Bytes) (h : History)
      → last_mark remote id (resolve_addr env addr h).1 ≡ last_mark remote id h
  unfolding resolve_addr last_mark
  last_mark-resolve_addr addr h =
      last_mark-by_row (known_addr addr) (env.expire h) (env.select h (known_addr addr))
        (select_geo (known_addr addr) ∷ h)

module _ (cm : ConcurrentMap) where
  -- What was returned for an event, and what its fields hold now.
  abbrev pub Marked : ℕ → (List ℕ × List Bytes) × World cm → Type 0
  Marked id ((r ∷ o ∷ [], errs), w) =
      (last_mark true id w.calls ≡ some r) × (last_mark false id w.calls ≡ some o)
  Marked id _ = ⊥

  -- For an event with an id, the last updates that are sent for its row, one of its remote field
  -- and one of its origin field, write exactly the two ids that are returned, on every branch and
  -- whatever fails on the way.
  pub resolve_event-Marked :
      (use_cache : Bool) (env : Env) (event : Event) (w : World cm)
      → event.id ≢ 0
      → Marked event.id (resolve_event cm use_cache env event w)
  unfolding resolve_event last_mark
  resolve_event-Marked use_cache env event w h = ground (
    arith,
    last_mark-resolve_addr env true event.id event.origin_addr (
        mark_event true (id_of (resolve_addr env event.remote_addr w.calls).0) event.id
        ∷ (resolve_addr env event.remote_addr w.calls).1),
  )
