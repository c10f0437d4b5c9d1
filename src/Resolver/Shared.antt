-- ===== src/Resolver/Shared.antt =====
-- resolver/resolve.go: what `ResolveEvent` leaves in the cache that all clients share.
use passwd_pot.Common.{
  ℕ, Bytes, Bool, true, false, ◌==◌, ◌&&◌, ltb, bytes_eq, bytes_eq_iff, if◌then◌else◌, List, [],
  ◌∷◌, ◌≡◌, ◌≢◌, ◌<◌, ◌∙◌, arith, ok,
}
use passwd_pot.Api.{Event}
use passwd_pot.Cache
use passwd_pot.Cache.{ConcurrentMap}
use passwd_pot.Cache.Laws
use passwd_pot.Resolver.{
  mark_event, Env, resolve_addr, resolve, remember, id_of, World, resolve_both, resolve_event,
}

module _ (cm : ConcurrentMap) where
  -- Both addresses have an id in the cache.
  abbrev pub both_cached : Event → World cm → Bool
  both_cached event w =
      ltb 0 (Cache.get cm event.remote_addr w.cache).0
      && ltb 0 (Cache.get cm event.origin_addr w.cache).0

  pub get-remember :
      (use_cache : Bool) (k j : Bytes) (id : ℕ) (cache : cm.Map)
      → Cache.get cm j (remember cm use_cache k id cache)
        ≡ (if use_cache && ltb 0 id && bytes_eq k j then (id, true) else Cache.get cm j cache)
  unfolding remember
  get-remember use_cache k j id cache = ground (arith, Laws.get-set cm k j id cache)

  pub resolve_event-both :
      (env : Env) (event : Event) (w : World cm)
      → event.id ≢ 0
      → both_cached event w ≡ false
      → resolve_event cm true env event w ≡ resolve_both cm true env event w
  unfolding resolve_event
  resolve_event-both env event w h not_cached =
      let id : (event.id == 0) ≡ false = ground arith in rw (id, not_cached)

  -- What the cache holds at an address after an event: a function of what it held before, of the
  -- remote address and of the two ids that were returned.
  abbrev pub cached_after : Event → List ℕ → Bytes → ℕ × Bool → ℕ × Bool
  cached_after event (r ∷ o ∷ []) j before =
      if bytes_eq event.remote_addr j
      then (if ltb 0 o then (o, true) else if ltb 0 r then (r, true) else before)
      else before
  cached_after event _ j before = before

  -- A client with a cache that resolves an event caches it under the remote address alone, and
  -- there the id of the origin address wins: if that is above zero, the remote address reads as
  -- the origin's location from then on, else as its own id if that is above zero, and else as
  -- before. Nothing changes at any other address. The event has an id, and not both addresses were
  -- cached.
  pub resolve_event-cache :
      (env : Env) (event : Event) (w : World cm) (j : Bytes)
      → event.id ≢ 0
      → both_cached event w ≡ false
      → Cache.get cm j (resolve_event cm true env event w).1.cache
        ≡ cached_after event (resolve_event cm true env event w).0.0 j (Cache.get cm j w.cache)
  unfolding resolve_event
  resolve_event-cache env event w j h not_cached =
      let r = id_of (resolve_addr env event.remote_addr w.calls).0 in
      let o =
        id_of
          (resolve_addr env event.origin_addr
            (mark_event true r event.id ∷ (resolve_addr env event.remote_addr w.calls).1)).0 in
      rw (resolve_event-both env event w h not_cached) (
        ground (
          arith,
          get-remember true event.remote_addr j o (remember cm true event.remote_addr r w.cache),
          get-remember true event.remote_addr j r w.cache,
        ))

  -- Behind an event that a client with a cache resolved to two ids, of which that of the origin is
  -- above zero, the next look-up of the remote address gives the origin's id, with no call at all.
  -- The event has an id, and not both addresses were cached.
  pub resolve-resolve_event :
      (env : Env) (event : Event) (w : World cm) (r o : ℕ)
      → event.id ≢ 0
      → both_cached event w ≡ false
      → (resolve_event cm true env event w).0.0 ≡ r ∷ o ∷ []
      → 0 < o
      → resolve cm true env event.remote_addr (resolve_event cm true env event w).1
        ≡ (ok o, (resolve_event cm true env event w).1)
  unfolding resolve
  resolve-resolve_event env event w r o h not_cached ids some_id =
      let after = resolve_event-cache env event w event.remote_addr h not_cached in
      let held : Cache.get cm event.remote_addr (resolve_event cm true env event w).1.cache
          ≡ (o, true) =
        after ∙ rw ids (ground (arith, bytes_eq_iff event.remote_addr event.remote_addr)) in
      rw held
