-- ===== src/Resolver/Clients.antt =====
-- resolver/resolve.go: clients with and without a cache that take turns on the cache that they
-- share, and the clearing of it.
use passwd_pot.Common.{
  ℕ, List, [], ◌∷◌, ◌<◌, ◌==◌, ◌&&◌, ltb, Bytes, bytes_eq, bytes_eq_iff, Bool, true, false, ◌≡◌,
  ◌⊎◌, inl, inr, refl, sym, ap, ◌∙◌, arith, Bool-cases,
}
use passwd_pot.Api.{Event}
use passwd_pot.Cache
use passwd_pot.Cache.{ConcurrentMap}
use passwd_pot.Cache.Laws
use passwd_pot.Resolver.{Env, resolve, remember, World, mark_both, resolve_both, resolve_event}
use passwd_pot.Resolver.Shared.{get-remember}

module _ (cm : ConcurrentMap) (env : Env) where
  -- A call by any client, with a cache or without one; or the cache is cleared.
  pub data Turn : World cm → World cm → Type 0 where
    resolves :
        {w : World cm} (use_cache : Bool) (addr : Bytes)
        → Turn w (resolve cm use_cache env addr w).1
    resolves_event :
        {w : World cm} (use_cache : Bool) (event : Event)
        → Turn w (resolve_event cm use_cache env event w).1
    clears : {w : World cm} → Turn w (record w { cache = Cache.clear cm w.cache })

  pub data Turns : World cm → World cm → Type 0 where
    here : {w : World cm} → Turns w w
    and_then : {w x y : World cm} → Turns w x → Turn x y → Turns w y

  abbrev pub IsOneOf : ℕ → List ℕ → Type 0
  IsOneOf id [] = ⊥
  IsOneOf id (x ∷ xs) = (id ≡ x) ⊎ IsOneOf id xs

  -- Where an id under an address comes from: in the run from `w` to `x` a client with a cache
  -- resolved an event of that sender, and the id is one of the two that it returned.
  pub record Sourced (w x : World cm) (sender : Bytes) (id : ℕ) : Type 0 where
    pub event : Event
    pub is_sender : event.remote_addr ≡ sender
    pub found_at : World cm
    pub first : Turns w found_at
    pub next : Turns (resolve_event cm true env event found_at).1 x
    pub returned : IsOneOf id (resolve_event cm true env event found_at).0.0
    pub positive : 0 < id

  abbrev AllSourced : World cm → World cm → Type 0
  AllSourced w x = (j : Bytes) (id : ℕ) → Cache.get cm j x.cache ≡ (id, true) → Sourced w x j id

  abbrev Held : Bytes → ℕ → cm.Map → Type 0
  Held j id cache = Cache.get cm j cache ≡ (id, true)

  -- An id that a write has put into the cache, or that was there before.
  remember-Held :
      (use_cache : Bool) (addr j : Bytes) (new id : ℕ) (cache : cm.Map)
      → Held j id (remember cm use_cache addr new cache)
      → Held j id cache ⊎ ((use_cache ≡ true) × (addr ≡ j) × (id ≡ new) × (0 < id))
  remember-Held use_cache addr j new id cache found =
      let held = sym (get-remember cm use_cache addr j new cache) ∙ found in
      elim (Bool-cases (use_cache && ltb 0 new && bytes_eq addr j)) [
        | inl set ↦
            let pair = rw set at held in
            let same : new ≡ id = ap (λ (r : ℕ × Bool). r.0) pair in
            inr (
              ground (arith, set),
              ground (arith, bytes_eq_iff addr j, set),
              sym same,
              ground (arith, set, same),
            )
        | inr kept ↦ inl (rw kept at held)
      ]

  -- The same of an event.
  abbrev Written : Bool → Event → World cm → Bytes → ℕ → Type 0
  Written use_cache event w j id =
      (use_cache ≡ true)
      × (event.remote_addr ≡ j)
      × IsOneOf id (resolve_event cm use_cache env event w).0.0
      × (0 < id)

  resolve_both-Held :
      (use_cache : Bool) (event : Event) (w : World cm) (j : Bytes) (id : ℕ)
      → Held j id (resolve_both cm use_cache env event w).1.cache
      → Held j id w.cache
        ⊎ ((use_cache ≡ true)
            × (event.remote_addr ≡ j)
            × IsOneOf id (resolve_both cm use_cache env event w).0.0
            × (0 < id))
  unfolding resolve_both
  resolve_both-Held use_cache event w j id found =
      elim (remember-Held use_cache event.remote_addr j _ id _ found) [
        | inr (cached, of_sender, second, positive) ↦
            inr (cached, of_sender, inr (inl second), positive)
        | inl held ↦ elim (remember-Held use_cache event.remote_addr j _ id w.cache held) [
          | inr (cached, of_sender, first, positive) ↦ inr (cached, of_sender, inl first, positive)
          | inl old ↦ inl old
        ]
      ]

  resolve_event-Held :
      (use_cache : Bool) (event : Event) (w : World cm) (j : Bytes) (id : ℕ)
      → Held j id (resolve_event cm use_cache env event w).1.cache
      → Held j id w.cache ⊎ Written use_cache event w j id
  unfolding resolve_event mark_both
  resolve_event-Held use_cache event w j id found = elim (Bool-cases (event.id == 0)) [
    | inl bad ↦ inl (rw (bad, resolve_event) at found)
    | inr good ↦
        elim (Bool-cases (
          use_cache
          && (ltb 0 (Cache.get cm event.remote_addr w.cache).0
              && ltb 0 (Cache.get cm event.origin_addr w.cache).0))) [
                | inl hit ↦ let found' = rw (good, resolve_event) at found in inl (rw hit at found')
                | inr miss ↦
                    let found' = rw (good, resolve_event) at found in
                    let found'' = rw miss at found' in
                    rw (good, resolve_event)
                      (rw miss (resolve_both-Held use_cache event w j id found''))
              ]
  ]

  resolve-cache :
      (use_cache : Bool) (addr : Bytes) (w : World cm)
      → (resolve cm use_cache env addr w).1.cache ≡ w.cache
  unfolding resolve
  resolve-cache use_cache addr w = elim (Bool-cases (use_cache && (Cache.get cm addr w.cache).1)) [
    | inl hit ↦ rw (hit, resolve) refl
    | inr miss ↦ rw (miss, resolve) refl
  ]

  nothing-Held :
      (j : Bytes) (id : ℕ) (cache : cm.Map)
      → Cache.get cm j cache ≡ (0, false)
      → ¬ (Held j id cache)
  nothing-Held j id cache nothing found =
      let hit : false ≡ true = ap (λ (r : ℕ × Bool). r.1) (sym nothing ∙ found) in
      absurd (ground (arith, hit))

  -- One more turn behind a run.
  later-Sourced :
      (w x y : World cm) (j : Bytes) (id : ℕ) → Turn x y → Sourced w x j id → Sourced w y j id
  later-Sourced w x y j id t s = record {
    event = s.event;
    is_sender = s.is_sender;
    found_at = s.found_at;
    first = s.first;
    next = and_then s.next t;
    returned = s.returned;
    positive = s.positive;
  }

  event-Sourced :
      (w x : World cm) (use_cache : Bool) (event : Event) (j : Bytes) (id : ℕ)
      → Turns w x
      → Written use_cache event x j id
      → Sourced w (resolve_event cm use_cache env event x).1 j id
  event-Sourced w x false event j id r (cached, of_sender, returned, positive) =
      absurd (ground (arith, cached))
  event-Sourced w x true event j id r (cached, of_sender, returned, positive) = record {
    event = event;
    is_sender = of_sender;
    found_at = x;
    first = r;
    next = here;
    returned = returned;
    positive = positive;
  }

  Turn-AllSourced :
      (w : World cm) {x y : World cm} → Turns w x → Turn x y → AllSourced w x → AllSourced w y
  unfolding resolve
  Turn-AllSourced w {x} r (resolves use_cache addr) all j id found =
      later-Sourced w x _ j id (resolves use_cache addr)
        (all j id (rw (resolve-cache use_cache addr x) at found))
  Turn-AllSourced w {x} r (resolves_event use_cache event) all j id found =
      elim (resolve_event-Held use_cache event x j id found) [
        | inl old ↦ later-Sourced w x _ j id (resolves_event use_cache event) (all j id old)
        | inr new ↦ event-Sourced w x use_cache event j id r new
      ]
  Turn-AllSourced w {x} r clears all j id found =
      absurd (nothing-Held j id (Cache.clear cm x.cache) (Laws.get_after cm j j 0 x.cache).2 found)

  Turns-AllSourced : (w x : World cm) → Turns w x → AllSourced w w → AllSourced w x
  Turns-AllSourced w x here all = all
  Turns-AllSourced w x (and_then {x = y} r t) all =
      Turn-AllSourced w r t (Turns-AllSourced w y r all)

  -- However clients take turns on the shared cache, with a cache or without one, and whenever it is
  -- cleared: whatever a look-up of an address finds behind the run is above zero, and is one of the
  -- two ids that a client with a cache returned, in this run, for an event whose remote address is
  -- the one that was looked up. The cache was empty at first.
  pub Turns-Sourced :
      (w x : World cm) (sender : Bytes) (id : ℕ)
      → w.cache ≡ Cache.new_cache cm
      → Turns w x
      → Cache.get cm sender x.cache ≡ (id, true)
      → Sourced w x sender id
  Turns-Sourced w x sender id fresh r found =
      Turns-AllSourced w x r
        (λ j n held. absurd (
          nothing-Held j n (Cache.new_cache cm) (Laws.get_after cm j j 0 w.cache).3
            (rw fresh at held)))
        sender id found
