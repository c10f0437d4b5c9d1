-- ===== src/Lambda/Traced.antt =====
-- aws/lambda/events.go: the rows of `geo` that the loop of `HandleBatch` finds.
use passwd_pot.Common.{
  ℕ, Bytes, true, List, [], ◌∷◌, some, Result, ok, err, ◌≡◌, sym, ◌∙◌, arith, Bool-cases,
  Option-cases, inl, inr, lookup, insert, lookup-insert, bytes_eq, bytes_eq_iff, if◌then◌else◌,
}
use passwd_pot.Api.{Event}
use passwd_pot.Cache
use passwd_pot.Cache.{ConcurrentMap}
use passwd_pot.Resolver
use passwd_pot.Resolver.{Err, History, Env, World, known_addr}
use passwd_pot.Resolver.Kept.{resolve_addr-keeps}
use passwd_pot.Resolver.Closed.{HoldsRows, Holds, resolve_addr-Holds}
use passwd_pot.Lambda.{
  api_error, batch_insert_error, ApiError, Loop, resolve_addr, next_id, tag, add_event, assign,
}

module _ (cm : ConcurrentMap) (env : Env) (P : ℕ → Bytes → History → Type 0)
    (rows : HoldsRows env P) where
  -- What the cache holds at an address is the id of a row of that address.
  abbrev pub Sound : World cm → Type 0
  Sound w = (a : Bytes) (id : ℕ) → Cache.get cm a w.cache ≡ (id, true) → P id (known_addr a) w.calls

  abbrev pub Later : World cm → World cm → Type 0
  Later w w' = (n : ℕ) (a : Bytes) → P n a w.calls → P n a w'.calls

  -- What resolving an address leaves: the row of the id that it gives, the cache, and all rows.
  abbrev pub Found : Bytes → World cm → Result ApiError ℕ × World cm → Type 0
  Found addr w (err x, w') = Unit
  Found addr w (ok id, w') = P id (known_addr addr) w'.calls × Sound w' × Later w w'

  -- The same of `Resolve`.
  abbrev Resolved : Bytes → World cm → Result Err ℕ × World cm → Type 0
  Resolved addr w (err x, w') = Unit
  Resolved addr w (ok id, w') = P id (known_addr addr) w'.calls × Sound w' × Later w w'

  missed-Resolved :
      (addr : Bytes) (w : World cm) (r : Result Err ℕ) (h : History)
      → Sound w
      → Holds env P rows (known_addr addr) (r, h)
      → ((n : ℕ) (a : Bytes) → P n a w.calls → P n a h)
      → Resolved addr w (r, record w { calls = h })
  missed-Resolved addr w (err x) h sound held kept = tt
  missed-Resolved addr w (ok id) h sound held kept =
      (held, (λ a i e. kept i (known_addr a) (sound a i e)), kept)

  resolve-Resolved :
      (addr : Bytes) (w : World cm)
      → Sound w
      → Resolved addr w (Resolver.resolve cm true env addr w)
  unfolding Resolver.resolve
  resolve-Resolved addr w sound = elim (Bool-cases (Cache.get cm addr w.cache).1) [
    | inl hit ↦
        let id = (Cache.get cm addr w.cache).0 in
        rw (hit, Resolver.resolve) (sound addr id (λ k. (id, hit k)), sound, λ n a p. p)
    | inr miss ↦
        let (r, h) = Resolver.resolve_addr env addr w.calls in
        rw (miss, Resolver.resolve)
          (missed-Resolved addr w r h sound (resolve_addr-Holds env P rows addr w.calls) (λ n a p.
            resolve_addr-keeps env (P n a) (λ c h l q. rows.lasts n a c h q) addr w.calls p))
  ]

  answered-Found :
      (addr : Bytes) (w : World cm) (x : Result Err ℕ × World cm)
      → Resolved addr w x
      → Found addr w (elim x.0 as (λ _. Result ApiError ℕ × World cm) [
        | ok id ↦ (ok id, x.1)
        | err e ↦ (err (api_error 500 batch_insert_error), x.1)
      ])
  answered-Found addr w (err e, w') r = tt
  answered-Found addr w (ok id, w') r = r

  pub resolve_addr-Found :
      (addr : Bytes) (w : World cm) → Sound w → Found addr w (resolve_addr cm env addr w)
  unfolding resolve_addr
  resolve_addr-Found addr w sound =
      answered-Found addr w (Resolver.resolve cm true env addr w) (resolve-Resolved addr w sound)

  -- The loop: the cache is sound, and so is what the loop knows of addresses.
  pub record Fine (l : Loop) (w : World cm) : Type 0 where
    pub sound : Sound w
    pub known : (a : Bytes) (id : ℕ) → lookup a l.geo_ids ≡ some id → P id (known_addr a) w.calls

  abbrev NextFine : World cm → Result ApiError Loop × World cm → Type 0
  NextFine w (err x, w') = Unit
  NextFine w (ok l', w') = Fine l' w' × Later w w'

  insert-Fine :
      (addr : Bytes) (id : ℕ) (l : Loop) (w w' : World cm)
      → Fine l w
      → P id (known_addr addr) w'.calls × Sound w' × Later w w'
      → Fine (record { geo_ids = insert addr id l.geo_ids; id = id }) w'
  insert-Fine addr id l w w' fine (row, sound, later) = record {
    sound = sound;
    known = λ a i e. elim (Bool-cases (bytes_eq addr a)) [
      | inl same ↦
          let at : (if bytes_eq addr a then some id else lookup a l.geo_ids) ≡ some i =
            sym (lookup-insert addr a id l.geo_ids) ∙ e in
          let at' = rw same at at in
          let ids : id ≡ i = cc in
          let addrs : addr ≡ a = ground (arith, bytes_eq_iff addr a, same) in
          rw (sym ids) (rw (sym addrs) row)
      | inr other ↦
          let at : (if bytes_eq addr a then some id else lookup a l.geo_ids) ≡ some i =
            sym (lookup-insert addr a id l.geo_ids) ∙ e in
          let at' = rw other at at in later i (known_addr a) (fine.known a i at')
    ];
  }

  Found-NextFine :
      (addr : Bytes) (l : Loop) (w : World cm) (r : Result ApiError ℕ × World cm)
      → Fine l w
      → Found addr w r
      → NextFine w (elim r.0 as (λ _. Result ApiError Loop × World cm) [
        | err e ↦ (err e, r.1)
        | ok id ↦ (ok (record { geo_ids = insert addr id l.geo_ids; id = id }), r.1)
      ])
  Found-NextFine addr l w (err x, w') fine found = tt
  Found-NextFine addr l w (ok id, w') fine found = (insert-Fine addr id l w w' fine found, found.2)

  next_id-NextFine :
      (addr : Bytes) (l : Loop) (w : World cm) → Fine l w → NextFine w (next_id cm env addr l w)
  unfolding next_id
  next_id-NextFine addr l w fine = elim (Option-cases (lookup addr l.geo_ids)) [
    | inr (id, seen) ↦ rw (seen, next_id) (fine, λ n a p. p)
    | inl new ↦
        rw (new, next_id)
          (Found-NextFine addr l w (resolve_addr cm env addr w) fine
            (resolve_addr-Found addr w fine.sound))
  ]

  abbrev pub AssignFine : World cm → Result ApiError (List Event × Loop) × World cm → Type 0
  AssignFine w (err x, w') = Unit
  AssignFine w (ok (es', l'), w') = Fine l' w' × Later w w'

  add_event-AssignFine :
      (e : Event) (w w1 : World cm) (r : Result ApiError (List Event × Loop) × World cm)
      → Later w w1
      → AssignFine w1 r
      → AssignFine w (add_event cm e r)
  add_event-AssignFine e w w1 (err x, w') first rest = tt
  add_event-AssignFine e w w1 (ok (es', l'), w') first (fine, later) =
      (fine, λ n a p. later n a (first n a p))

  module _ (origin : Bytes) (gid : ℕ) where
    next-AssignFine :
        (e : Event) (es : List Event) (w : World cm) (r : Result ApiError Loop × World cm)
        → NextFine w r
        → ((l1 : Loop) (w1 : World cm)
            → Fine l1 w1
            → AssignFine w1 (assign cm env origin gid es l1 w1))
        → AssignFine w (elim r.0 as (λ _. Result ApiError (List Event × Loop) × World cm) [
          | err x ↦ (err x, r.1)
          | ok l' ↦ add_event cm (tag cm e l'.id gid origin) (assign cm env origin gid es l' r.1)
        ])
    next-AssignFine e es w (err x, w1) fine rest = tt
    next-AssignFine e es w (ok l1, w1) (fine, later) rest =
        add_event-AssignFine (tag cm e l1.id gid origin) w w1 (assign cm env origin gid es l1 w1)
          later (rest l1 w1 fine)

    pub assign-AssignFine :
        (es : List Event) (l : Loop) (w : World cm)
        → Fine l w
        → AssignFine w (assign cm env origin gid es l w)
    unfolding assign
    assign-AssignFine [] l w fine = (fine, λ n a p. p)
    assign-AssignFine (e ∷ es) l w fine = elim (Bool-cases (bytes_eq e.remote_addr [])) [
      | inl empty ↦ rw (empty, assign) tt
      | inr given ↦
          rw (given, assign)
            (next-AssignFine e es w (next_id cm env e.remote_addr l w)
              (next_id-NextFine e.remote_addr l w fine)
              (λ l1 w1 fine1. assign-AssignFine es l1 w1 fine1))
    ]
