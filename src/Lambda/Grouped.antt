-- ===== src/Lambda/Grouped.antt =====
-- aws/lambda/events.go: what `HandleBatch` writes into the events of a batch in which the events of
-- an address stand together.
use passwd_pot.Common.{
  refl, ℕ, Bytes, List, [], ◌∷◌, none, some, Result, ok, err, ◌≡◌, ◌≢◌, ◌⊎◌, inl, inr, arith, All,
  Assoc, lookup, insert, lookup-insert, bytes_eq_iff, Result-cases, Bool-cases, bytes_eq,
}
use passwd_pot.Api.{Event}
use passwd_pot.Cache.{ConcurrentMap}
use passwd_pot.Resolver.{Env, World}
use passwd_pot.Lambda.{ApiError, Loop, resolve_addr, next_id, tag, add_event, assign}

abbrev pub IsHead : Bytes → List Bytes → Type 0
IsHead a [] = ⊥
IsHead a (b ∷ bs) = a ≡ b

-- Each event has the address of the one before it, or one that was not there yet; `seen` holds the
-- addresses so far, the last one first.
abbrev pub Grouped : List Bytes → List Event → Type 0
Grouped seen [] = Unit
Grouped seen (e ∷ es) =
    (IsHead e.remote_addr seen ⊎ All (λ b. b ≢ e.remote_addr) seen)
    × Grouped (e.remote_addr ∷ seen) es

module _ (cm : ConcurrentMap) (env : Env) (origin : Bytes) (gid : ℕ) where
  -- The events behind the loop are those before it, in order, each with the id of its own address
  -- as the remote id, the id of the origin, and the address of the origin.
  abbrev pub Tags : Assoc ℕ → List Event → List Event → Type 0
  Tags ids [] [] = Unit
  Tags ids [] (e' ∷ es') = ⊥
  Tags ids (e ∷ es) [] = ⊥
  Tags ids (e ∷ es) (e' ∷ es') =
      ((id : ℕ) × (lookup e.remote_addr ids ≡ some id) × (e' ≡ tag cm e id gid origin))
      × Tags ids es es'

  abbrev Keeps : Loop → Loop → Type 0
  Keeps l l' = (a : Bytes) (v : ℕ) → lookup a l.geo_ids ≡ some v → lookup a l'.geo_ids ≡ some v

  -- What the loop knows of the addresses that it has seen.
  record Invariant (seen : List Bytes) (l : Loop) : Type 0 where
    fresh : (a : Bytes) → All (λ b. b ≢ a) seen → lookup a l.geo_ids ≡ none
    current : (a : Bytes) → IsHead a seen → lookup a l.geo_ids ≡ some l.id

  abbrev AssignFits : List Event → Loop → Result ApiError (List Event × Loop) × World cm → Type 0
  AssignFits es l (err x, w) = Unit
  AssignFits es l (ok (es', l'), w) = Tags l'.geo_ids es es' × Keeps l l'

  abbrev NextFits : Bytes → List Bytes → Loop → Result ApiError Loop × World cm → Type 0
  NextFits addr seen l (err x, w) = Unit
  NextFits addr seen l (ok l', w) =
      (lookup addr l'.geo_ids ≡ some l'.id) × Keeps l l' × Invariant (addr ∷ seen) l'

  known-Invariant :
      (addr : Bytes) (seen : List Bytes) (l : Loop)
      → Invariant seen l
      → lookup addr l.geo_ids ≡ some l.id
      → Invariant (addr ∷ seen) l
  known-Invariant addr seen l inv known = record {
    fresh = λ a others. inv.fresh a others.1;
    current = λ a same. rw same known;
  }

  insert-Keeps :
      (addr : Bytes) (id : ℕ) (l : Loop)
      → lookup addr l.geo_ids ≡ none
      → Keeps l (record { geo_ids = insert addr id l.geo_ids; id = id })
  insert-Keeps addr id l new a v h =
      ground (arith, lookup-insert addr a id l.geo_ids, bytes_eq_iff addr a)

  insert-Invariant :
      (addr : Bytes) (seen : List Bytes) (id : ℕ) (l : Loop)
      → Invariant seen l
      → Invariant (addr ∷ seen) (record { geo_ids = insert addr id l.geo_ids; id = id })
  insert-Invariant addr seen id l inv = record {
    fresh = λ a others. ground (
      arith,
      lookup-insert addr a id l.geo_ids,
      bytes_eq_iff addr a,
      others.0,
      inv.fresh a others.1,
    );
    current =
        λ a same. ground (arith, lookup-insert addr a id l.geo_ids, bytes_eq_iff addr a, same);
  }

  next_id-NextFits :
      (addr : Bytes) (seen : List Bytes) (l : Loop) (w : World cm)
      → Invariant seen l
      → IsHead addr seen ⊎ All (λ b. b ≢ addr) seen
      → NextFits addr seen l (next_id cm env addr l w)
  unfolding next_id
  next_id-NextFits addr seen l w inv (inl head) =
      let known = inv.current addr head in
      rw (known, next_id) (known, (λ a v h. h), known-Invariant addr seen l inv known)
  next_id-NextFits addr seen l w inv (inr new) =
      let unknown = inv.fresh addr new in
      rw (unknown, next_id)
        (elim (Result-cases (resolve_addr cm env addr w).0) [
          | inr (x, failed) ↦ rw failed tt
          | inl (id, found) ↦ rw found (
            ground (arith, lookup-insert addr addr id l.geo_ids, bytes_eq_iff addr addr),
            insert-Keeps addr id l unknown,
            insert-Invariant addr seen id l inv,
          )
        ])

  add_event-AssignFits :
      (e : Event) (es : List Event) (l l1 : Loop)
      (r : Result ApiError (List Event × Loop) × World cm)
      → lookup e.remote_addr l1.geo_ids ≡ some l1.id
      → Keeps l l1
      → AssignFits es l1 r
      → AssignFits (e ∷ es) l (add_event cm (tag cm e l1.id gid origin) r)
  add_event-AssignFits e es l l1 (err x, w) known keeps fits = tt
  add_event-AssignFits e es l l1 (ok (es', l'), w) known keeps (tags, keeps') =
      (((l1.id, keeps' e.remote_addr l1.id known, refl), tags), λ a v h. keeps' a v (keeps a v h))

  after_next-AssignFits :
      (e : Event) (es : List Event) (seen : List Bytes) (l : Loop)
      (r : Result ApiError Loop × World cm)
      → NextFits e.remote_addr seen l r
      → ((l1 : Loop) (w1 : World cm)
          → Invariant (e.remote_addr ∷ seen) l1
          → AssignFits es l1 (assign cm env origin gid es l1 w1))
      → AssignFits (e ∷ es) l (elim r.0 as (λ _. Result ApiError (List Event × Loop) × World cm) [
        | err x ↦ (err x, r.1)
        | ok l' ↦ add_event cm (tag cm e l'.id gid origin) (assign cm env origin gid es l' r.1)
      ])
  after_next-AssignFits e es seen l (err x, w) fits rest = tt
  after_next-AssignFits e es seen l (ok l1, w1) (known, keeps, inv) rest =
      add_event-AssignFits e es l l1 (assign cm env origin gid es l1 w1) known keeps
        (rest l1 w1 inv)

  assign-AssignFits :
      (es : List Event) (seen : List Bytes) (l : Loop) (w : World cm)
      → Invariant seen l
      → Grouped seen es
      → AssignFits es l (assign cm env origin gid es l w)
  unfolding assign
  assign-AssignFits [] seen l w inv grouped = (tt, λ a v h. h)
  assign-AssignFits (e ∷ es) seen l w inv (together, grouped) =
      elim (Bool-cases (bytes_eq e.remote_addr [])) [
        | inl empty ↦ rw (empty, assign) tt
        | inr given ↦
            rw (given, assign)
              (after_next-AssignFits e es seen l (next_id cm env e.remote_addr l w)
                (next_id-NextFits e.remote_addr seen l w inv together)
                (λ l1 w1 inv1. assign-AssignFits es (e.remote_addr ∷ seen) l1 w1 inv1 grouped))
      ]

  -- If the events of each address stand together in a batch and the loop goes through, it writes
  -- into every event, and keeps their order, the id that its own address was resolved to, the id of
  -- the origin and the origin's address, and changes nothing else.
  pub assign-Tags :
      (events tagged : List Event) (l : Loop) (w w' : World cm)
      → Grouped [] events
      → assign cm env origin gid events (record { geo_ids = []; id = 0 }) w ≡ (ok (tagged, l), w')
      → Tags l.geo_ids events tagged
  unfolding lookup
  assign-Tags events tagged l w w' grouped done =
      let inv : Invariant [] (record { geo_ids = []; id = 0 }) = record {
        fresh = λ a others. refl;
        current = λ a head. absurd head;
      } in
      (rw done at (assign-AssignFits events [] (record { geo_ids = []; id = 0 }) w inv grouped)).0
