-- ===== src/Lambda/Assign.antt =====
-- aws/lambda/events.go: the geo ids that `HandleBatch` gives to the events of a batch.
use passwd_pot.Common.{
  bytes_eq_nonempty, ℕ, Bytes, List, [], ◌∷◌, Option, none, some, Result, ok, err, ◌≡◌, ◌≢◌, refl,
  ap, ◌∙◌, sym, arith, lookup, insert, lookup-insert, bytes_eq_iff,
}
use passwd_pot.Api.{Event}
use passwd_pot.Cache.{ConcurrentMap}
use passwd_pot.Resolver.{Env, World}
use passwd_pot.Lambda.{ApiError, Loop, resolve_addr, next_id, tag, add_event, assign}

-- The geo ids of some events.
abbrev pub geo_ids_of : List Event → List ℕ
geo_ids_of [] = []
geo_ids_of (e ∷ es) = e.remote_geo_id ∷ geo_ids_of es

second : (a b : Bytes) (i : ℕ) → b ≢ a → lookup b (insert a i []) ≡ none
unfolding lookup
second a b i differ = ground (arith, lookup-insert a b i [], bytes_eq_iff a b)

third : (a b c : Bytes) (i j : ℕ) → b ≢ a → c ≡ a → lookup c (insert b j (insert a i [])) ≡ some i
unfolding lookup
third a b c i j differ again = ground (
  arith,
  lookup-insert b c j (insert a i []),
  lookup-insert a c i [],
  bytes_eq_iff b c,
  bytes_eq_iff a c,
)

module _ (cm : ConcurrentMap) where
  next_id_new :
      (env : Env) (addr : Bytes) (l : Loop) (w w' : World cm) (id : ℕ)
      → lookup addr l.geo_ids ≡ none
      → resolve_addr cm env addr w ≡ (ok id, w')
      → next_id cm env addr l w ≡ (ok (record { geo_ids = insert addr id l.geo_ids; id = id }), w')
  unfolding next_id
  next_id_new env addr l w w' id new found =
      rw (new, next_id)
        (rw found
          (ap (λ r. (ok (record { geo_ids = insert addr id l.geo_ids; id = id }), r.1)) found))

  next_id_seen :
      (env : Env) (addr : Bytes) (l : Loop) (w : World cm) (j : ℕ)
      → lookup addr l.geo_ids ≡ some j
      → next_id cm env addr l w ≡ (ok l, w)
  unfolding next_id
  next_id_seen env addr l w j seen = rw (seen, next_id)

  assign-cons :
      (env : Env) (origin : Bytes) (gid : ℕ) (e : Event) (es : List Event) (l l' : Loop)
      (w w' : World cm)
      → e.remote_addr ≢ []
      → next_id cm env e.remote_addr l w ≡ (ok l', w')
      → assign cm env origin gid (e ∷ es) l w
        ≡ add_event cm (tag cm e l'.id gid origin) (assign cm env origin gid es l' w')
  unfolding assign
  assign-cons env origin gid e es l l' w w' h next =
      rw (bytes_eq_nonempty e.remote_addr h, assign)
        (rw next (
          ap (λ r. add_event cm (tag cm e l'.id gid origin) (assign cm env origin gid es l' r.1))
            next))

  -- The geo ids of the events that the loop has assigned, where it went through.
  abbrev pub ids_of : Result ApiError (List Event × Loop) × World cm → Option (List ℕ)
  ids_of (err x, w) = none
  ids_of (ok (es, l), w) = some (geo_ids_of es)

  -- An event whose address came earlier in the batch, but not just before it, is stored with the
  -- location of the address before it: of three events from two addresses, the first again at the
  -- end, where the first address resolves to `i` and the second to `j`, the third event gets `j`.
  -- The addresses differ and are not empty.
  pub assign_misplaced :
      (env : Env) (origin : Bytes) (gid : ℕ) (e1 e2 e3 : Event) (w w1 w2 : World cm) (i j : ℕ)
      → e1.remote_addr ≢ []
      → e2.remote_addr ≢ []
      → e2.remote_addr ≢ e1.remote_addr
      → e3.remote_addr ≡ e1.remote_addr
      → resolve_addr cm env e1.remote_addr w ≡ (ok i, w1)
      → resolve_addr cm env e2.remote_addr w1 ≡ (ok j, w2)
      → ids_of (assign cm env origin gid (e1 ∷ e2 ∷ e3 ∷ []) (record { geo_ids = []; id = 0 }) w)
        ≡ some (i ∷ j ∷ j ∷ [])
  unfolding assign lookup
  assign_misplaced env origin gid e1 e2 e3 w w1 w2 i j h1 h2 differ again r1 r2 =
      let l1 : Loop = record { geo_ids = insert e1.remote_addr i []; id = i } in
      let l2 : Loop = record { geo_ids = insert e2.remote_addr j l1.geo_ids; id = j } in
      ap ids_of (
        assign-cons env origin gid e1 (e2 ∷ e3 ∷ []) (record { geo_ids = []; id = 0 }) l1 w w1 h1
          (next_id_new env e1.remote_addr (record { geo_ids = []; id = 0 }) w w1 i refl r1)
        ∙ ap (add_event cm (tag cm e1 i gid origin)) (
            assign-cons env origin gid e2 (e3 ∷ []) l1 l2 w1 w2 h2 (
              next_id_new env e2.remote_addr l1 w1 w2 j
                (second e1.remote_addr e2.remote_addr i differ) r2)
            ∙ ap (add_event cm (tag cm e2 j gid origin)) (
                assign-cons env origin gid e3 [] l2 l2 w2 w2 (λ n. h1 (sym again ∙ n))
                  (next_id_seen env e3.remote_addr l2 w2 i
                    (third e1.remote_addr e2.remote_addr e3.remote_addr i j differ again)))))
      ∙ refl
