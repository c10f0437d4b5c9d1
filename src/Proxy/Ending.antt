-- ===== src/Proxy/Ending.antt =====
-- cmd/proxy.go: a drain comes to an end, whatever is posted meanwhile, and drains empty the queue.
use mathlib.Core.Option.{none-ne-some}
use passwd_pot.Common.{
  sym, ◌∙◌, ℕ, zero, suc, ◌+◌, ◌≤◌, ◌<◌, ltb, Bytes, List, [], ◌∷◌, ◌++◌, Option, none, some, ◌≡◌,
  inl, inr, refl, length, arith, Bool-cases, Option-cases, if◌then◌else◌,
}
use passwd_pot.Api.{Event}
use passwd_pot.Proxy.{Queue, max_batch_size, drain}
use passwd_pot.Proxy.Batch.{no_items, take_batch, drain-take_batch}
use passwd_pot.Proxy.Rounds.{
  Drainer, idle, collecting, State, state, round, go_on, start, Next, more, stop, give_up,
}

module _ (queue : Queue) (decode : Bytes → Option Event) where
  -- Rounds of one drain, counted, with items put in between them.
  pub data During : ℕ → State queue → State queue → Type 0 where
    at_begin : {s : State queue} → During 0 s s
    meanwhile :
        {n : ℕ} {s t : State queue} (v : Bytes)
        → During n s t
        → During n s (
            state queue
              (queue.enqueue v t.q).1
              t.drainer
              (if (queue.enqueue v t.q).0 then t.posted ++ v ∷ [] else t.posted)
              t.sent)
    next :
        {n size : ℕ} {es : List Event} {s : State queue} {q : queue.Store} {ps : List Bytes}
        {bs : List (List Event)}
        → During n s (state queue q (collecting size es) ps bs)
        → During (suc n) s (
            go_on queue decode
              (round queue decode size es q).0
              es
              (round queue decode size es q).1
              ps
              bs)

  -- A drain that goes on holds a byte for each round and fits the batch bound; one that has ended
  -- took one round more at most.
  abbrev pub Bounded : ℕ → Drainer → Type 0
  Bounded n idle = n ≤ max_batch_size + 1
  Bounded n (collecting size es) = (n ≤ size) × (size ≤ max_batch_size)

  -- What a round adds to the buffer fits it and is not nothing.
  Grown : ℕ → Next → Type 0
  Grown size (more size' es) = (size < size') × (size' ≤ max_batch_size)
  Grown size stop = Unit
  Grown size give_up = Unit

  not_empty : (v : Bytes) (e : Event) → decode [] ≡ none → decode v ≡ some e → 0 < length v
  not_empty [] e h good = absurd (none-ne-some e (sym h ∙ good))
  not_empty (c ∷ v) e h good = omega arith

  round-Grown :
      (size : ℕ) (es : List Event) (q : queue.Store)
      → decode [] ≡ none
      → Grown size (round queue decode size es q).0
  unfolding round Grown
  round-Grown size es q h = elim (Bool-cases (ltb size max_batch_size)) [
    | inr full ↦ rw (full, round) tt
    | inl room ↦ elim (Option-cases (queue.dequeue q).0) [
      | inl no_item ↦ rw (room, round) (rw no_item tt)
      | inr (v, item) ↦ elim (Bool-cases (ltb max_batch_size (size + length v))) [
        | inl over ↦ rw (room, round) (rw item (rw over tt))
        | inr fits ↦ elim (Option-cases (decode v)) [
          | inl bad ↦ rw (room, round) (rw item (rw (fits, bad) tt))
          | inr (e, good) ↦
              rw (room, round)
                (rw item
                  (rw (fits, good) (ground (arith, not_empty v e h good), ground (arith, fits))))
        ]
      ]
    ]
  ]

  go_on-Bounded :
      (n size : ℕ) (next : Next) (es : List Event) (q : queue.Store) (ps : List Bytes)
      (bs : List (List Event))
      → Grown size next
      → Bounded n (collecting size es)
      → Bounded (suc n) (go_on queue decode next es q ps bs).drainer
  unfolding Grown
  go_on-Bounded n size (more size' es') es q ps bs g b = (omega arith, omega arith)
  go_on-Bounded n size stop es q ps bs g b = omega arith
  go_on-Bounded n size give_up es q ps bs g b = omega arith

  -- A drain ends, whatever is put into the queue between its rounds, provided that no item is empty
  -- or an empty item is no event: while it goes on, it has taken at most as many rounds as bytes,
  -- and no more bytes than the batch bound, so that it takes at most one round for each byte of the
  -- bound and one more.
  pub During-Bounded :
      (n : ℕ) (q : queue.Store) (ps : List Bytes) (bs : List (List Event)) (t : State queue)
      → decode [] ≡ none
      → During n (state queue q (collecting 0 []) ps bs) t
      → Bounded n t.drainer
  During-Bounded n q ps bs t h at_begin = (omega arith, omega arith)
  During-Bounded n q ps bs t h (meanwhile {t = s} v r) = During-Bounded n q ps bs s h r
  During-Bounded n q ps bs t h
        (next {n = m} {size = size} {es = es} {q = q'} {ps = ps'} {bs = bs'} r) =
      go_on-Bounded m size (round queue decode size es q').0 es _ _ _ (round-Grown size es q' h)
        (During-Bounded m q ps bs _ h r)

  take_batch-length :
      (size : ℕ) (vs : List Bytes) → length (take_batch decode size vs).1 ≤ length vs
  unfolding take_batch
  take_batch-length size [] = omega arith
  take_batch-length size (v ∷ vs) = ground (arith, take_batch-length (size + length v) vs)

  drain_shorter :
      (q : queue.Store) (items : List Bytes) (n : ℕ)
      → queue.items q ≡ items
      → length items ≤ suc n
      → length (queue.items (drain queue decode q).1) ≤ n
  unfolding take_batch
  drain_shorter q [] n h le =
      let left = rw h at ((drain-take_batch decode queue q).1) in rw left (omega arith)
  drain_shorter q (v ∷ vs) n h le =
      let left = rw h at ((drain-take_batch decode queue q).1) in
      rw left (ground (arith, take_batch-length (length v) vs))

  -- A timer that goes off often enough empties the queue: as many drains as there are items leave
  -- none, if no request comes in between.
  pub start-empty :
      (n : ℕ) (q : queue.Store)
      → length (queue.items q) ≤ n
      → queue.items (start queue decode n q).1 ≡ []
  unfolding start
  start-empty zero q h = no_items (queue.items q) (omega (arith, h))
  start-empty (suc n) q h =
      start-empty n (drain queue decode q).1 (drain_shorter q (queue.items q) n refl h)
