-- ===== src/Proxy/Batch.antt =====
-- cmd/proxy.go: what `Drain` takes from the queue and what it sends.
use passwd_pot.Common.{
  ℕ, zero, suc, ◌+◌, ◌<◌, ◌==◌, ltb, Bytes, List, [], ◌∷◌, ◌++◌, Option, none, some, ◌≡◌, inl, inr,
  refl, ap, if◌then◌else◌, length, arith, Bool-cases,
}
use passwd_pot.Api.{Event}
use passwd_pot.Proxy.{
  Queue, max_batch_size, Collected, batch, undecodable, keep, to_send, collect, drain,
}

abbrev pub total : List Bytes → ℕ
total [] = 0
total (v ∷ vs) = length v + total vs

pub no_items : (vs : List Bytes) → length vs ≡ 0 → vs ≡ []
no_items [] h = refl
no_items (v ∷ vs) h = absurd (omega arith)

module _ (decode : Bytes → Option Event) where
  -- The loop on the items themselves: what is collected, and what is left.
  unfoldable pub take_batch : ℕ → List Bytes → Collected × List Bytes
  take_batch size [] = (batch [], [])
  take_batch size (v ∷ vs) =
      let (c, left) = take_batch (size + length v) vs in
      if ltb size max_batch_size
      then (if ltb max_batch_size (size + length v)
          then (batch [], vs)
          else elim (decode v) [ none ↦ (undecodable, vs) | some e ↦ (keep e c, left) ])
      else (batch [], v ∷ vs)

  module _ (queue : Queue) where
    collect-take_batch :
        (f size : ℕ) (vs : List Bytes) (q : queue.Store)
        → queue.items q ≡ vs
        → length vs < f
        → ((collect queue decode f size q).0 ≡ (take_batch size vs).0)
          × (queue.items (collect queue decode f size q).1 ≡ (take_batch size vs).1)
    unfolding take_batch collect
    collect-take_batch zero size vs q h lt = absurd (omega arith)
    collect-take_batch (suc f) size [] q h lt = ground (arith, queue.dequeue-empty q h)
    collect-take_batch (suc f) size (v ∷ vs) q h lt =
        let (item, left) = queue.dequeue-items q v vs h in
        ground (
          arith,
          item,
          collect-take_batch f (size + length v) vs (queue.dequeue q).1 left (omega arith),
        )

    -- The fuel of `Drain` is enough, and what it sends and leaves is given by the items alone.
    pub drain-take_batch :
        (q : queue.Store)
        → ((drain queue decode q).0 ≡ to_send (take_batch 0 (queue.items q)).0)
          × (queue.items (drain queue decode q).1 ≡ (take_batch 0 (queue.items q)).1)
    unfolding drain take_batch
    drain-take_batch q =
        let run =
          collect-take_batch (queue.length q + 1) 0 (queue.items q) q refl
            (omega (arith, queue.length-items q)) in
        elim (Bool-cases (queue.length q == 0)) [
          | inl e ↦
              rw (e, drain)
                (rw (no_items (queue.items q) (ground (arith, queue.length-items q))) (refl, refl))
          | inr e ↦ rw (e, drain) (ap to_send run.0, run.1)
        ]

  -- Each item is one of the events, in order.
  abbrev pub Decodes : List Bytes → List Event → Type 0
  Decodes [] [] = Unit
  Decodes [] (e ∷ es) = ⊥
  Decodes (v ∷ vs) [] = ⊥
  Decodes (v ∷ vs) (e ∷ es) = (decode v ≡ some e) × Decodes vs es

  abbrev pub keep_all : List Event → Collected → Collected
  keep_all [] c = c
  keep_all (e ∷ es) c = keep e (keep_all es c)

  pub take_batch-append :
      (size : ℕ) (vs ws : List Bytes) (es : List Event)
      → Decodes vs es
      → size + total vs < max_batch_size
      → take_batch size (vs ++ ws)
        ≡ (keep_all es (take_batch (size + total vs) ws).0, (take_batch (size + total vs) ws).1)
  unfolding take_batch
  take_batch-append size [] ws [] h lt =
      let same : size ≡ size + 0 = omega arith in ap (λ n. take_batch n ws) same
  take_batch-append size [] ws (e ∷ es) h lt = absurd h
  take_batch-append size (v ∷ vs) ws [] h lt = absurd h
  take_batch-append size (v ∷ vs) ws (e ∷ es) (hv, h) lt =
      ground (arith, hv, take_batch-append (size + length v) vs ws es h (omega arith))
