-- ===== src/Proxy/Alone.antt =====
-- cmd/proxy.go: the rounds of a drain that nothing comes in between.
use passwd_pot.Common.{
  ℕ, zero, suc, ◌+◌, ◌<◌, ltb, Bytes, List, [], ◌∷◌, ◌++◌, Option, none, some, ◌≡◌, inl, inr, refl,
  ap, length, arith, Bool-cases, Option-cases, false, append-nil, append_assoc, ◌==◌,
}
use passwd_pot.Api.{Event}
use passwd_pot.Proxy.{
  Queue, max_batch_size, Collected, batch, undecodable, out_of_fuel, keep, collect, drain, to_send,
}
use passwd_pot.Proxy.Rounds.{
  begins, idle, collecting, State, state, round, go_on, send_batch, Reach, and_then, rounds, here,
  nothing_queued, begins,
}

module _ (queue : Queue) (decode : Bytes → Option Event) where
  -- The batches behind a drain that began with `bs` and sends or not.
  abbrev pub also_sent : Option (List Event) → List (List Event) → List (List Event)
  also_sent none bs = bs
  also_sent (some es) bs = bs ++ es ∷ []

  -- The same, of the events that its loop collected behind `es`.
  abbrev finish : List Event → Collected → List (List Event) → List (List Event)
  finish es (batch fs) bs = send_batch queue (es ++ fs) bs
  finish es undecodable bs = bs
  finish es out_of_fuel bs = bs

  finish-keep :
      (es : List Event) (e : Event) (c : Collected) (bs : List (List Event))
      → finish (es ++ e ∷ []) c bs ≡ finish es (keep e c) bs
  finish-keep es e (batch fs) bs = ap (λ gs. send_batch queue gs bs) (append_assoc es (e ∷ []) fs)
  finish-keep es e undecodable bs = refl
  finish-keep es e out_of_fuel bs = refl

  module _ (size : ℕ) (es : List Event) (q : queue.Store) (ps : List Bytes)
      (bs : List (List Event)) where
    -- Where a round leads, and what the loop on fuel makes of it.
    abbrev after_round : State queue
    after_round =
        go_on queue decode (round queue decode size es q).0 es (round queue decode size es q).1 ps
          bs

    abbrev after_loop : ℕ → State queue
    after_loop f =
        state queue (collect queue decode f size q).1 idle ps
          (finish es (collect queue decode f size q).0 bs)

  -- The condition of the loop fails.
  collect_full :
      (f size : ℕ) (es : List Event) (q : queue.Store) (ps : List Bytes) (bs : List (List Event))
      (s : State queue)
      → ltb size max_batch_size ≡ false
      → Reach queue decode s (after_round size es q ps bs)
      → Reach queue decode s (after_loop size es q ps bs (suc f))
  unfolding collect round
  collect_full f size es q ps bs s full r =
      let r' = rw (full, round) at r in rw (full, collect) (rw append-nil r')

  -- The loop on a queue with fewer items than fuel, from the state `s` that reaches its begin.
  collect-Reach :
      (f size : ℕ) (es : List Event) (vs : List Bytes) (q : queue.Store) (ps : List Bytes)
      (bs : List (List Event)) (s : State queue)
      → queue.items q ≡ vs
      → length vs < f
      → Reach queue decode s (state queue q (collecting size es) ps bs)
      → Reach queue decode s (after_loop size es q ps bs f)
  unfolding collect round
  collect-Reach zero size es vs q ps bs s h lt r = absurd (omega arith)
  collect-Reach (suc f) size es [] q ps bs s h lt r =
      let r' = and_then r (rounds size es) in
      let (item, left) = queue.dequeue-empty q h in
      elim (Bool-cases (ltb size max_batch_size)) [
        | inr full ↦ collect_full f size es q ps bs s full r'
        | inl room ↦
            let r1 = rw (room, item, round) at r' in rw (room, collect) (rw item (rw append-nil r1))
      ]
  collect-Reach (suc f) size es (v ∷ vs) q ps bs s h lt r =
      let r' = and_then r (rounds size es) in
      let (item, left) = queue.dequeue-items q v vs h in
      elim (Bool-cases (ltb size max_batch_size)) [
        | inr full ↦ collect_full f size es q ps bs s full r'
        | inl room ↦ elim (Bool-cases (ltb max_batch_size (size + length v))) [
          | inl over ↦
              let r1 = rw (room, item, over, round) at r' in
              rw (room, collect) (rw item (rw over (rw append-nil r1)))
          | inr fits ↦ elim (Option-cases (decode v)) [
            | inl bad ↦
                let r1 = rw (room, item, fits, bad, round) at r' in
                rw (room, collect) (rw item (rw (fits, bad) r1))
            | inr (e, good) ↦
                let r1 = rw (room, item, fits, good, round) at r' in
                let r2 =
                  collect-Reach f (size + length v) (es ++ e ∷ []) vs (queue.dequeue q).1 ps bs s
                    left (omega arith) r1 in
                let r3 = rw finish-keep at r2 in rw (room, collect) (rw item (rw (fits, good) r3))
          ]
        ]
      ]

  finish_first :
      (c : Collected) (bs : List (List Event)) → finish [] c bs ≡ also_sent (to_send c) bs
  finish_first (batch []) bs = refl
  finish_first (batch (e ∷ es)) bs = refl
  finish_first undecodable bs = refl
  finish_first out_of_fuel bs = refl

  -- A drain that nothing comes in between does, round by round, what the drain as a whole is said
  -- to do: from any queue, and whatever was sent before, its rounds lead to the queue that it
  -- leaves, with its batch behind those sent before, if it sends one.
  pub drain-Reach :
      (q : queue.Store) (ps : List Bytes) (bs : List (List Event))
      → Reach queue decode
          (state queue q idle ps bs)
          (state queue (drain queue decode q).1 idle ps (also_sent (drain queue decode q).0 bs))
  unfolding drain
  drain-Reach q ps bs = elim (Bool-cases (queue.length q == 0)) [
    | inl empty ↦ rw (empty, drain) (and_then here (nothing_queued empty))
    | inr some_item ↦
        let run =
          collect-Reach (queue.length q + 1) 0 [] (queue.items q) q ps bs (state queue q idle ps bs)
            refl (omega (arith, queue.length-items q)) (and_then here (begins some_item)) in
        let run' = rw finish_first at run in rw (some_item, drain) run'
  ]
