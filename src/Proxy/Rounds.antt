-- ===== src/Proxy/Rounds.antt =====
-- cmd/proxy.go: the relay while requests come in. `Drain` holds a lock that only `Drain` takes, so
-- that items can be put into the queue between the rounds of its loop. The timer of `start`, the
-- signals of `proxyrun` and the end of `runproxyServer` only call `Drain`.
use passwd_pot.Common.{
  zero, suc, ℕ, ◌+◌, ◌==◌, ltb, Bytes, true, false, List, [], ◌∷◌, ◌++◌, Option, none, some, ◌≡◌,
  length, if◌then◌else◌,
}
use passwd_pot.Api.{Event}
use passwd_pot.Proxy.{max_batch_size, Queue, drain}

-- How a round of the loop ends: with the next one, at a `break` or the condition, or at the return.
pub data Next : Type 0 where
  more : ℕ → List Event → Next
  stop : Next
  give_up : Next

-- A goroutine that may be in `Drain`, with `bufSize` and `events`.
pub data Drainer : Type 0 where
  idle : Drainer
  collecting : ℕ → List Event → Drainer

module _ (queue : Queue) where
  -- `posted` are the items that the queue took, and `sent` the batches that `RecordBatchEvents` was
  -- called with.
  pub record State : Type 0 where
    pub q : queue.Store
    pub drainer : Drainer
    pub posted : List Bytes
    pub sent : List (List Event)

  abbrev pub state : queue.Store → Drainer → List Bytes → List (List Event) → State
  state q d ps bs = record { q = q; drainer = d; posted = ps; sent = bs }

  -- `s.c.RecordBatchEvents(events)` if there are any.
  abbrev pub send_batch : List Event → List (List Event) → List (List Event)
  send_batch [] bs = bs
  send_batch (e ∷ es) bs = bs ++ (e ∷ es) ∷ []

  module _ (decode : Bytes → Option Event) where
    -- The condition of the loop and one round of it.
    unfoldable pub round : ℕ → List Event → queue.Store → Next × queue.Store
    round size es q = elim (ltb size max_batch_size) [
      | false ↦ (stop, q)
      | true ↦
          let (item, q') = queue.dequeue q in
          elim item [
            | none ↦ (stop, q')
            | some value ↦ elim (ltb max_batch_size (size + length value)) [
              | true ↦ (stop, q')
              | false ↦ elim (decode value) [
                | none ↦ (give_up, q')
                | some e ↦ (more (size + length value) (es ++ e ∷ []), q')
              ]
            ]
          ]
    ]

    -- Where the drain is after a round.
    abbrev pub go_on : Next → List Event → queue.Store → List Bytes → List (List Event) → State
    go_on (more size es') es q ps bs = state q (collecting size es') ps bs
    go_on stop es q ps bs = state q idle ps (send_batch es bs)
    go_on give_up es q ps bs = state q idle ps bs

    -- `Enqueue` of a request's body, which may fail; the begin of `Drain` while no other one holds
    -- the lock, at an empty queue or not; and a round of its loop.
    pub data Step : State → State → Type 0 where
      posts :
          {s : State} (v : Bytes)
          → Step s (
              state
                (queue.enqueue v s.q).1
                s.drainer
                (if (queue.enqueue v s.q).0 then s.posted ++ v ∷ [] else s.posted)
                s.sent)
      nothing_queued :
          {q : queue.Store} {ps : List Bytes} {bs : List (List Event)}
          → (queue.length q == 0) ≡ true
          → Step (state q idle ps bs) (state q idle ps bs)
      begins :
          {q : queue.Store} {ps : List Bytes} {bs : List (List Event)}
          → (queue.length q == 0) ≡ false
          → Step (state q idle ps bs) (state q (collecting 0 []) ps bs)
      rounds :
          {q : queue.Store} {ps : List Bytes} {bs : List (List Event)} (size : ℕ) (es : List Event)
          → Step
              (state q (collecting size es) ps bs)
              (go_on (round size es q).0 es (round size es q).1 ps bs)

    pub data Reach : State → State → Type 0 where
      here : {s : State} → Reach s s
      and_then : {s t u : State} → Reach s t → Step t u → Reach s u

    -- `start`, for so many rounds of its timer with no request in between: the batches that are sent
    -- and the queue behind.
    unfoldable pub start : ℕ → queue.Store → List (Option (List Event)) × queue.Store
    start zero q = ([], q)
    start (suc n) q =
        let (sent, q') = drain queue decode q in
        let (later, q'') = start n q' in (sent ∷ later, q'')

-- The signals that `proxyrun` is told of.
pub data Signal : Type 0 where
  hup int term quit : Signal

module _ (queue : Queue) (decode : Bytes → Option Event) where
  -- What a signal does: a drain, and, but for SIGHUP, the exit of the process with this code.
  unfoldable pub on_signal : Signal → queue.Store → (Option (List Event) × queue.Store) × Option ℕ
  on_signal hup q = (drain queue decode q, none)
  on_signal int q = (drain queue decode q, some 0)
  on_signal term q = (drain queue decode q, some 0)
  on_signal quit q = (drain queue decode q, some 0)
