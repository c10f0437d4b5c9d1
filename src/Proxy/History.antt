-- ===== src/Proxy/History.antt =====
-- cmd/proxy.go: what was sent of what was posted, at any moment and however the requests and the
-- drains take turns.
use mathlib.Core.List.Sublist
use passwd_pot.Common.{
  ◌+◌, ℕ, ltb, Bool, true, false, Bytes, List, [], ◌∷◌, ◌++◌, Option, ◌≡◌, refl, inl, inr, length,
  if◌then◌else◌, Bool-cases, Option-cases,
}
use passwd_pot.Api.{Event}
use passwd_pot.Proxy.{Queue, max_batch_size}
use passwd_pot.Proxy.InOrder.{
  InOrder, all_events, held, all_events-send_batch, post, send, drop_held, lose, take_event,
}
use passwd_pot.Proxy.Rounds.{
  idle, State, state, Step, posts, nothing_queued, begins, rounds, Reach, here, and_then, round,
  go_on, send_batch,
}

module _ (decode : Bytes → Option Event) where
  module _ (queue : Queue) where
    abbrev pub Ordered : State queue → Type 0
    Ordered s = InOrder decode s.posted (queue.items s.q) (all_events s.sent) (held s.drainer)

    -- The events in hand are sent, and what is left in the queue is `items`.
    stopped :
        (es : List Event) (q : queue.Store) (items ps : List Bytes) (bs : List (List Event))
        → queue.items q ≡ items
        → InOrder decode ps items (all_events bs) es
        → Ordered (state queue q idle ps (send_batch queue es bs))
    stopped es q items ps bs h i = rw (h, all_events-send_batch queue es bs) (send decode i)

    -- A round at an item that is in the queue and for which there is room.
    round-item :
        (size : ℕ) (es : List Event) (q : queue.Store) (v : Bytes) (vs ps : List Bytes)
        (bs : List (List Event))
        → queue.items q ≡ v ∷ vs
        → ltb size max_batch_size ≡ true
        → InOrder decode ps (v ∷ vs) (all_events bs) es
        → Ordered (
            go_on queue decode
              (round queue decode size es q).0
              es
              (round queue decode size es q).1
              ps
              bs)
    unfolding round
    round-item size es q v vs ps bs h room i =
        let (item, left) = queue.dequeue-items q v vs h in
        elim (Bool-cases (ltb max_batch_size (size + length v))) [
          | inl over ↦
              rw (room, round) (rw item (rw over (stopped es _ vs ps bs left (lose decode v i))))
          | inr fits ↦ elim (Option-cases (decode v)) [
            | inl bad ↦
                rw (room, round)
                  (rw item (rw (fits, bad) (rw left (drop_held decode (lose decode v i)))))
            | inr (e, good) ↦
                rw (room, round)
                  (rw item (rw (fits, good) (rw left (take_event decode v i e good))))
          ]
        ]

    round-room :
        (size : ℕ) (es : List Event) (q : queue.Store) (items ps : List Bytes)
        (bs : List (List Event))
        → queue.items q ≡ items
        → ltb size max_batch_size ≡ true
        → InOrder decode ps items (all_events bs) es
        → Ordered (
            go_on queue decode
              (round queue decode size es q).0
              es
              (round queue decode size es q).1
              ps
              bs)
    unfolding round
    round-room size es q [] ps bs h room i =
        let (item, left) = queue.dequeue-empty q h in
        rw (room, round) (rw item (stopped es _ [] ps bs left i))
    round-room size es q (v ∷ vs) ps bs h room i = round-item size es q v vs ps bs h room i

    round-Ordered :
        (size : ℕ) (es : List Event) (q : queue.Store) (items ps : List Bytes)
        (bs : List (List Event))
        → queue.items q ≡ items
        → InOrder decode ps items (all_events bs) es
        → Ordered (
            go_on queue decode
              (round queue decode size es q).0
              es
              (round queue decode size es q).1
              ps
              bs)
    unfolding round
    round-Ordered size es q items ps bs h i = elim (Bool-cases (ltb size max_batch_size)) [
      | inr full ↦ rw (full, round) (stopped es q items ps bs h i)
      | inl room ↦ round-room size es q items ps bs h room i
    ]

    post-Ordered :
        (s : State queue) (v : Bytes) (took : Bool)
        → (queue.enqueue v s.q).0 ≡ took
        → Ordered s
        → Ordered (
            state queue
              (queue.enqueue v s.q).1
              s.drainer
              (if took then s.posted ++ v ∷ [] else s.posted)
              s.sent)
    post-Ordered s v true h i =
        let items = rw h at (queue.items-enqueue v s.q) in rw items (post decode i v)
    post-Ordered s v false h i = let items = rw h at (queue.items-enqueue v s.q) in rw items i

    Step-Ordered : {s t : State queue} → Step queue decode s t → Ordered s → Ordered t
    Step-Ordered (posts {s} v) i = post-Ordered s v (queue.enqueue v s.q).0 refl i
    Step-Ordered (nothing_queued e) i = i
    Step-Ordered (begins e) i = i
    Step-Ordered (rounds {q} {ps} {bs} size es) i =
        round-Ordered size es q (queue.items q) ps bs refl i

    start-Ordered : (q : queue.Store) → queue.items q ≡ [] → Ordered (state queue q idle [] [])
    start-Ordered q h = rw h (record {
      taken = [];
      delivered = [];
      held_items = [];
      parts = refl;
      thinned = Sublist.refl [];
      sent_events = tt;
      held_events = tt;
    })

    -- From an empty queue on, however requests and drains take turns, also if items come in between
    -- the rounds of a drain: every item that was posted has been taken from the queue or is in it;
    -- and the events of all batches that were sent, with those that a drain has in hand, are the
    -- events of some of the items that were taken, each item at most once, and in the order in
    -- which they were posted.
    pub Reach-Ordered :
        (q : queue.Store) (s : State queue)
        → queue.items q ≡ []
        → Reach queue decode (state queue q idle [] []) s
        → Ordered s
    Reach-Ordered q s h here = start-Ordered q h
    Reach-Ordered q s h (and_then {t = t} r st) = Step-Ordered st (Reach-Ordered q t h r)
