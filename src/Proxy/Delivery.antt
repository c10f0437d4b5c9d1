-- ===== src/Proxy/Delivery.antt =====
-- cmd/proxy.go: the events that `Drain` delivers, and those that it loses.
use native.Mathlib.Nat.{zero-add}
use passwd_pot.Common.{
  ◌+◌, ◌<◌, ◌≤◌, Bytes, List, [], ◌∷◌, ◌++◌, Option, none, some, ◌≡◌, ◌≢◌, refl, sym, ap, ◌∙◌,
  length, arith, append-nil,
}
use passwd_pot.Api.{Event}
use passwd_pot.Proxy.{Queue, max_batch_size, Collected, batch, undecodable, to_send, drain}
use passwd_pot.Proxy.Batch.{
  total, take_batch, Decodes, keep_all, take_batch-append, drain-take_batch,
}

keep_all-batch :
    (decode : Bytes → Option Event) (es : List Event) → keep_all decode es (batch []) ≡ batch es
keep_all-batch decode [] = refl
keep_all-batch decode (e ∷ es) = rw (keep_all-batch decode es)

keep_all-undecodable :
    (decode : Bytes → Option Event) (es : List Event) → keep_all decode es undecodable ≡ undecodable
keep_all-undecodable decode [] = refl
keep_all-undecodable decode (e ∷ es) = rw (keep_all-undecodable decode es)

to_send-batch : (es : List Event) → es ≢ [] → to_send (batch es) ≡ some es
to_send-batch [] h = absurd (h refl)
to_send-batch (e ∷ es) h = refl

module _ (queue : Queue) (decode : Bytes → Option Event) where
  drain-append :
      (vs ws : List Bytes) (es : List Event) (q : queue.Store)
      → queue.items q ≡ vs ++ ws
      → Decodes decode vs es
      → total vs < max_batch_size
      → ((drain queue decode q).0
          ≡ to_send (keep_all decode es (take_batch decode (total vs) ws).0))
        × (queue.items (drain queue decode q).1 ≡ (take_batch decode (total vs) ws).1)
  drain-append vs ws es q h decodes lt =
      let (sent, left) = drain-take_batch decode queue q in
      let run = rw zero-add at (take_batch-append decode 0 vs ws es decodes (omega arith)) in
      let step : take_batch decode 0 (queue.items q) ≡ (
        keep_all decode es (take_batch decode (total vs) ws).0,
        (take_batch decode (total vs) ws).1,
      ) =
        rw h run in
      (
        sent ∙ ap (λ (r : Collected × List Bytes). to_send r.0) step,
        left ∙ ap (λ (r : Collected × List Bytes). r.1) step,
      )

  -- If every item in the queue is an event, there is one, and together they are shorter than the
  -- batch bound, a drain sends exactly those events, in order, and leaves the queue empty.
  pub drain_all :
      (vs : List Bytes) (es : List Event) (q : queue.Store)
      → queue.items q ≡ vs
      → Decodes decode vs es
      → es ≢ []
      → total vs < max_batch_size
      → ((drain queue decode q).0 ≡ some es) × (queue.items (drain queue decode q).1 ≡ [])
  unfolding take_batch
  drain_all vs es q h decodes some_event lt =
      let (sent, left) = drain-append vs [] es q (h ∙ sym (append-nil vs)) decodes lt in
      (sent ∙ ap to_send (keep_all-batch decode es) ∙ to_send-batch es some_event, left)

  -- The item at which the batch would pass the bound is lost: it is taken from the queue, but is
  -- not sent. The items before it are events, at least one and together shorter than the bound,
  -- and are sent; those behind it stay in the queue.
  pub drain_oversized :
      (vs ws : List Bytes) (v : Bytes) (es : List Event) (q : queue.Store)
      → queue.items q ≡ vs ++ v ∷ ws
      → Decodes decode vs es
      → es ≢ []
      → total vs < max_batch_size
      → max_batch_size < total vs + length v
      → ((drain queue decode q).0 ≡ some es) × (queue.items (drain queue decode q).1 ≡ ws)
  unfolding take_batch
  drain_oversized vs ws v es q h decodes some_event lt over =
      let (sent, left) = drain-append vs (v ∷ ws) es q h decodes lt in
      let last : take_batch decode (total vs) (v ∷ ws) ≡ (batch [], ws) = ground arith in
      (
        sent
            ∙ ap (λ (r : Collected × List Bytes). to_send (keep_all decode es r.0)) last
            ∙ ap to_send (keep_all-batch decode es)
            ∙ to_send-batch es some_event,
        left ∙ ap (λ (r : Collected × List Bytes). r.1) last,
      )

  -- One item that is no event loses the batch: the events before it are taken from the queue as
  -- well as it, and nothing is sent; the items behind it stay. The events are together shorter
  -- than the bound, and fit it with the item.
  pub drain_undecodable :
      (vs ws : List Bytes) (v : Bytes) (es : List Event) (q : queue.Store)
      → queue.items q ≡ vs ++ v ∷ ws
      → Decodes decode vs es
      → decode v ≡ none
      → total vs < max_batch_size
      → total vs + length v ≤ max_batch_size
      → ((drain queue decode q).0 ≡ none) × (queue.items (drain queue decode q).1 ≡ ws)
  unfolding take_batch
  drain_undecodable vs ws v es q h decodes bad lt fits =
      let (sent, left) = drain-append vs (v ∷ ws) es q h decodes lt in
      let last : take_batch decode (total vs) (v ∷ ws) ≡ (undecodable, ws) = ground arith in
      (
        sent
            ∙ ap (λ (r : Collected × List Bytes). to_send (keep_all decode es r.0)) last
            ∙ ap to_send (keep_all-undecodable decode es),
        left ∙ ap (λ (r : Collected × List Bytes). r.1) last,
      )
