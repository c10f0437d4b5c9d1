-- ===== src/Proxy/Relay.antt =====
-- cmd/proxy.go from a request to the batch: `ServeHTTP` and then `Drain`.
use passwd_pot.Common.{
  ℕ, ◌-◌, ◌<◌, Bytes, true, List, [], ◌∷◌, ◌++◌, Option, some, ◌≡◌, ◌≢◌, refl, sym, ap, ◌∙◌, length,
  arith, append-nil, append_assoc, pos,
}
use passwd_pot.Api.{Event}
use passwd_pot.Proxy.{Queue, max_batch_size, drain, serve_http, Reply, status, end_of_body, zeros}
use passwd_pot.Proxy.Batch.{total, Decodes}
use passwd_pot.Proxy.Delivery.{drain_all}

no_zeros : (n : ℕ) → zeros (n - n) ≡ []
no_zeros n = let none_left : n - n ≡ 0 = omega arith in rw none_left

module _ (queue : Queue) where
  -- Requests whose bodies are read whole, one after the other: the replies and the queue behind.
  abbrev pub serve_all : List Bytes → queue.Store → List Reply × queue.Store
  serve_all [] q = ([], q)
  serve_all (body ∷ bodies) q =
      let (reply, q') = serve_http queue (pos (length body)) body end_of_body q in
      let (replies, q'') = serve_all bodies q' in (reply ∷ replies, q'')

  abbrev pub accepted : List Bytes → List Reply
  accepted [] = []
  accepted (body ∷ bodies) = status 202 ∷ accepted bodies

  pub serve_http-whole :
      (body : Bytes) (q : queue.Store)
      → serve_http queue (pos (length body)) body end_of_body q
        ≡ (status 202, (queue.enqueue body q).1)
  unfolding serve_http
  serve_http-whole [] q = refl
  serve_http-whole (c ∷ body) q =
      ap (λ (v : Bytes). (status 202, (queue.enqueue v q).1))
        (ap (λ (z : Bytes). (c ∷ body) ++ z) (no_zeros (length (c ∷ body))) ∙ append-nil (c ∷ body))

  serve_all-items :
      (bodies : List Bytes) (q : queue.Store)
      → ((v : Bytes) (s : queue.Store) → (queue.enqueue v s).0 ≡ true)
      → ((serve_all bodies q).0 ≡ accepted bodies)
        × (queue.items (serve_all bodies q).1 ≡ queue.items q ++ bodies)
  serve_all-items [] q h = (refl, sym (append-nil (queue.items q)))
  serve_all-items (body ∷ bodies) q h =
      let (replies, items) = serve_all-items bodies (queue.enqueue body q).1 h in
      let put : queue.items (queue.enqueue body q).1 ≡ queue.items q ++ body ∷ [] =
        ground (arith, queue.items-enqueue body q, h body q) in
      rw (serve_http-whole body q) (
        ap (λ (rs : List Reply). status 202 ∷ rs) replies,
        items
            ∙ ap (λ (vs : List Bytes). vs ++ bodies) put
            ∙ append_assoc (queue.items q) (body ∷ []) bodies,
      )

  -- What is posted is sent on: if the queue is empty, each request carries one event and is read
  -- whole, the queue takes every item, and the bodies together are shorter than the batch bound,
  -- then every request is answered by 202, and the next drain sends exactly the events of the
  -- requests, in order, and leaves the queue empty.
  pub serve_all-drain :
      (decode : Bytes → Option Event) (bodies : List Bytes) (es : List Event) (q : queue.Store)
      → queue.items q ≡ []
      → ((v : Bytes) (s : queue.Store) → (queue.enqueue v s).0 ≡ true)
      → Decodes decode bodies es
      → es ≢ []
      → total bodies < max_batch_size
      → ((serve_all bodies q).0 ≡ accepted bodies)
        × ((drain queue decode (serve_all bodies q).1).0 ≡ some es)
        × (queue.items (drain queue decode (serve_all bodies q).1).1 ≡ [])
  serve_all-drain decode bodies es q h takes decodes some_event fits =
      let (replies, items) = serve_all-items bodies q takes in
      let (sent, left) =
        drain_all queue decode bodies es (serve_all bodies q).1
          (items ∙ ap (λ (vs : List Bytes). vs ++ bodies) h) decodes some_event fits in
      (replies, sent, left)
