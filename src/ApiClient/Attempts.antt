-- ===== src/ApiClient/Attempts.antt =====
-- api/event.go: what the client reports of its tries.
use passwd_pot.Common.{
  ℕ, ◌≤◌, ◌<◌, Bytes, codes, true, false, List, [], none, some, ok, ◌≡◌, ap, ◌∙◌, arith,
}
use passwd_pot.Api.{Event, empty_response}
use passwd_pot.Resolver.{Err}
use passwd_pot.ApiClient.{
  Answer, no_answer, answer, is_taken, done, again, panicked, transport, batch_attempt, Services,
  record_event, record_batch_events, batch_result, gzip_data,
}

-- The server takes an event if it answers so.
abbrev pub IsTaken : Answer → Type 0
IsTaken (no_answer e) = ⊥
IsTaken (answer status b e) = is_taken status ≡ true

abbrev pub IsRefused : Answer → Type 0
IsRefused (no_answer e) = ⊥
IsRefused (answer status b e) = is_taken status ≡ false

abbrev pub body_of : Answer → Bytes
body_of (no_answer e) = []
body_of (answer status b e) = b

refused-again : (a : Answer) → IsRefused a → (e : Err) × (batch_attempt a ≡ again e)
unfolding batch_attempt
refused-again (no_answer e) h = absurd h
refused-again (answer status b e) h = (codes "error with resp", rw h)

taken-done : (a : Answer) → IsTaken a → batch_attempt a ≡ done (body_of a)
unfolding batch_attempt
taken-done (no_answer e) h = absurd h
taken-done (answer status b e) h = rw h

-- The events are written and packed, and the request can be made.
pub record Ready (s : Services) (events : List Event) : Type 0 where
  pub plain : Bytes
  pub compressed : Bytes
  pub marshalled : s.marshal_events events ≡ ok plain
  pub packed : gzip_data s.gzip plain ≡ ok compressed
  pub url_fine : s.bad_url ≡ none

module _ (s : Services) (events : List Event) (r : Ready s events) where
  -- What the n-th try comes to.
  abbrev pub reply : ℕ → Answer
  reply n = s.server r.compressed n

  record_batch_events-retry :
      record_batch_events s events
      ≡ batch_result s.unmarshal (s.constant.retry (λ n. batch_attempt (reply n)))
  unfolding record_batch_events
  record_batch_events-retry = rw (r.marshalled, record_batch_events) (rw r.packed (rw r.url_fine))

  -- A batch is delivered by the first of its six tries that the server takes, if those before it
  -- were refused with a status: the client returns what the body of that answer says. The batch
  -- can be written and packed, and the URL is fine.
  pub record_batch_events-taken :
      (k : ℕ)
      → k ≤ 5
      → ((i : ℕ) → i < k → IsRefused (reply i))
      → IsTaken (reply k)
      → record_batch_events s events ≡ some (ok (s.unmarshal (body_of (reply k))))
  record_batch_events-taken k le refused taken =
      record_batch_events-retry
      ∙ ap (batch_result s.unmarshal) (
          s.constant.retry-first k (λ n. batch_attempt (reply n)) (done (body_of (reply k))) le
            (λ i lt. refused-again (reply i) (refused i lt)) (λ e h. cc)
            (taken-done (reply k) taken))

  -- A batch that the server refuses six times is lost in silence: the client returns an empty
  -- response, and no error. The batch can be written and packed, and the URL is fine.
  pub record_batch_events-lost :
      ((i : ℕ) → i ≤ 5 → IsRefused (reply i))
      → record_batch_events s events ≡ some (ok empty_response)
  record_batch_events-lost refused =
      let again_each = λ (i : ℕ) (le : i ≤ 5). refused-again (reply i) (refused i le) in
      let (e, last) = again_each 5 (omega arith) in
      record_batch_events-retry
      ∙ ap (batch_result s.unmarshal)
          (s.constant.retry-last (λ n. batch_attempt (reply n)) again_each ∙ last)

  -- A server that gives no answer to one of the six tries makes the client panic, if the tries
  -- before it were refused with a status. The batch can be written and packed, and the URL is
  -- fine.
  pub record_batch_events-panics :
      (k : ℕ) (e : Err)
      → k ≤ 5
      → ((i : ℕ) → i < k → IsRefused (reply i))
      → reply k ≡ no_answer e
      → record_batch_events s events ≡ none
  unfolding batch_attempt
  record_batch_events-panics k e le refused silent =
      record_batch_events-retry
      ∙ ap (batch_result s.unmarshal) (
          s.constant.retry-first k (λ n. batch_attempt (reply n)) panicked le
            (λ i lt. refused-again (reply i) (refused i lt)) (λ e h. cc) (rw silent))

-- A single event that the server refuses with any status, and a body that can be read, is reported
-- as recorded, and is not tried again; the tries before it, no more than the policy allows, got no
-- answer.
pub record_event-refused :
    (s : Services) (k status : ℕ) (event : Event) (b body : Bytes)
    → s.marshal_event event ≡ ok b
    → k ≤ s.max_retries
    → ((i : ℕ) → i < k → (e : Err) × (s.server b i ≡ no_answer e))
    → s.server b k ≡ answer status body none
    → is_taken status ≡ false
    → record_event s event ≡ ok 0
unfolding record_event transport
record_event-refused s k status event b body marshalled le before at_k refused =
    let outcome : s.exponential.retry (λ n. transport (s.server b n)) ≡ done [] =
      s.exponential.retry-first k (λ n. transport (s.server b n)) (done []) le
        (λ i lt. let (e, silent) = before i lt in (e, rw silent)) (λ e h. cc)
        (rw at_k (rw refused)) in
    rw (marshalled, record_event) (rw outcome)
