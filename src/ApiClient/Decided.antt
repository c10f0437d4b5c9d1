-- ===== src/ApiClient/Decided.antt =====
-- api/event.go: which of the six tries decides what the client reports of a batch.
use passwd_pot.Common.{
  ℕ, zero, suc, ◌+◌, ◌≤◌, ◌<◌, Bytes, List, Option, none, some, Result, ok, ◌≡◌, ◌⊎◌, inl, inr, sym,
  ◌∙◌, arith, if◌then◌else◌, Bool-cases, refl,
}
use passwd_pot.Api.{Event, BatchEventResponse, empty_response}
use passwd_pot.Resolver.{Err}
use passwd_pot.ApiClient.{Answer, no_answer, answer, is_taken, Services, record_batch_events}
use passwd_pot.ApiClient.Attempts.{
  IsTaken, IsRefused, body_of, Ready, reply, record_batch_events-taken, record_batch_events-lost,
  record_batch_events-panics,
}

-- What the client should report: no answer is a panic, an answer that takes the batch gives the
-- response in its body, and one that refuses it leaves it to the later tries.
abbrev pub by_answer :
    (Bytes → BatchEventResponse)
    → Answer
    → Option (Result Err BatchEventResponse)
    → Option (Result Err BatchEventResponse)
by_answer unmarshal (no_answer e) later = none
by_answer unmarshal (answer status b e) later =
    if is_taken status then some (ok (unmarshal b)) else later

-- The first try from the i-th on that decides, with `more` tries behind it; an empty response where
-- none does.
unfoldable pub first_decisive :
    (Bytes → BatchEventResponse) → (ℕ → Answer) → ℕ → ℕ → Option (Result Err BatchEventResponse)
first_decisive unmarshal replies zero i = by_answer unmarshal (replies i) (some (ok empty_response))
first_decisive unmarshal replies (suc more) i =
    by_answer unmarshal (replies i) (first_decisive unmarshal replies more (suc i))

sorts : (a : Answer) → ((e : Err) × (a ≡ no_answer e)) ⊎ IsTaken a ⊎ IsRefused a
sorts (no_answer e) = inl (e, refl)
sorts (answer status b e) = elim (Bool-cases (is_taken status)) [
  | inl t ↦ inr (inl t)
  | inr r ↦ inr (inr r)
]

module _ (unmarshal : Bytes → BatchEventResponse)
    (later : Option (Result Err BatchEventResponse)) where
  by_answer-taken :
      (a : Answer) → IsTaken a → by_answer unmarshal a later ≡ some (ok (unmarshal (body_of a)))
  by_answer-taken (no_answer e) h = absurd h
  by_answer-taken (answer status b e) h = rw h refl

  by_answer-refused : (a : Answer) → IsRefused a → by_answer unmarshal a later ≡ later
  by_answer-refused (no_answer e) h = absurd h
  by_answer-refused (answer status b e) h = rw h refl

module _ (s : Services) (events : List Event) (r : Ready s events) where
  abbrev replies : ℕ → Answer
  replies n = reply s events r n

  RefusedBelow : ℕ → Type 0
  RefusedBelow i = (k : ℕ) → k < i → IsRefused (replies k)

  one_more : (i : ℕ) → RefusedBelow i → IsRefused (replies i) → RefusedBelow (suc i)
  unfolding RefusedBelow
  one_more i before now k lt = elim (split k i lt) [ inl below ↦ before k below | inr e ↦ rw e now ]
    where
      split : (k i : ℕ) → k < suc i → (k < i) ⊎ (k ≡ i)
      split k i lt = ground arith

  -- A try that decides.
  decides :
      (i : ℕ) (later : Option (Result Err BatchEventResponse))
      → i ≤ 5
      → RefusedBelow i
      → (IsRefused (replies i) → record_batch_events s events ≡ later)
      → record_batch_events s events ≡ by_answer s.unmarshal (replies i) later
  unfolding RefusedBelow
  decides i later le before refused = elim (sorts (replies i)) [
    | inl (e, silent) ↦ rw silent (record_batch_events-panics s events r i e le before silent)
    | inr (inl taken) ↦
        record_batch_events-taken s events r i le before taken
        ∙ sym (by_answer-taken s.unmarshal later (replies i) taken)
    | inr (inr again) ↦ refused again ∙ sym (by_answer-refused s.unmarshal later (replies i) again)
  ]

  decided_from :
      (more i : ℕ)
      → i + more ≡ 5
      → RefusedBelow i
      → record_batch_events s events ≡ first_decisive s.unmarshal replies more i
  unfolding first_decisive RefusedBelow
  decided_from zero i e before =
      decides i (some (ok empty_response)) (omega (arith, e)) before (λ now.
        record_batch_events-lost s events r
          (λ k le. one_more i before now k (omega (arith, e, le))))
  decided_from (suc more) i e before =
      decides i (first_decisive s.unmarshal replies more (suc i)) (omega (arith, e)) before
        (λ now. decided_from more (suc i) (omega (arith, e)) (one_more i before now))

  -- What the client reports of a batch is decided by the first of its six tries that is not refused
  -- with a status: one that the server takes gives the response in its body, and one without an
  -- answer makes the client panic. Where all six are refused, the batch is lost in silence: an empty
  -- response, and no error. The batch can be written and packed, and the URL is fine.
  pub record_batch_events-first_decisive :
      record_batch_events s events ≡ first_decisive s.unmarshal (reply s events r) 5 0
  unfolding RefusedBelow
  record_batch_events-first_decisive = decided_from 5 0 (omega arith) (λ k lt. absurd (omega arith))
