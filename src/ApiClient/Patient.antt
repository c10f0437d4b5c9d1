-- ===== src/ApiClient/Patient.antt =====
-- A loop over the tries is a retrier as api/event.go wants one.
use passwd_pot.Common.{ℕ, zero, suc, ◌≤◌, ◌<◌, ◌≡◌, ◌≢◌, refl, arith}
use passwd_pot.Resolver.{Err}
use passwd_pot.ApiClient.{Attempt, done, again, panicked, Retrier}

retry : ℕ → (ℕ → Attempt) → Attempt
retry zero op = op 0
retry (suc n) op = elim (op 0) [
  | done b ↦ done b
  | panicked ↦ panicked
  | again e ↦ retry n (λ k. op (suc k))
]

-- The first try that does not ask for another one decides.
retry-first :
    (n k : ℕ) (op : ℕ → Attempt) (a : Attempt)
    → k ≤ n
    → ((i : ℕ) → i < k → (e : Err) × (op i ≡ again e))
    → ((e : Err) → a ≢ again e)
    → op k ≡ a
    → retry n op ≡ a
unfolding retry
retry-first zero k op a le before final at_k = let only : k ≡ 0 = omega arith in rw only at at_k
retry-first (suc n) zero op (done b) le before final at_k = rw (at_k, retry)
retry-first (suc n) zero op panicked le before final at_k = rw (at_k, retry)
retry-first (suc n) zero op (again e) le before final at_k = absurd (final e refl)
retry-first (suc n) (suc k) op a le before final at_k =
    let (e, first) = before 0 (omega arith) in
    rw (first, retry)
      (retry-first n k (λ i. op (suc i)) a (omega arith) (λ i lt. before (suc i) (omega arith))
        final at_k)

retry-again :
    (n : ℕ) (op : ℕ → Attempt)
    → ((i : ℕ) → i ≤ n → (e : Err) × (op i ≡ again e))
    → retry n op ≡ op n
unfolding retry
retry-again zero op h = refl
retry-again (suc n) op h =
    let (e, first) = h 0 (omega arith) in
    rw (first, retry) (retry-again n (λ i. op (suc i)) (λ i le. h (suc i) (omega arith)))

pub patient : (n : ℕ) → Retrier n
patient n = record { retry = retry n; retry-first = retry-first n; retry-last = retry-again n }
