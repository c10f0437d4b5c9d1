-- ===== src/ApiClient.antt =====
-- api/event.go: the client that posts events to the server of the pots.
pub mod Attempts
pub mod Decided
pub mod Patient
mod Tests
use passwd_pot.Common.{
  ◌≤◌, ◌<◌, ◌≡◌, ◌≢◌, ℕ, zero, suc, ◌==◌, ◌||◌, Bytes, codes, Bool, true, false, List, [], ◌∷◌,
  Option, none, some, Result, ok, err, if◌then◌else◌,
}
use passwd_pot.Api.{Event, BatchEventResponse, empty_response}
use passwd_pot.Resolver.{Err}
use passwd_pot.Resolver.Options.{OptionFunc, apply_options}

-- What a request comes to: no answer at all, or the status, the bytes that `ReadAll` gives of the
-- body, and its error.
pub data Answer : Type 0 where
  no_answer : Err → Answer
  answer : ℕ → Bytes → Option Err → Answer

-- `http.StatusAccepted`, `http.StatusOK`
abbrev pub is_taken : ℕ → Bool
is_taken status = status == 202 || status == 200

-- One try of a request: the body that it comes back with, the error behind which `backoff.Retry`
-- tries again, or a panic.
pub data Attempt : Type 0 where
  done : Bytes → Attempt
  again : Err → Attempt
  panicked : Attempt

-- `transport`: where the status is another one, the error is that of reading the body, which may
-- be nil.
unfoldable pub transport : Answer → Attempt
transport (no_answer e) = again e
transport (answer status b none) = if is_taken status then done b else done []
transport (answer status b (some e)) = if is_taken status then done b else again e

-- The operation that `RecordBatchEvents` retries. Where there is no answer, the response is nil and
-- `resp.StatusCode` panics.
unfoldable pub batch_attempt : Answer → Attempt
batch_attempt (no_answer e) = panicked
batch_attempt (answer status b e) =
    if is_taken status then done b else again (codes "error with resp")

-- `backoff.Retry` under a policy that allows `retries` retries; the argument's n-th value is the
-- n-th try. It stops at the first try that needs no other one, and a panic passes through it; where
-- the policy stops it, it gives the last error.
pub record Retrier (retries : ℕ) : Type 0 where
  pub retry : (ℕ → Attempt) → Attempt
  pub retry-first :
      (k : ℕ) (op : ℕ → Attempt) (a : Attempt)
      → k ≤ retries
      → ((i : ℕ) → i < k → (e : Err) × (op i ≡ again e))
      → ((e : Err) → a ≢ again e)
      → op k ≡ a
      → retry op ≡ a
  pub retry-last :
      (op : ℕ → Attempt)
      → ((i : ℕ) → i ≤ retries → (e : Err) × (op i ≡ again e))
      → retry op ≡ op retries

-- `gzip.Writer` over a buffer: the errors of its calls, and the buffer behind them.
pub record Gzip : Type 0 where
  pub write : Bytes → Option Err
  pub flush : Bytes → Option Err
  pub close : Bytes → Option Err
  pub buffer : Bytes → Bytes

-- `gZipData`
unfoldable pub gzip_data : Gzip → Bytes → Result Err Bytes
gzip_data gz plain = elim (gz.write plain) [
  | some e ↦ err e
  | none ↦ elim (gz.flush plain) [
    | some e ↦ err e
    | none ↦ elim (gz.close plain) [ some e ↦ err e | none ↦ ok (gz.buffer plain) ]
  ]
]

-- The packages that the client calls, and the server: what the n-th request with a body comes to.
-- `unmarshal` is what the response holds behind `json.Unmarshal`, whose error is not looked at.
-- The policy of `RecordEvent` is bounded by time, and so allows some number of retries.
pub record Services : Type 0 where
  pub marshal_event : Event → Result Err Bytes
  pub marshal_events : List Event → Result Err Bytes
  pub gzip : Gzip
  pub bad_url : Option Err
  pub server : Bytes → ℕ → Answer
  pub unmarshal : Bytes → BatchEventResponse
  pub max_retries : ℕ
  pub exponential : Retrier max_retries
  pub constant : Retrier 5

-- `RecordEvent`, whose result is 0 on success. `transport` does not panic, so that the last case does
-- not come up.
unfoldable pub record_event : Services → Event → Result Err ℕ
unfolding transport
record_event s event = elim (s.marshal_event event) [
  | err e ↦ err e
  | ok b ↦ elim (s.exponential.retry (λ n. transport (s.server b n))) [
    | done _ ↦ ok 0
    | again e ↦ err e
    | panicked ↦ ok 0
  ]
]

-- What `RecordBatchEvents` makes of its last try; `none` is the panic.
abbrev pub batch_result :
    (Bytes → BatchEventResponse) → Attempt → Option (Result Err BatchEventResponse)
batch_result unmarshal (done b) = some (ok (unmarshal b))
batch_result unmarshal (again e) = some (ok empty_response)
batch_result unmarshal panicked = none

-- `RecordBatchEvents`, with five retries.
unfoldable pub record_batch_events : Services → List Event → Option (Result Err BatchEventResponse)
unfolding batch_attempt gzip_data
record_batch_events s events = elim (s.marshal_events events) [
  | err e ↦ some (err e)
  | ok b ↦ elim (gzip_data s.gzip b) [
    | err e ↦ some (err e)
    | ok compressed ↦ elim s.bad_url [
      | some e ↦ some (err e)
      | none ↦
          batch_result s.unmarshal (s.constant.retry (λ n. batch_attempt (s.server compressed n)))
    ]
  ]
]

-- `EventClient`
pub record EventClient : Type 0 where
  pub server : Bytes

-- `New`
unfoldable pub new : Bytes → List (OptionFunc EventClient) → Result Err EventClient
unfolding apply_options
new server options = apply_options options (record { server = server })

-- `GetCountryStats`, at the answer of the server. The statistics are decoded into a slice and not
-- into a pointer, which `json.Unmarshal` refuses with an error, whatever the text; `refuse` is that
-- error.
unfoldable pub get_country_stats : (Bytes → Err) → Answer → Err
unfolding transport
get_country_stats refuse a = elim (transport a) [ done b ↦ refuse b | again e ↦ e | panicked ↦ [] ]
