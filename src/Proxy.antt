-- ===== src/Proxy.antt =====
-- cmd/proxy.go: the relay that queues events and sends them in batches.
pub mod Batch
pub mod Delivery
pub mod Account
pub mod Fifo
pub mod Relay
pub mod Rounds
pub mod InOrder
pub mod History
pub mod Ending
pub mod Alone
pub mod Process
pub mod Restart
mod Tests
mod RestartTests
use passwd_pot.Common.{
  ℕ, zero, suc, ◌+◌, ◌-◌, ◌==◌, ltb, leb, Bytes, codes, Bool, true, false, List, [], ◌∷◌, ◌++◌,
  Option, none, some, ◌≡◌, if◌then◌else◌, length, get_elem?, ℤ, pos, negsuc,
}
use passwd_pot.Api.{Event}

-- `goque.Queue`: items in the order in which they were put in, on disk. `items` is what is in
-- there. The laws are for a disk that works where an operation reports no error.
pub record Queue : Type 1 where
  pub Store : Type 0
  pub items : Store → List Bytes
  pub length : Store → ℕ
  pub enqueue : Bytes → Store → Bool × Store
  pub dequeue : Store → Option Bytes × Store
  pub length-items : (q : Store) → length q ≡ passwd_pot.Common.length (items q)
  pub items-enqueue :
      (value : Bytes) (q : Store)
      → items (enqueue value q).1 ≡ (if (enqueue value q).0 then items q ++ value ∷ [] else items q)
  pub dequeue-empty :
      (q : Store) → items q ≡ [] → ((dequeue q).0 ≡ none) × (items (dequeue q).1 ≡ [])
  pub dequeue-items :
      (q : Store) (value : Bytes) (values : List Bytes)
      → items q ≡ value ∷ values
      → ((dequeue q).0 ≡ some value) × (items (dequeue q).1 ≡ values)

-- `maxBatchSize`, 9 * 1024 * 1024
abbrev pub max_batch_size : ℕ
max_batch_size = 9437184

-- The events that the loop of `Drain` has when it ends, or the return at an item that is no event.
pub data Collected : Type 0 where
  batch : List Event → Collected
  undecodable : Collected
  out_of_fuel : Collected

-- `events = append(events, e)`
abbrev pub keep : Event → Collected → Collected
keep e (batch es) = batch (e ∷ es)
keep e undecodable = undecodable
keep e out_of_fuel = out_of_fuel

-- The argument of `RecordBatchEvents`, whose result is only logged; `none` where it is not called.
abbrev pub to_send : Collected → Option (List Event)
to_send (batch []) = none
to_send (batch (e ∷ es)) = some (e ∷ es)
to_send undecodable = none
to_send out_of_fuel = none

-- What `r.Body.Read(body)` returns beside the bytes.
pub data ReadError : Type 0 where
  no_error end_of_body broken : ReadError

-- The status of the response; or the panic of `make`, which ends the request.
pub data Reply : Type 0 where
  status : ℕ → Reply
  aborted : Reply

abbrev pub zeros : ℕ → Bytes
zeros zero = []
zeros (suc n) = 0 ∷ zeros n

-- `n == 0 || err != nil`, and then `err != io.EOF`
abbrev pub is_bad_read : Bytes → ReadError → Bool
is_bad_read read broken = true
is_bad_read [] no_error = true
is_bad_read _ _ = false

module _ (queue : Queue) where
  -- The loop of `Drain`, on fuel; `decode` is `json.Unmarshal` into an event.
  unfoldable pub collect : (Bytes → Option Event) → ℕ → ℕ → queue.Store → Collected × queue.Store
  collect decode zero buf_size q = (out_of_fuel, q)
  collect decode (suc f) buf_size q = elim (ltb buf_size max_batch_size) [
    | false ↦ (batch [], q)
    | true ↦
        let (item, q') = queue.dequeue q in
        elim item [
          | none ↦ (batch [], q')
          | some value ↦ elim (ltb max_batch_size (buf_size + length value)) [
            | true ↦ (batch [], q')
            | false ↦ elim (decode value) [
              | none ↦ (undecodable, q')
              | some e ↦
                  let (c, q'') = collect decode f (buf_size + length value) q' in (keep e c, q'')
            ]
          ]
        ]
  ]

  -- `Drain`, under its lock. Every round takes an item, and the last one finds none.
  unfoldable pub drain : (Bytes → Option Event) → queue.Store → Option (List Event) × queue.Store
  unfolding collect
  drain decode q =
      let (c, q') = collect decode (queue.length q + 1) 0 q in
      if queue.length q == 0 then (none, q) else (to_send c, q')

  -- `ServeHTTP`: one read into a buffer of the announced length, which it may not fill. An item
  -- that could not be put in is only logged.
  unfoldable pub serve_http : ℤ → Bytes → ReadError → queue.Store → Reply × queue.Store
  serve_http (negsuc _) read error q = (aborted, q)
  serve_http (pos content_length) read error q =
      if is_bad_read read error
      then (status 400, q)
      else (status 202, (queue.enqueue (read ++ zeros (content_length - length read)) q).1)
