-- ===== src/Listen.antt =====
-- cmd/listen/listner.go: the goroutine that accepts connections, and the loop that starts a handler
-- for each. They share an unbuffered channel. cmd/work/work.go: the worker.
pub mod Delivery
mod Tests
use passwd_pot.Common.{Bytes, List, [], ◌∷◌, ◌++◌, Option, none, some}

-- `Worker`, less the queue of events, which only the handlers use, and the wait group.
pub record Worker : Type 0 where
  pub addr : Bytes
  pub name : Bytes

-- What a call of `Accept` returns.
pub data Answer {ℓ} (Conn : Type ℓ) : Type ℓ where
  conn : Conn → Answer Conn
  failed : Answer Conn

module _ {ℓ} (Conn : Type ℓ) where
  -- `AcceptConnection`: before a call of `Accept`, or at the send of a connection.
  pub data Acceptor : Type ℓ where
    accepting : Acceptor
    offering : Conn → Acceptor

  -- The loop of `Run`: at the `select`, or before the `go` statement.
  pub data Runner : Type ℓ where
    selecting : Runner
    received : Conn → Runner

  -- `answers` are those that `Accept` will give; `handled` the connections that a handler was
  -- started for, the first one first.
  pub record State : Type ℓ where
    pub answers : List (Answer Conn)
    pub acceptor : Acceptor
    pub runner : Runner
    pub handled : List Conn

  abbrev pub state : List (Answer Conn) → Acceptor → Runner → List Conn → State
  state xs a r cs = record { answers = xs; acceptor = a; runner = r; handled = cs }

  -- A step of either goroutine, or of both where a connection is passed.
  pub data Step : State → State → Type ℓ where
    accepts :
        {xs : List (Answer Conn)} {r : Runner} {cs : List Conn} (c : Conn)
        → Step (state (conn c ∷ xs) accepting r cs) (state xs (offering c) r cs)
    continues :
        {xs : List (Answer Conn)} {r : Runner} {cs : List Conn}
        → Step (state (failed ∷ xs) accepting r cs) (state xs accepting r cs)
    passes :
        {xs : List (Answer Conn)} {cs : List Conn} (c : Conn)
        → Step (state xs (offering c) selecting cs) (state xs accepting (received c) cs)
    starts :
        {xs : List (Answer Conn)} {a : Acceptor} {cs : List Conn} (c : Conn)
        → Step (state xs a (received c) cs) (state xs a selecting (cs ++ c ∷ []))

  -- How `Run` goes on: without an address or a listener it returns at once.
  pub data Running : Type ℓ where
    not_started : Running
    cannot_bind : Running
    loops : State → Running

  -- `Run`; `bind` is `net.Listen`, whose listener is the answers that it will give.
  unfoldable pub run : Worker → (Bytes → Option (List (Answer Conn))) → Running
  run worker bind = elim worker.addr [
    | [] ↦ not_started
    | _ ∷ _ ↦ elim (bind worker.addr) [
      | none ↦ cannot_bind
      | some xs ↦ loops (state xs accepting selecting [])
    ]
  ]
