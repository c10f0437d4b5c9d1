-- ===== src/Capture.antt =====
-- cmd/potter.go, `Send`, between a pot and the relay of cmd/proxy.go: every `sendEvent` of a
-- connection is a goroutine, and so is the post of its event, so that the relay gets the events of
-- one connection in any order.
pub mod Delivered
pub mod Guesses
pub mod Login
pub mod Rows
pub mod Readers
mod Tests
mod RowTests
mod LoginTests
use passwd_pot.Common.{ℕ, suc, Bytes, List, [], ◌∷◌, ◌++◌, Option, some, ◌≡◌, length, pos, All}
use passwd_pot.Api.{Event}
use passwd_pot.Pot.{Act, write, spawn, close, Surroundings}
use passwd_pot.Proxy.{Queue, serve_http, end_of_body}

-- What an event says of a login: the user and the password.
abbrev pub guess : Event → Bytes × Bytes
guess e = (e.user, e.passwd)

-- `encoding/json` on events. Strings that it can carry come back as they were; other bytes, and the
-- part of a time below a millisecond, do not.
pub record Codec : Type 1 where
  pub encode : Event → Bytes
  pub decode : Bytes → Option Event
  pub IsText : Bytes → Type 0
  pub decode-encode :
      (e : Event)
      → IsText e.user
      → IsText e.passwd
      → (e' : Event) × (decode (encode e) ≡ some e') × (guess e' ≡ guess e)

-- What a pot makes of a capture, `none` where it panics: its `sendEvent`, with the clock at that
-- moment, for one remote address.
pub record Sender : Type 0 where
  pub report : Surroundings → Bytes → Bytes → Bytes → Option Event
  pub guess-report :
      (w : Surroundings) (user password params : Bytes) (e : Event)
      → report w user password params ≡ some e
      → guess e ≡ (user, password)

module _ (queue : Queue) (codec : Codec) (sender : Sender) where
  -- The actions that the handler has still to do, the goroutines with an event that is not yet
  -- posted, and the queue of the relay.
  pub record State : Type 0 where
    pub acts : List Act
    pub in_flight : List Event
    pub q : queue.Store

  abbrev pub state : List Act → List Event → queue.Store → State
  state acts es q = record { acts = acts; in_flight = es; q = q }

  -- The handler goes on, or one of the goroutines posts its event, whose body the relay reads whole.
  pub data Step : State → State → Type 0 where
    writes :
        {acts : List Act} {es : List Event} {q : queue.Store} (b : Bytes)
        → Step (state (write b ∷ acts) es q) (state acts es q)
    closes :
        {acts : List Act} {es : List Event} {q : queue.Store}
        → Step (state (close ∷ acts) es q) (state acts es q)
    spawns :
        {acts : List Act} {es : List Event} {q : queue.Store} (w : Surroundings)
        (user password params : Bytes) (e : Event)
        → sender.report w user password params ≡ some e
        → Step (state (spawn user password params ∷ acts) es q) (state acts (es ++ e ∷ []) q)
    posts :
        {acts : List Act} {q : queue.Store} (es fs : List Event) (e : Event)
        → Step (state acts (es ++ e ∷ fs) q) (
            state acts
              (es ++ fs)
              (serve_http queue (pos (length (codec.encode e))) (codec.encode e) end_of_body q).1)

  -- Some number of steps.
  pub data Steps : ℕ → State → State → Type 0 where
    here : {s : State} → Steps 0 s s
    and_then : {n : ℕ} {s t u : State} → Steps n s t → Step t u → Steps (suc n) s u
