-- ===== src/Capture/Readers.antt =====
-- From the batch of the relay to the reader of events: event/event.go behind aws/lambda/events.go
-- and cmd/proxy.go.
use mathlib.Core.List.{Perm}
use passwd_pot.Common.{ℕ, Bytes, List, [], ◌∷◌, map, All, Option, none, ok, ◌≡◌, refl, ap, ◌∙◌}
use passwd_pot.Api.{Event, EventGeo, BatchEventResponse}
use passwd_pot.Cache.{ConcurrentMap}
use passwd_pot.Pot.{Command}
use passwd_pot.Recorder.{record_batch_events}
use passwd_pot.Recorder.Columns.{Tables}
use passwd_pot.Recorder.Reading.{get_event}
use passwd_pot.Recorder.Copying.{Copies, follow, Readable, all_steps-Readable}
use passwd_pot.Lambda.{gateway_addr, Backend, BatchEvent, State, handle_batch}
use passwd_pot.Proxy.{Queue}
use passwd_pot.Capture.{Codec, guess}
use passwd_pot.Capture.Guesses.{tried, SendsTried}
use passwd_pot.Capture.Rows.{guesses_of_rows}
use passwd_pot.Lambda.Answered.{Answered}
use passwd_pot.Lambda.Stored.{handle_batch-IsStored}

module _ (t : Tables) (copies : Copies t) where
  -- `GetEvent` gives no error under an id.
  abbrev pub Reads : t.Store → ℕ → Type 0
  Reads s id = (get_event t id s).1 ≡ none

  -- The user name and the password of an event that is read.
  abbrev pub read_guess : t.Store → ℕ → Bytes × Bytes
  read_guess s id = let e = (get_event t id s).0 in (e.user, e.passwd)

  Readable-guesses :
      (s : t.Store) (ids : List ℕ) (es : List Event)
      → Readable t copies s ids es
      → All (Reads s) ids × (map (read_guess s) ids ≡ map guess es)
  Readable-guesses s [] [] h = (tt, refl)
  Readable-guesses s [] (e ∷ es) h = absurd h
  Readable-guesses s (id ∷ ids) [] h = absurd h
  Readable-guesses s (id ∷ ids) (e ∷ es) (h, hs) =
      let (reads, same) = Readable-guesses s ids es hs in
      (
        (ap (λ (x : EventGeo × Option Bytes). x.1) h, reads),
        ap (λ (x : EventGeo × Option Bytes). (x.0.user, x.0.passwd) ∷ map (read_guess s) ids) h
            ∙ ap (λ gs. guess e ∷ gs) same,
      )

  -- The rows of the batch are in the tables: under their ids the logins that a client tried are
  -- read, and no others.
  abbrev pub ReadsTried :
      (cm : ConcurrentMap)
      → Backend
      → BatchEvent
      → State cm
      → BatchEventResponse
      → t.Store
      → List Command
      → Type 0
  ReadsTried cm b batch st response s cs =
      (a : Answered cm b batch st.world response) × (let after =
          follow t copies (record_batch_events b.batches a.rows).steps [] s in
        All (Reads after.1) after.0 × Perm (map (read_guess after.1) after.0) (tried [] cs))

  -- From a guess to the reader: where the relay sends what a client tried, the gateway hands a batch
  -- with the logins of those events to the batch handler, in that order, and the handler answers
  -- without an error, the rows that its loop gives are stored, and the tables behind that have a row
  -- for each login that the client tried: `GetEvent` reads without an error under each of the ids of
  -- the batch, and the user names and passwords that it reads are exactly those that were tried, in
  -- some order and as often as they were tried.
  pub handle_batch-ReadsTried :
      (cm : ConcurrentMap) (queue : Queue) (codec : Codec) (q : queue.Store) (cs : List Command)
      (sent : SendsTried queue codec q cs) (b : Backend) (batch : BatchEvent) (st : State cm)
      (response : BatchEventResponse) (s : t.Store)
      → map guess batch.events ≡ map guess sent.0
      → (handle_batch cm b batch st).0 ≡ ok response
      → ReadsTried cm b batch st response s cs
  handle_batch-ReadsTried cm queue codec q cs sent b batch st response s same answered =
      let (a, tagged, count) = rw answered at (handle_batch-IsStored cm b batch st) in
      let logins =
        guesses_of_rows cm (gateway_addr batch.origin_addr) a.gid batch.events a.rows tagged
        ∙ same in
      let steps = (record_batch_events b.batches a.rows).steps in
      let after = follow t copies steps [] s in
      let (reads, guesses) =
        Readable-guesses after.1 after.0 a.rows
          (all_steps-Readable t copies a.rows s steps a.steps) in
      (a, (reads, rw (guesses ∙ logins) sent.2))
