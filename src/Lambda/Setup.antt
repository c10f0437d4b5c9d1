-- ===== src/Lambda/Setup.antt =====
-- aws/lambda/events.go after a failed setup: what each handler does with the error that it left.
use mathlib.Core.Option.{none-ne-some}
use passwd_pot.Common.{
  bytes_eq_nonempty, ◌∙◌, List, [], ◌∷◌, Option, none, some, Result, err, ◌≡◌, ◌≢◌, refl, arith,
  All, Option-cases, inl, inr, sym,
}
use passwd_pot.Api.{Event, BatchEventResponse}
use passwd_pot.Cache.{ConcurrentMap}
use passwd_pot.Resolver.{Err}
use passwd_pot.Lambda.{
  text_of, setup_error_body, bad_setup, ApiError, api_error, Backend, setup, BatchEvent, State,
  handle_batch, handle, run_batch,
}

-- The response is the setup error.
abbrev pub IsSetupError : Result ApiError BatchEventResponse → Type 0
IsSetupError r = (e : Err) × (r ≡ err (api_error 500 (setup_error_body e)))

module _ (cm : ConcurrentMap) where
  -- Some requests to the batch handler, one after the other, each with what the world then answers.
  pub handle_batches :
      List (Backend × BatchEvent) → State cm → List (Result ApiError BatchEventResponse) × State cm
  handle_batches [] s = ([], s)
  handle_batches ((b, batch) ∷ rest) s =
      let (r, s') = handle_batch cm b batch s in
      let (rs, s'') = handle_batches rest s' in (r ∷ rs, s'')

  not_none : (o : Option Err) (e : Err) → o ≡ some e → o ≢ none
  not_none o e h n = none-ne-some e (sym n ∙ h)

  handle_batch_stuck :
      (b : Backend) (batch : BatchEvent) (s : State cm) (e : Err)
      → s.setup_error ≡ some e
      → IsSetupError (handle_batch cm b batch s).0
        × ((handle_batch cm b batch s).1.setup_error ≢ none)
        × ((handle_batch cm b batch s).1.world ≡ s.world)
  unfolding handle_batch
  handle_batch_stuck b batch s e h =
      ((text_of (setup b.ping (some e)), rw (h, handle_batch)), ground arith, ground arith)

  -- The batch handler never recovers: where the setup has failed, every later batch is answered by
  -- a setup error, the error stays, and nothing is resolved or stored, whether or not the database
  -- is back.
  pub handle_batches_stuck :
      (requests : List (Backend × BatchEvent)) (s : State cm) (e : Err)
      → s.setup_error ≡ some e
      → All IsSetupError (handle_batches requests s).0
        × ((handle_batches requests s).1.setup_error ≢ none)
        × ((handle_batches requests s).1.world ≡ s.world)
  unfolding handle_batches
  handle_batches_stuck [] s e h = (tt, not_none s.setup_error e h, refl)
  handle_batches_stuck ((b, batch) ∷ rest) s e h =
      let (answer, still, same) = handle_batch_stuck b batch s e h in
      elim (Option-cases (handle_batch cm b batch s).1.setup_error) [
        | inl cleared ↦ absurd (still cleared)
        | inr (e', kept) ↦
            let (answers, still', same') =
              handle_batches_stuck rest (handle_batch cm b batch s).1 e' kept in
            ((answer, answers), still', same' ∙ same)
      ]

  handle_stuck :
      (b : Backend) (event : Event) (s : State cm) (e : Err)
      → event.remote_addr ≢ []
      → s.setup_error ≡ some e
      → b.ping ≡ none
      → handle cm b event s ≡ (err (api_error 500 (bad_setup e)), record s { setup_error = none })
  unfolding handle setup
  handle_stuck b event s e h failed back =
      rw (bytes_eq_nonempty event.remote_addr h, handle) (rw (failed, handle) (rw back))

  -- The handler of single events does recover: a request with a remote address that finds the
  -- setup error is refused with it, and if the database answers its ping, a batch behind it runs
  -- as usual.
  pub handle_recovers :
      (b : Backend) (event : Event) (batch : BatchEvent) (s : State cm) (e : Err)
      → event.remote_addr ≢ []
      → s.setup_error ≡ some e
      → b.ping ≡ none
      → ((handle cm b event s).0 ≡ err (api_error 500 (bad_setup e)))
        × ((handle_batch cm b batch (handle cm b event s).1).0 ≡ (run_batch cm b batch s.world).0)
  unfolding handle_batch
  handle_recovers b event batch s e h failed back =
      rw (handle_stuck b event s e h failed back) (refl, refl)
