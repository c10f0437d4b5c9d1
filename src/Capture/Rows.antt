-- ===== src/Capture/Rows.antt =====
-- From the batch of the relay to the table of events: aws/lambda/events.go behind cmd/proxy.go.
use passwd_pot.Common.{ℕ, Bytes, List, [], ◌∷◌, map, ◌≡◌, refl, ap, ◌∙◌}
use passwd_pot.Api.{Event}
use passwd_pot.Cache.{ConcurrentMap}
use passwd_pot.Lambda.Stored.{Retagged}
use passwd_pot.Capture.{guess}

module _ (cm : ConcurrentMap) where
  pub guesses_of_rows :
      (origin : Bytes) (gid : ℕ) (es rows : List Event)
      → Retagged cm origin gid es rows
      → map guess rows ≡ map guess es
  guesses_of_rows origin gid [] [] h = refl
  guesses_of_rows origin gid [] (r ∷ rows) h = absurd h
  guesses_of_rows origin gid (e ∷ es) [] h = absurd h
  guesses_of_rows origin gid (e ∷ es) (r ∷ rows) ((id, same), h) =
      ap (λ (x : Event). guess x ∷ map guess rows) same
      ∙ ap (λ gs. guess e ∷ gs) (guesses_of_rows origin gid es rows h)
