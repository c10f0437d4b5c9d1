-- ===== src/Listen/Tests.antt =====
-- cmd/listen/listner.go with numbers for connections.
use passwd_pot.Common.{ℕ, codes, Bytes, Option, some, List, [], ◌∷◌, refl, ◌≡◌, ◌≤◌, ◌*◌, length}
use passwd_pot.Listen.{
  Answer, conn, failed, Worker, state, accepting, selecting, accepts, continues, passes, starts,
  State, run,
}
use passwd_pot.Listen.Delivery.{everyone, conns, GoesOn, run_handles, here, and_then, Steps}

abbrev pop_worker : Worker
pop_worker = record { addr = codes "localhost:1110"; name = codes "pop" }

-- Two connections and a failure of `Accept` between them.
abbrev answers : List (Answer ℕ)
answers = conn 7 ∷ failed ∷ conn 8 ∷ []

abbrev bind : Bytes → Option (List (Answer ℕ))
bind _ = some answers

abbrev handled_both : State ℕ
handled_both = state ℕ [] accepting selecting (7 ∷ 8 ∷ [])

-- The second connection is accepted before the first one gets its handler.
both_handled : Steps ℕ 7 (state ℕ answers accepting selecting []) handled_both
both_handled =
    and_then
      (and_then
        (and_then
          (and_then (and_then (and_then (and_then here (accepts 7)) (passes 7)) continues)
            (accepts 8))
          (starts 7))
        (passes 8))
      (starts 8)

handled_example :
    (everyone ℕ handled_both ≡ conns ℕ answers) × (7 ≤ 3 * length answers) × GoesOn ℕ handled_both
unfolding run
handled_example =
    run_handles ℕ pop_worker bind answers (state ℕ answers accepting selecting []) handled_both 7
      refl refl both_handled
