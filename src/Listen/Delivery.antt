-- ===== src/Listen/Delivery.antt =====
-- cmd/listen/listner.go: which connections get a handler, and that the two goroutines go on until
-- all have one.
use passwd_pot.Common.{
  ◌⊎◌, inl, inr, refl, ℕ, ◌+◌, ◌≤◌, List, [], ◌∷◌, ◌++◌, ◌*◌, arith, suc, Bytes, ◌≡◌, sym, ◌∙◌,
  Option, length, some, append-nil, append_assoc, ap,
}
use passwd_pot.Listen.{
  Answer, conn, failed, Acceptor, accepting, offering, Runner, selecting, received, State, state,
  Step, accepts, continues, passes, starts, run, loops, Worker,
}

module _ {ℓ} (Conn : Type ℓ) where
  -- Some number of steps.
  pub data Steps : ℕ → State Conn → State Conn → Type ℓ where
    here : {s : State Conn} → Steps 0 s s
    and_then : {n : ℕ} {s t u : State Conn} → Steps n s t → Step Conn t u → Steps (suc n) s u

  -- The connections among the answers.
  abbrev pub conns : List (Answer Conn) → List Conn
  conns [] = []
  conns (conn c ∷ xs) = c ∷ conns xs
  conns (failed ∷ xs) = conns xs

  abbrev pub offered : Acceptor Conn → List Conn
  offered accepting = []
  offered (offering c) = c ∷ []

  abbrev pub in_hand : Runner Conn → List Conn
  in_hand selecting = []
  in_hand (received c) = c ∷ []

  -- Every connection that there was or will be, wherever it is now.
  abbrev pub everyone : State Conn → List Conn
  everyone s = s.handled ++ (in_hand s.runner ++ (offered s.acceptor ++ conns s.answers))

  -- The steps that are left at most.
  abbrev pub work_left : State Conn → ℕ
  work_left s = 3 * length s.answers + 2 * length (offered s.acceptor) + length (in_hand s.runner)

  everyone-Step : {s t : State Conn} → Step Conn s t → everyone s ≡ everyone t
  everyone-Step (accepts c) = refl
  everyone-Step continues = refl
  everyone-Step (passes c) = refl
  everyone-Step (starts {xs} {a} {cs} c) = sym (append_assoc cs (c ∷ []) (offered a ++ conns xs))

  work_left-Step : {s t : State Conn} → Step Conn s t → suc (work_left t) ≤ work_left s
  work_left-Step (accepts c) = omega arith
  work_left-Step continues = omega arith
  work_left-Step (passes c) = omega arith
  work_left-Step (starts c) = omega arith

  everyone-Steps : {n : ℕ} {s t : State Conn} → Steps n s t → everyone s ≡ everyone t
  everyone-Steps here = refl
  everyone-Steps (and_then r st) = everyone-Steps r ∙ everyone-Step st

  work_left-Steps : {n : ℕ} {s t : State Conn} → Steps n s t → n + work_left t ≤ work_left s
  work_left-Steps here = omega arith
  work_left-Steps (and_then r st) = omega (arith, work_left-Steps r, work_left-Step st)

  -- Whether every connection has its handler, or there is another step.
  abbrev pub GoesOn : State Conn → Type ℓ
  GoesOn s = (s.handled ≡ everyone s) ⊎ ((t : State Conn) × Step Conn s t)

  any-GoesOn :
      (xs : List (Answer Conn)) (a : Acceptor Conn) (r : Runner Conn) (cs : List Conn)
      → GoesOn (state Conn xs a r cs)
  any-GoesOn xs a (received c) cs = inr (_, starts c)
  any-GoesOn xs (offering c) selecting cs = inr (_, passes c)
  any-GoesOn [] accepting selecting cs = inl (sym (append-nil cs))
  any-GoesOn (conn c ∷ xs) accepting selecting cs = inr (_, accepts c)
  any-GoesOn (failed ∷ xs) accepting selecting cs = inr (_, continues)

  run_started :
      (addr name : Bytes) (bind : Bytes → Option (List (Answer Conn))) (xs : List (Answer Conn))
      (s : State Conn)
      → bind addr ≡ some xs
      → run Conn (record { addr = addr; name = name }) bind ≡ loops s
      → s ≡ state Conn xs accepting selecting []
  unfolding run
  run_started [] name bind xs s h e = cc
  run_started (c ∷ addr) name bind xs s h e = let e' = rw (h, run) at e in cc

  -- A pot that is run and whose address can be bound starts a handler for every connection that
  -- `Accept` gives, exactly once and in the order in which they were accepted, however the two
  -- goroutines take turns: those that were started, the one in hand, the one that is offered and
  -- those to come are the connections among the answers, in order, at every moment; there are at
  -- most three steps for each answer; and there is another step until all have been started.
  pub run_handles :
      (worker : Worker) (bind : Bytes → Option (List (Answer Conn))) (xs : List (Answer Conn))
      (s t : State Conn) (n : ℕ)
      → bind worker.addr ≡ some xs
      → run Conn worker bind ≡ loops s
      → Steps n s t
      → (everyone t ≡ conns xs) × (n ≤ 3 * length xs) × GoesOn t
  unfolding run
  run_handles worker bind xs s t n h e r =
      let begun : s ≡ state Conn xs accepting selecting [] =
        run_started worker.addr worker.name bind xs s h e in
      (
        sym (everyone-Steps r) ∙ ap everyone begun,
        omega (arith, work_left-Steps r, ap work_left begun),
        any-GoesOn t.answers t.acceptor t.runner t.handled,
      )
