-- ===== src/Potter/Group.antt =====
-- cmd/potter.go, cmd/http/http.go: the goroutines of the pots and the wait group of `runPotter`.
use passwd_pot.Common.{
  ℕ, zero, suc, Bytes, Bool, true, false, List, [], ◌∷◌, ◌++◌, Option, none, some, ◌≡◌,
}
use passwd_pot.Listen.{Answer, Running, not_started, cannot_bind, loops}
use passwd_pot.Listen
use passwd_pot.Potter.{http, ftp, pop, psql, PotConfig, Worker, run_potter}

-- The goroutine of a pot: before its `Run`, in it with a listener, or behind `worker.Wg.Done()`.
pub data Task : Type 0 where
  fresh : Worker → Task
  serving : Worker → Task
  ended : Worker → Task

-- `runPotter`: before a pot, between `wg.Add(1)` and the `go` statement, in `wg.Wait()`, and at its
-- end; or the panic of a wait group whose counter would fall below zero.
pub data Main : Type 0 where
  starting : List Worker → Main
  added : Worker → List Worker → Main
  waiting : Main
  returned : Main
  panicked : Main

pub record Group : Type 0 where
  pub main : Main
  pub tasks : List Task
  pub counter : ℕ

abbrev pub group : Main → List Task → ℕ → Group
group m ts n = record { main = m; tasks = ts; counter = n }

-- `wg.Done()`
abbrev pub done : Main → List Task → ℕ → Group
done m ts zero = group panicked ts zero
done m ts (suc n) = group m ts n

abbrev pub IsAlive : Main → Type 0
IsAlive returned = ⊥
IsAlive panicked = ⊥
IsAlive _ = Unit

module _ (Conn : Type 0) where
  -- `net.Listen` at this moment, whose listener is what it will accept.
  abbrev pub Bind : Type 0
  Bind = Bytes → Option (List (Answer Conn))

  abbrev pub has_listener : Running Conn → Bool
  has_listener not_started = false
  has_listener cannot_bind = false
  has_listener (loops s) = true

  -- `Run` of the HTTP pot, whose `ListenAndServe` binds first.
  unfoldable pub http_run : Bytes → Bind → Bool
  http_run [] bind = false
  http_run (c ∷ addr) bind = elim (bind (c ∷ addr)) [ none ↦ false | some _ ↦ true ]

  -- Whether `Run` of a pot comes to have a listener.
  unfoldable pub runs : Worker → Bind → Bool
  unfolding Listen.run http_run
  runs w bind = elim w.pot [
    | http ↦ http_run w.addr bind
    | ftp ↦ has_listener (Listen.run Conn (record { addr = w.addr; name = [] }) bind)
    | pop ↦ has_listener (Listen.run Conn (record { addr = w.addr; name = [] }) bind)
    | psql ↦ has_listener (Listen.run Conn (record { addr = w.addr; name = [] }) bind)
  ]

  -- Steps of `runPotter` and of the pots. Only the server of the HTTP pot can return once it serves.
  pub data Step : Group → Group → Type 0 where
    adds :
        {w : Worker} {ws : List Worker} {ts : List Task} {n : ℕ}
        → Step (group (starting (w ∷ ws)) ts n) (group (added w ws) ts (suc n))
    goes :
        {w : Worker} {ws : List Worker} {ts : List Task} {n : ℕ}
        → Step (group (added w ws) ts n) (group (starting ws) (ts ++ fresh w ∷ []) n)
    waits : {ts : List Task} {n : ℕ} → Step (group (starting []) ts n) (group waiting ts n)
    returns : {ts : List Task} {n : ℕ} → n ≡ 0 → Step (group waiting ts n) (group returned ts n)
    listens :
        {m : Main} {n : ℕ} (xs ys : List Task) (w : Worker) (bind : Bind)
        → IsAlive m
        → runs w bind ≡ true
        → Step (group m (xs ++ fresh w ∷ ys) n) (group m (xs ++ serving w ∷ ys) n)
    gives_up :
        {m : Main} {n : ℕ} (xs ys : List Task) (w : Worker) (bind : Bind)
        → IsAlive m
        → runs w bind ≡ false
        → Step (group m (xs ++ fresh w ∷ ys) n) (done m (xs ++ ended w ∷ ys) n)
    stops :
        {m : Main} {n : ℕ} (xs ys : List Task) (w : Worker)
        → IsAlive m
        → w.pot ≡ http
        → Step (group m (xs ++ serving w ∷ ys) n) (done m (xs ++ ended w ∷ ys) n)

  pub data Reach : Group → Group → Type 0 where
    here : {g : Group} → Reach g g
    and_then : {f g h : Group} → Reach f g → Step g h → Reach f h

-- `runPotter` at its start.
abbrev pub begun : PotConfig → Group
begun config = group (starting (run_potter config)) [] 0
