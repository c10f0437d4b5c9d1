-- ===== src/Proxy/Process.antt =====
-- cmd/proxy.go: the relay as a process: its start, the goroutine of the signals, and its exit. The
-- drain behind `http.Serve`, which returns only where the listener fails, is left out.
use passwd_pot.Common.{
  ℕ, ◌==◌, ℤ, Bytes, bytes_eq, true, false, Bool, List, [], ◌∷◌, ◌++◌, Option, if◌then◌else◌, ◌≡◌,
}
use passwd_pot.Common.Decimal.RoundTrip.{print}
use passwd_pot.Api.{Event}
use passwd_pot.Api.Time.{unix_nano}
use passwd_pot.Proxy.{Queue}
use passwd_pot.Proxy.Rounds.{
  Signal, hup, int, term, quit, Drainer, idle, collecting, State, state, Step,
}

-- The items that the queue in each directory holds.
abbrev pub Disk : Type 0
Disk = Bytes → List Bytes

abbrev pub saved : Bytes → List Bytes → Disk → Disk
saved path vs disk p = if bytes_eq path p then vs else disk p

-- `os.TempDir()`, and whether `goque.OpenQueue` fails at a path, `api.New` fails, and `net.Listen`
-- fails at an address.
pub record Host : Type 0 where
  pub temp_dir : Bytes
  pub open_fails : Bytes → Bool
  pub client_fails : Bool
  pub listen_fails : Bytes → Bool

-- `proxyConfig`, less the duration, which only paces the drains.
pub record ProxyConfig : Type 0 where
  pub bind : Bytes
  pub dry_run : Bool

-- The directory of the queue: a new one for each instant at which a relay is started.
unfoldable pub queue_path : Bytes → Bytes → ℤ → Bytes
unfolding print unix_nano
queue_path temp_dir name now = temp_dir ++ (47 ∷ (name ++ (47 ∷ print (unix_nano now))))

-- How the start ends: with an exit code, with the return of `runproxyServer`, or with the server
-- and the queue in its directory.
pub data Started : Type 0 where
  exits : ℕ → Started
  not_listening : Started
  serves : Bytes → List Bytes → Started

-- `runproxyServer` up to `http.Serve`.
unfoldable pub runproxy_server : Host → ProxyConfig → Bytes → List Bytes → Started
runproxy_server host config path vs =
    if host.listen_fails config.bind then not_listening else serves path vs

-- `proxyrun`
unfoldable pub proxyrun : Host → ProxyConfig → Bytes → ℤ → Disk → Started
unfolding queue_path runproxy_server
proxyrun host config name now disk =
    let path = queue_path host.temp_dir name now in
    if host.open_fails path
    then exits 1
    else if (if config.dry_run then false else host.client_fails)
    then exits 2
    else runproxy_server host config path (disk path)

-- The goroutine of the signals: at the channel, before `Drain` or in it, or behind the `Drain` of a
-- signal that ends the process.
pub data Phase : Type 0 where
  waiting : Phase
  wants : Signal → Phase
  drains : Signal → Phase
  leaves : Phase

-- Behind the `Drain` of a signal.
abbrev pub behind : Signal → Phase
behind hup = waiting
behind int = leaves
behind term = leaves
behind quit = leaves

abbrev pub IsOutside : Phase → Type 0
IsOutside (drains _) = ⊥
IsOutside _ = Unit

abbrev pub IsBusy : Drainer → Type 0
IsBusy idle = ⊥
IsBusy (collecting _ _) = Unit

module _ (queue : Queue) where
  pub data Process : Type 0 where
    process : State queue → Phase → Process
    exited : State queue → ℕ → Process

  -- A queue in its directory, opened.
  pub record Opened (vs : List Bytes) : Type 0 where
    pub store : queue.Store
    pub holds : queue.items store ≡ vs

  module _ (decode : Bytes → Option Event) where
    -- Steps of the requests and of the timer; a signal that arrives; its `Drain`, which waits for
    -- the lock, and in which requests still come in; and the exit.
    pub data Moves : Process → Process → Type 0 where
      relays :
          {s t : State queue} {p : Phase}
          → IsOutside p
          → Step queue decode s t
          → Moves (process s p) (process t p)
      signalled : {s : State queue} (sg : Signal) → Moves (process s waiting) (process s (wants sg))
      finds_nothing :
          {q : queue.Store} {ps : List Bytes} {bs : List (List Event)} {p : Phase} (sg : Signal)
          → (queue.length q == 0) ≡ true
          → behind sg ≡ p
          → Moves
              (process (state queue q idle ps bs) (wants sg))
              (process (state queue q idle ps bs) p)
      enters :
          {q : queue.Store} {ps : List Bytes} {bs : List (List Event)} (sg : Signal)
          → (queue.length q == 0) ≡ false
          → Moves
              (process (state queue q idle ps bs) (wants sg))
              (process (state queue q (collecting 0 []) ps bs) (drains sg))
      goes_on :
          {s t : State queue} (sg : Signal)
          → Step queue decode s t
          → IsBusy t.drainer
          → Moves (process s (drains sg)) (process t (drains sg))
      finishes :
          {s t : State queue} {p : Phase} (sg : Signal)
          → Step queue decode s t
          → t.drainer ≡ idle
          → behind sg ≡ p
          → Moves (process s (drains sg)) (process t p)
      quits : {s : State queue} → Moves (process s leaves) (exited s 0)

    pub data Runs : Process → Process → Type 0 where
      here : {x : Process} → Runs x x
      and_then : {x y z : Process} → Runs x y → Moves y z → Runs x z
