-- ===== src/Proxy/RestartTests.antt =====
-- cmd/proxy.go: a relay that gets an item behind the drain of its exit, and one that is started
-- later.
use passwd_pot.Common.{
  itoa, bytes_eq, codes, Bytes, pos, [], ◌∷◌, some, Option, false, ◌≡◌, ◌≢◌, refl, arith,
}
use passwd_pot.Api.{Event}
use passwd_pot.Proxy.Fifo.{fifo}
use passwd_pot.Proxy.Rounds.{State, state, term, idle, round, posts, rounds}
use passwd_pot.Proxy.History.{Ordered}
use passwd_pot.Proxy.Tests.{guess_of}
use passwd_pot.Proxy.Process.{
  Disk, Host, ProxyConfig, queue_path, proxyrun, runproxy_server, waiting, process, exited, Opened,
  Runs, relays, signalled, enters, goes_on, finishes, quits, here, and_then, saved,
}
use passwd_pot.Proxy.Restart.{begun, restart_loses}

abbrev decode : Bytes → Option Event
decode v = some (guess_of v)

abbrev root : Bytes
root = codes "root"

abbrev guest : Bytes
guest = codes "guest"

abbrev host : Host
host = record {
  temp_dir = codes "/tmp";
  open_fails = λ p. false;
  client_fails = false;
  listen_fails = λ a. false;
}

abbrev config : ProxyConfig
config = record { bind = codes "localhost:8889"; dry_run = false }

abbrev empty_disk : Disk
empty_disk p = []

abbrev opened : Opened fifo []
opened = record { store = []; holds = refl }

abbrev left : State fifo
left = state fifo (guest ∷ []) idle (root ∷ guest ∷ []) ((guess_of root ∷ []) ∷ [])

abbrev later : State fifo
later = state fifo (root ∷ []) idle (root ∷ []) []

left_run : Runs fifo decode (begun fifo decode []) (exited left 0)
unfolding round
left_run =
    and_then
      (and_then
        (and_then
          (and_then
            (and_then (and_then (and_then here (relays tt (posts root))) (signalled term))
              (enters term refl))
            (goes_on term (rounds 0 []) tt))
          (finishes term (rounds 4 (guess_of root ∷ [])) refl refl))
        (relays tt (posts guest)))
      quits

restart_example :
    Ordered decode fifo left
    × (saved
          (queue_path (codes "/tmp") (codes "proxy") (pos 1))
          (guest ∷ [])
          empty_disk
          (queue_path (codes "/tmp") (codes "proxy") (pos 1))
        ≡ guest ∷ [])
    × (queue_path (codes "/tmp") (codes "proxy") (pos 1)
        ≢ queue_path (codes "/tmp") (codes "proxy") (pos 2))
    × Ordered decode fifo later
unfolding proxyrun runproxy_server bytes_eq itoa
restart_example =
    restart_loses fifo decode host config (codes "proxy") (pos 1) (pos 2) empty_disk
      (queue_path (codes "/tmp") (codes "proxy") (pos 1))
      (queue_path (codes "/tmp") (codes "proxy") (pos 2)) [] [] opened opened left 0
      (process later waiting) (omega arith) (omega arith) (λ e. absurd (cc)) refl refl refl left_run
      refl (and_then here (relays tt (posts root)))
