-- ===== src/Proxy/Restart.antt =====
-- cmd/proxy.go: a relay that exits, and one that is started later.
use mathlib.Core.List.{append_cancel_left}
use passwd_pot.Common.{
  ℕ, ℤ, atoi, Bytes, bytes_eq_iff, false, List, [], ◌∷◌, ◌++◌, Option, some, if◌then◌else◌, ◌≡◌,
  ◌≢◌, sym, ap, ◌∙◌, Bool-cases, inl, inr, arith,
}
use passwd_pot.Common.Decimal.RoundTrip.{print, FitsInt64, atoi-print}
use passwd_pot.Api.{Event}
use passwd_pot.Api.Time.{unix_nano, unix_nano-same}
use passwd_pot.Proxy.{Queue}
use passwd_pot.Proxy.Rounds.{
  Signal, hup, int, term, quit, idle, collecting, State, state, Step, begins, nothing_queued, Reach,
}
use passwd_pot.Proxy.Rounds
use passwd_pot.Proxy.History.{Ordered, Reach-Ordered}
use passwd_pot.Proxy.Process.{
  Disk, saved, Host, ProxyConfig, queue_path, serves, proxyrun, runproxy_server, waiting, Process,
  process, exited, Opened, Moves, Runs, relays, signalled, finds_nothing, enters, goes_on, finishes,
  quits, here, and_then,
}

print_injective : (m n : ℤ) → FitsInt64 m → FitsInt64 n → print m ≡ print n → m ≡ n
print_injective m n hm hn e =
    let back : some m ≡ some n = sym (atoi-print m hm) ∙ ap atoi e ∙ atoi-print n hn in cc

queue_path_injective :
    (temp_dir name : Bytes) (t u : ℤ)
    → FitsInt64 t
    → FitsInt64 u
    → queue_path temp_dir name t ≡ queue_path temp_dir name u
    → t ≡ u
unfolding queue_path
queue_path_injective temp_dir name t u ht hu e =
    let rest : 47 ∷ (name ++ (47 ∷ print (unix_nano t)))
        ≡ 47 ∷ (name ++ (47 ∷ print (unix_nano u))) =
      append_cancel_left temp_dir _ _ e in
    let tail : name ++ (47 ∷ print (unix_nano t)) ≡ name ++ (47 ∷ print (unix_nano u)) = cc in
    let last : 47 ∷ print (unix_nano t) ≡ 47 ∷ print (unix_nano u) =
      append_cancel_left name _ _ tail in
    let printed : print (unix_nano t) ≡ print (unix_nano u) = cc in
    print_injective t u ht hu
      (ap print (sym (unix_nano-same t ht)) ∙ printed ∙ ap print (unix_nano-same u hu))

proxyrun-path :
    (host : Host) (config : ProxyConfig) (name : Bytes) (now : ℤ) (disk : Disk) (path : Bytes)
    (vs : List Bytes)
    → proxyrun host config name now disk ≡ serves path vs
    → (path ≡ queue_path host.temp_dir name now) × (vs ≡ disk path)
unfolding proxyrun runproxy_server
proxyrun-path host config name now disk path vs e =
    let p = queue_path host.temp_dir name now in
    elim (Bool-cases (host.open_fails p)) [
      | inl f ↦ absurd (let e' = rw (f, proxyrun) at e in cc)
      | inr g ↦
          let e1 = rw (g, proxyrun) at e in
          elim (Bool-cases (if config.dry_run then false else host.client_fails)) [
            | inl f ↦ absurd (let e' = rw f at e1 in cc)
            | inr c ↦
                let e2 = rw c at e1 in
                elim (Bool-cases (host.listen_fails config.bind)) [
                  | inl f ↦ absurd (let e' = rw (f, runproxy_server) at e2 in cc)
                  | inr l ↦ let e3 = rw (l, runproxy_server) at e2 in (cc, cc)
                ]
          ]
    ]

module _ (queue : Queue) (decode : Bytes → Option Event) where
  abbrev pub relay : Process queue → State queue
  relay (process s p) = s
  relay (exited s c) = s

  Moves-Reach :
      (s : State queue) {x y : Process queue}
      → Moves queue decode x y
      → Reach queue decode s (relay x)
      → Reach queue decode s (relay y)
  Moves-Reach s (relays out st) r = Rounds.and_then r st
  Moves-Reach s (signalled sg) r = r
  Moves-Reach s (finds_nothing sg e b) r = r
  Moves-Reach s (enters sg e) r = Rounds.and_then r (begins e)
  Moves-Reach s (goes_on sg st busy) r = Rounds.and_then r st
  Moves-Reach s (finishes sg st done b) r = Rounds.and_then r st
  Moves-Reach s quits r = r

  -- What the relay does in a process it could do by itself.
  Runs-Reach :
      {x y : Process queue} → Runs queue decode x y → Reach queue decode (relay x) (relay y)
  Runs-Reach here = Rounds.here
  Runs-Reach (and_then {x = x} r m) = Moves-Reach (relay x) m (Runs-Reach r)

  -- The process at its start.
  abbrev pub begun : queue.Store → Process queue
  begun q = process (state queue q idle [] []) waiting

  exited-Ordered :
      (vs : List Bytes) (o : Opened queue vs) (s : Process queue)
      → vs ≡ []
      → Runs queue decode (begun o.store) s
      → Ordered decode queue (relay s)
  exited-Ordered vs o s empty r =
      Reach-Ordered decode queue o.store (relay s) (o.holds ∙ empty) (Runs-Reach r)

  -- What is in the queue when the relay exits is lost. A relay starts in a directory of its own and
  -- runs, whatever requests, timers and signals do, until it exits; another one is started at
  -- another instant, and runs. Then the items that the first one left are still in its directory,
  -- and are those that were posted to it and not taken; and whatever the second one sends, or has
  -- in hand, are the events of items that were posted to the second one, in their order. The
  -- directories of both are empty at first, and the clock is in the range of an `int64`.
  pub restart_loses :
      (host : Host) (config : ProxyConfig) (name : Bytes) (t u : ℤ) (disk : Disk)
      (path path' : Bytes) (vs vs' : List Bytes) (o : Opened queue vs) (o' : Opened queue vs')
      (left : State queue) (code : ℕ) (later : Process queue)
      → FitsInt64 t
      → FitsInt64 u
      → t ≢ u
      → disk (queue_path host.temp_dir name t) ≡ []
      → disk (queue_path host.temp_dir name u) ≡ []
      → proxyrun host config name t disk ≡ serves path vs
      → Runs queue decode (begun o.store) (exited left code)
      → proxyrun host config name u (saved path (queue.items left.q) disk) ≡ serves path' vs'
      → Runs queue decode (begun o'.store) later
      → Ordered decode queue left
        × (saved path (queue.items left.q) disk path ≡ queue.items left.q)
        × (path ≢ path')
        × Ordered decode queue (relay later)
  restart_loses host config name t u disk path path' vs vs' o o' left code later ht hu apart empty_t
        empty_u first r second r' =
      let (path_t, vs_t) = proxyrun-path host config name t disk path vs first in
      let (path_u, vs_u) =
        proxyrun-path host config name u (saved path (queue.items left.q) disk) path' vs' second in
      let other : path ≢ path' =
        λ e. apart (queue_path_injective host.temp_dir name t u ht hu (sym path_t ∙ e ∙ path_u)) in
      let empty : vs ≡ [] = vs_t ∙ ap disk path_t ∙ empty_t in
      let empty' : vs' ≡ [] =
        vs_u ∙ ground (arith, bytes_eq_iff path path', ap disk path_u ∙ empty_u) in
      (
        exited-Ordered vs o (exited left code) empty r,
        ground (arith, bytes_eq_iff path path),
        other,
        exited-Ordered vs' o' later empty' r',
      )
