-- ===== src/Proxy/Tests.antt =====
-- cmd/proxy.go with a queue that is a list, and events that are their user names.
use passwd_pot.Common.{Bytes, codes, List, [], ◌∷◌, Option, none, some, ◌≡◌, refl, arith, pos}
use passwd_pot.Api.{Event}
use passwd_pot.Proxy.{drain}
use passwd_pot.Proxy.Fifo.{fifo}
use passwd_pot.Proxy.Rounds.{State, state, collecting, round, posts, begins, rounds, here, and_then}
use passwd_pot.Proxy.History.{Ordered, Reach-Ordered}
use passwd_pot.Proxy.Ending.{During-Bounded, next, meanwhile, at_begin, Bounded}
use passwd_pot.Proxy.Delivery.{drain_all}
use passwd_pot.Proxy.Account.{Accounts, drain-Accounts}

abbrev pub guess_of : Bytes → Event
guess_of name = record {
  id = 0;
  time = pos 0;
  user = name;
  passwd = codes "toor";
  remote_addr = codes "10.0.0.1";
  remote_geo_id = 0;
  remote_port = pos 22;
  remote_name = [];
  remote_version = [];
  origin_addr = [];
  origin_geo_id = 0;
  application = codes "ftp-passwd-pot";
  protocol = codes "ftp";
}

abbrev decode : Bytes → Option Event
decode [] = none
decode (c ∷ v) = some (guess_of (c ∷ v))

abbrev two : List Bytes
two = codes "ann" ∷ codes "bob" ∷ []

abbrev two_events : List Event
two_events = guess_of (codes "ann") ∷ guess_of (codes "bob") ∷ []

sent_two : (drain fifo decode two).0 ≡ some two_events
sent_two =
    (drain_all fifo decode two two_events two refl (refl, (refl, tt)) (λ h. cc) (ground arith)).0

drained_example : Accounts decode 0 two (drain fifo decode two).1 two_events
drained_example = drain-Accounts decode fifo two two_events sent_two

-- A request comes in while the first item is in the hands of a drain.
abbrev caught : State fifo
caught =
    state fifo (codes "bob" ∷ []) (collecting 3 (guess_of (codes "ann") ∷ []))
      (codes "ann" ∷ codes "bob" ∷ []) []

caught_example : Ordered decode fifo caught
unfolding round
caught_example = Reach-Ordered decode fifo [] caught refl (
    and_then (and_then (and_then (and_then here (posts (codes "ann"))) (begins refl)) (rounds 0 []))
      (posts (codes "bob")))

-- One round, and then a request.
ended_example : Bounded fifo decode 1 caught.drainer
unfolding round
ended_example =
    During-Bounded fifo decode 1 (codes "ann" ∷ []) (codes "ann" ∷ []) [] caught refl
      (meanwhile (codes "bob") (next at_begin))
