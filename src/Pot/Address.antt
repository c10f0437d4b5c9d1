-- ===== src/Pot/Address.antt =====
-- The address that an event of cmd/ftp, cmd/pop and cmd/psql carries: the part of the remote
-- address before its first colon, and the port between the first two.
use passwd_pot.Common.{Option, none, some, Bytes, List, [], ◌∷◌, ◌++◌, ◌≡◌, Lacks, split, ◌∙◌, ap}
use passwd_pot.Common.Strings.Laws.{split-append, split-Lacks}
use passwd_pot.Api.{Event}
use passwd_pot.Pot.Session.{Surroundings, sender_port}

-- `strings.Split(conn.RemoteAddr().String(), ":")`
unfoldable pub remote_addr_pair : Bytes → List Bytes
unfolding split
remote_addr_pair addr = split 58 addr

-- The address of a sender is a host and a port, and may go on.
pub remote_addr_pair-append :
    (host port tail : Bytes)
    → Lacks 58 host
    → Lacks 58 port
    → remote_addr_pair (host ++ 58 ∷ (port ++ 58 ∷ tail)) ≡ host ∷ port ∷ split 58 tail
unfolding remote_addr_pair
remote_addr_pair-append host port tail hh hp =
    split-append 58 host (port ++ 58 ∷ tail) hh
    ∙ ap (λ (ps : List Bytes). host ∷ ps) (split-append 58 port tail hp)

pub remote_addr_pair_ipv4 :
    (host port : Bytes)
    → Lacks 58 host
    → Lacks 58 port
    → remote_addr_pair (host ++ 58 ∷ port) ≡ host ∷ port ∷ []
unfolding remote_addr_pair
remote_addr_pair_ipv4 host port hh hp =
    split-append 58 host port hh ∙ ap (λ ps. host ∷ ps) (split-Lacks 58 port hp)

-- The parts of an event that a sender is known by.
pub record Reports (w : Surroundings) (user password host port : Bytes) (e : Event) : Type 0 where
  pub who : e.user ≡ user
  pub secret : e.passwd ≡ password
  pub where_from : e.remote_addr ≡ host
  pub at_port : e.remote_port ≡ sender_port port
  pub at_time : e.time ≡ w.now

-- An event is built, and it says this of its sender.
abbrev pub Reported : Surroundings → Bytes → Bytes → Bytes → Bytes → Option Event → Type 0
Reported w user password host port none = ⊥
Reported w user password host port (some e) = Reports w user password host port e
