-- ===== src/Senders.antt =====
-- The `sendEvent` of cmd/pop, cmd/ftp, cmd/psql and cmd/http: what an event says of its sender.
use passwd_pot.Common.{Bytes, [], ◌∷◌, ◌++◌, refl, Lacks, List}
use passwd_pot.Pot.{Surroundings}
use passwd_pot.Pot.Address.{
  remote_addr_pair, Reported, remote_addr_pair-append, remote_addr_pair_ipv4,
}
use passwd_pot.Pot.Pop
use passwd_pot.Pot.Ftp
use passwd_pot.Pot.Http
use passwd_pot.Pot.Http.{Request, sender_addr}
use passwd_pot.Psql.Handler

-- The events of the four pots for one capture at the same remote address.
module _ (w : Surroundings) (user password params : Bytes) (r : Request) where
  abbrev pub AllReport : Bytes → Bytes → List Bytes → Type 0
  AllReport host port pair =
      Reported w user password host port (Pop.send_event w user password pair)
      × Reported w user password host port (Ftp.send_event w user password pair)
      × Reported w user password host port (Handler.send_event w user password params pair)
      × Reported w user password (sender_addr host r.forwarded_for) port
          (Http.send_event w user password r pair)

  pair-AllReport :
      (host port : Bytes) (rest : List Bytes) → AllReport host port (host ∷ port ∷ rest)
  unfolding Pop.send_event Ftp.send_event Handler.send_event Http.send_event
  pair-AllReport host port rest = (
    record { who = refl; secret = refl; where_from = refl; at_port = refl; at_time = refl },
    record { who = refl; secret = refl; where_from = refl; at_port = refl; at_time = refl },
    record { who = refl; secret = refl; where_from = refl; at_port = refl; at_time = refl },
    record { who = refl; secret = refl; where_from = refl; at_port = refl; at_time = refl },
  )

  -- For a sender at "host:port", as IPv4 addresses are written, each pot sends an event with the
  -- captured user and password, the time, the port, and the host as the remote address; only the
  -- HTTP pot takes the header X-Forwarded-For in its place where there is one. Neither the host nor
  -- the port holds a colon.
  pub send_event_ipv4 :
      (host port : Bytes)
      → Lacks 58 host
      → Lacks 58 port
      → AllReport host port (remote_addr_pair (host ++ 58 ∷ port))
  send_event_ipv4 host port hh hp =
      rw (remote_addr_pair_ipv4 host port hh hp) (pair-AllReport host port [])

  -- An IPv6 sender is misreported: of an address with two colons or more every pot takes the text
  -- before the first one for the host, and that between the first two for the port; only the HTTP
  -- pot prefers the header X-Forwarded-For where there is one.
  pub send_event_ipv6 :
      (first second rest : Bytes)
      → Lacks 58 first
      → Lacks 58 second
      → AllReport first second (remote_addr_pair (first ++ 58 ∷ (second ++ 58 ∷ rest)))
  send_event_ipv6 first second rest h1 h2 =
      rw (remote_addr_pair-append first second rest h1 h2) (pair-AllReport first second _)
