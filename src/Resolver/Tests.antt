-- ===== src/Resolver/Tests.antt =====
-- resolver/resolve.go with the database and service of Table.
use passwd_pot.Common.{
  lookup, Bytes, codes, pos, [], ◌∷◌, ◌≡◌, refl, ok, arith, bytes_eq, false, true,
}
use passwd_pot.Api.{Event}
use passwd_pot.Cache
use passwd_pot.Cache.Memory.{memory}
use passwd_pot.Resolver.{
  History, select_geo, get_location, insert_geo, World, resolve_addr, resolve_event, resolve,
}
use passwd_pot.Resolver.Table.{table, somewhere}
use passwd_pot.Resolver.Marks.{Marked, resolve_event-Marked}
use passwd_pot.Resolver.Shared.{both_cached, resolve-resolve_event}
use passwd_pot.Resolver.Service.{Http, with_service}
use passwd_pot.Resolver.Answered.{Backed, Turns-Backed}
use passwd_pot.Common.{insert, none}
use passwd_pot.Resolver.Clients.{Sourced, Turns-Sourced, here, and_then, resolves, resolves_event}

abbrev remote : Bytes
remote = codes "10.0.0.1"

abbrev origin : Bytes
origin = codes "10.0.0.2"

abbrev guess : Event
guess = record {
  id = 9;
  time = pos 0;
  user = codes "root";
  passwd = codes "toor";
  remote_addr = remote;
  remote_geo_id = 0;
  remote_port = pos 22;
  remote_name = [];
  remote_version = [];
  origin_addr = origin;
  origin_geo_id = 0;
  application = codes "ftp-passwd-pot";
  protocol = codes "ftp";
}

abbrev empty_world : World memory
empty_world = record { cache = []; calls = [] }

event_ids_example : Marked memory 9 (resolve_event memory true table guess empty_world)
event_ids_example = resolve_event-Marked memory true table guess empty_world (λ h. omega arith)

uncached : both_cached memory guess empty_world ≡ false
unfolding Cache.get lookup
uncached = refl

ids : (resolve_event memory true table guess empty_world).0.0 ≡ 3 ∷ 7 ∷ []
unfolding resolve_event Cache.get lookup resolve_addr bytes_eq
ids = refl

shared_example :
    resolve memory true table remote (resolve_event memory true table guess empty_world).1
    ≡ (ok 7, (resolve_event memory true table guess empty_world).1)
shared_example =
    resolve-resolve_event memory table guess empty_world 3 7 (λ h. omega arith) uncached ids
      (omega arith)

abbrev after : History
after = insert_geo (somewhere remote) ∷ get_location remote ∷ select_geo remote ∷ []

-- One event, and a look-up that changes nothing.
abbrev some_turns : World memory
some_turns =
    (resolve memory true table remote (resolve_event memory true table guess empty_world).1).1

held_seven : Cache.get memory remote some_turns.cache ≡ (7, true)
unfolding resolve resolve_event Cache.get Cache.set lookup insert resolve_addr bytes_eq
held_seven = refl

turns_example : Sourced memory table empty_world some_turns remote 7
unfolding Cache.new_cache
turns_example =
    Turns-Sourced memory table empty_world some_turns remote 7 refl
      (and_then (and_then here (resolves_event true guess)) (resolves true remote)) held_seven

abbrev echo : Http
echo = record {
  get = λ h u. ok (record { status = 200; body = u; breaks = none });
  decode = λ body breaks. ok (somewhere body);
  now = λ h. pos 2;
}

abbrev service_url : Bytes
service_url = codes "http://localhost:8080"

service_example :
    Backed echo service_url
      (resolve memory true (with_service echo service_url table) remote empty_world).1.calls
service_example =
    Turns-Backed echo service_url table memory empty_world _ refl
      (and_then here (resolves true remote))
