-- ===== src/Potter/Tests.antt =====
-- cmd/potter.go with one pot, whose address cannot be bound.
use passwd_pot.Common.{itoa, codes, ℕ, pos, false, none, [], ◌∷◌, ◌++◌, ◌≡◌, refl, map, All}
use passwd_pot.Potter.{PotConfig, Worker, http, run_potter}
use passwd_pot.Potter.Group.{
  Group, group, ended, returned, panicked, adds, goes, gives_up, waits, returns, Reach, here,
  and_then, begun, runs,
}
use passwd_pot.Potter.Waits.{worker_of, left, IsEnded, GoesOn, Reach-Waits}

abbrev config : PotConfig
config = record {
  ftp_port = pos 0;
  http_port = pos 80;
  pop_port = pos 0;
  psql_port = pos 0;
  bind = codes "localhost";
  all = false;
}

abbrev web : Worker
web = record { pot = http; addr = codes "localhost:80" }

abbrev over : Group
over = group returned (ended web ∷ []) 0

over_run : Reach ℕ (begun config) over
unfolding run_potter runs itoa
over_run =
    and_then
      (and_then
        (and_then (and_then (and_then here adds) goes) (gives_up [] [] web (λ a. none) tt refl))
        waits)
      (returns refl)

waits_example :
    ¬ (over.main ≡ panicked)
    × (map worker_of over.tasks ++ left over.main ≡ run_potter config)
    × (over.main ≡ returned
        → (map worker_of over.tasks ≡ run_potter config) × All IsEnded over.tasks)
    × GoesOn ℕ over
waits_example = Reach-Waits ℕ config over over_run
