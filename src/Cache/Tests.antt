-- ===== src/Cache/Tests.antt =====
-- cache/cache.go over an association list.
use passwd_pot.Common.{lookup, insert, codes, bytes_eq, true, [], ◌∷◌, Assoc}
use passwd_pot.Cache.{set, ℕ}
use passwd_pot.Cache.Memory.{memory}
use passwd_pot.Cache.Race.{
  Consistent, Reach-Consistent, state, returned, asleep, here, and_then, has, sets, reads,
}
use passwd_pot.Common.{ℕ, Assoc, refl, true}

abbrev cached : Assoc ℕ
cached = (codes "a", 1) ∷ []

-- A look-up that is interrupted by one that stores another key.
reached_example :
    Consistent memory
      (set memory (codes "b") 2 cached)
      (returned (codes "a") (set memory (codes "b") 2 cached) (1, true))
unfolding lookup insert bytes_eq set
reached_example = Reach-Consistent memory cached (state memory _ _ asleep) (
    and_then (and_then (and_then here (has (codes "a") refl)) (sets (codes "b") 2))
      (reads (codes "a") 1 refl))
