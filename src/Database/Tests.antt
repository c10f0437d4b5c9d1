-- ===== src/Database/Tests.antt =====
-- potdb/db.go with concrete statements.
use passwd_pot.Common.{codes, itoa, true, false, ◌≡◌, refl, Lacks}
use passwd_pot.Database.{replace_params}
use passwd_pot.Database.Params.{number, replace_params-number}

params_example :
    (replace_params true (codes "a=? b=?") ≡ codes "a=? b=?")
    × (replace_params false (codes "a=? b=?") ≡ number 1 (codes "a=? b=?"))
    × Lacks 63 (replace_params false (codes "a=? b=?"))
params_example = replace_params-number (codes "a=? b=?")

numbered_test : number 1 (codes "a=? b=?") ≡ codes "a=$1 b=$2"
unfolding number itoa
numbered_test = refl
