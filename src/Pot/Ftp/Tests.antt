-- ===== src/Pot/Ftp/Tests.antt =====
-- Sessions of cmd/ftp/ftp.go with concrete bytes.
use passwd_pot.Common.{◌==◌, codes, List, [], ◌∷◌, ◌++◌, map, ◌≡◌, refl, ◌≢◌, inl, arith, false}
use passwd_pot.Pot.{
  eof, crashed, out_of_fuel, Command, user, pass, NeverAdmits, render_command, crlf,
}
use passwd_pot.Pot.Ftp.{un_authorized, handle_connection}
use passwd_pot.Pot.Ftp.Script.{never}
use passwd_pot.Pot.Ftp.Dialogue.{Harmless, handle_connection-faults-NeverAdmits}
use passwd_pot.Pot.Ftp.Faults.{handle_connection-crashed, handle_connection-pipelined}

-- Two guesses for one user.
abbrev guesses : List Command
guesses = user (codes "root") ∷ pass (codes "123456") ∷ pass (codes "toor") ∷ []

-- A password before any user name, and a write that fails.
ftp_admits_example :
    NeverAdmits Harmless un_authorized
      (handle_connection false (λ n. n == 0) eof (codes "PASS x" ∷ (10 ∷ []) ∷ [])).acts
    × ((handle_connection false (λ n. n == 0) eof (codes "PASS x" ∷ (10 ∷ []) ∷ [])).why
        ≢ out_of_fuel)
ftp_admits_example =
    handle_connection-faults-NeverAdmits false (λ n. n == 0) eof (codes "PASS x" ∷ (10 ∷ []) ∷ [])

ftp_crashed_example :
    (handle_connection false never eof
      (map render_command guesses ++ (codes "USER" ++ crlf) ∷ codes "QUIT" ∷ [])).why
    ≡ crashed
ftp_crashed_example =
    handle_connection-crashed eof guesses (codes "USER") (codes "QUIT" ∷ [])
      (ground arith, (ground arith, (ground arith, tt))) (inl refl)

ftp_pipelined_example :
    handle_connection false never eof ((codes "USER root" ++ 10 ∷ codes "PASS toor") ∷ [])
    ≡ handle_connection false never eof ((codes "USER root" ++ 10 ∷ []) ∷ [])
ftp_pipelined_example =
    handle_connection-pipelined false never eof (codes "USER root") (codes "PASS toor") []
      (ground arith)
