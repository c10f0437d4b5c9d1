-- ===== src/Psql/Handler/Tests.antt =====
-- Sessions of cmd/psql/psql.go with concrete bytes.
use passwd_pot.Common.{codes, Bytes, [], ◌∷◌, ◌++◌, ◌≡◌, refl, arith}
use passwd_pot.Pot.{write, spawn, quit, finish, ◌▸◌}
use passwd_pot.Psql.Words.{be32}
use passwd_pot.Psql.Handler.{
  written, Scratch, Wire, auth_request, auth_failed, handle_client, error_fields, recv_message,
  message,
}
use passwd_pot.Psql.Handler.Packets.{ssl_refusals}
use passwd_pot.Psql.Handler.Params.{NamesUser, terminated}
use passwd_pot.Psql.Handler.Session.{login, handle_client-login}
use passwd_pot.Psql.Handler.Params.{terminated}
use passwd_pot.Psql.Handler.Frames.{messages-packet}

-- What a fresh slice of the runtime may hold behind its length.
abbrev dirt : Scratch
dirt = record { s1 = 1; s2 = 2; s3 = 3; s4 = 4 }

abbrev wire : Wire
wire = record {
  ssl_writes = λ n. written;
  auth_write = written;
  auth_scratch = dirt;
  error_scratch = dirt;
}

abbrev params : Bytes
params = terminated (codes "user" ∷ codes "joe" ∷ codes "database" ∷ codes "db" ∷ []) ++ 0 ∷ []

params_user : NamesUser (codes "joe") params
params_user = record {
  before = [];
  after = (codes "database", codes "db") ∷ [];
  message = refl;
  whole = ground arith;
  before_others = tt;
  user_other = λ h. cc;
  after_others = ground arith;
}

login_example :
    handle_client wire (login 1 196608 params (codes "pw") (codes "rest"))
    ≡ ssl_refusals 1
      ▸ (write (auth_request dirt)
          ∷ spawn (codes "joe") (codes "pw") params
          ∷ write (auth_failed dirt (codes "joe"))
          ∷ [])
      ▸ finish quit
login_example =
    handle_client-login wire 1 196608 params (codes "joe") (codes "pw") (codes "rest") (λ n. refl)
      (λ h. cc) (ground arith) (omega arith) (λ h. omega arith) params_user (ground arith)

messages_example :
    (recv_message (auth_request dirt ++ codes "x") ≡ message 82 (be32 3) (codes "x"))
    × (recv_message (auth_failed dirt (codes "joe") ++ codes "x")
        ≡ message 69 (terminated (error_fields (codes "joe"))) (codes "x"))
messages_example = messages-packet dirt (codes "joe") (codes "x") (ground arith)
