-- ===== src/Capture/LoginTests.antt =====
-- A PostgreSQL login without a request for SSL, and the relay behind it.
use passwd_pot.Common.{codes, Bytes, List, [], ◌∷◌, ◌++◌, ◌≡◌, refl, arith, ap}
use passwd_pot.Pot.{Act, Outcome, write, spawn, close}
use passwd_pot.Psql.Handler
use passwd_pot.Psql.Handler.{
  written, Scratch, Wire, find_user, auth_request, auth_failed, handle_client,
}
use passwd_pot.Psql.Handler.Params.{NamesUser}
use passwd_pot.Psql.Handler.Session.{login, handle_client-login}
use passwd_pot.Proxy.{serve_http}
use passwd_pot.Proxy.Fifo.{fifo}
use passwd_pot.Capture.{state, Steps, here, and_then, writes, closes, spawns, posts}
use passwd_pot.Capture.Login.{psql_sender, SendsLogin, handle_client-SendsLogin}
use passwd_pot.Capture.Tests.{lengths, noon}

abbrev zeros : Scratch
zeros = record { s1 = 0; s2 = 0; s3 = 0; s4 = 0 }

abbrev wire : Wire
wire = record {
  ssl_writes = λ n. written;
  auth_write = written;
  auth_scratch = zeros;
  error_scratch = zeros;
}

abbrev params : Bytes
params = codes "user" ++ 0 ∷ codes "joe" ++ 0 ∷ 0 ∷ []

params_joe : NamesUser (codes "joe") params
params_joe = record {
  before = [];
  after = [];
  message = refl;
  whole = ground arith;
  before_others = tt;
  user_other = λ h. cc;
  after_others = ground arith;
}

abbrev acts : List Act
acts =
    write (auth_request zeros)
    ∷ spawn (codes "joe") (codes "pw") params
    ∷ write (auth_failed zeros (codes "joe"))
    ∷ close
    ∷ []

psql_acts : (handle_client wire (login 0 196608 params (codes "pw") [])).acts ≡ acts
psql_acts =
    ap (λ (o : Outcome). o.acts)
      (handle_client-login wire 0 196608 params (codes "joe") (codes "pw") [] (λ n. refl) (λ h. cc)
        (ground arith) (omega arith) (λ h. omega arith) params_joe (ground arith))

psql_run :
    Steps fifo lengths
      (psql_sender (codes "10.0.0.1") (codes "9"))
      5
      (state fifo lengths (psql_sender (codes "10.0.0.1") (codes "9")) acts [] [])
      (state fifo lengths
        (psql_sender (codes "10.0.0.1") (codes "9"))
        []
        []
        ((3 ∷ codes "joepw") ∷ []))
unfolding serve_http Handler.send_event
psql_run =
    let captured_one =
      and_then (and_then here (writes _)) (spawns noon (codes "joe") (codes "pw") params _ refl) in
    and_then (and_then (and_then captured_one (writes _)) (posts [] [] _)) closes

psql_example : SendsLogin fifo lengths ((3 ∷ codes "joepw") ∷ []) (codes "joe", codes "pw")
psql_example =
    handle_client-SendsLogin fifo lengths (codes "10.0.0.1") (codes "9") []
      ((3 ∷ codes "joepw") ∷ []) 5 wire 0 196608 params (codes "joe") (codes "pw") [] (λ v r. refl)
      refl (ground arith) tt tt (λ n. refl) (λ h. cc) (ground arith) (omega arith)
      (λ h. omega arith) params_joe (ground arith) (rw psql_acts psql_run)
