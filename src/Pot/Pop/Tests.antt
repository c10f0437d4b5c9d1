-- ===== src/Pot/Pop/Tests.antt =====
-- Sessions of cmd/pop/pop.go with concrete bytes.
use passwd_pot.Common.{codes, List, [], ◌∷◌, ◌++◌, ◌≡◌, arith}
use passwd_pot.Pot.{
  write, spawn, close, eof, failed, quit, Command, user, pass, quit_session, NeverAdmits, Returns,
}
use passwd_pot.Pot.Pop.{hello_msg, ok_msg, un_auth_msg, handle_connection}
use passwd_pot.Pot.Pop.Script.{render, handle_connection-render}
use passwd_pot.Pot.Pop.Dialogue.{Harmless, handle_connection-NeverAdmits}

-- Two guesses for one user, and a quit.
abbrev guesses : List Command
guesses = user (codes "root") ∷ pass (codes "123456") ∷ pass (codes "toor") ∷ quit_session ∷ []

pop_render_example : handle_connection eof (render guesses) ≡ record {
  acts =
      write hello_msg
      ∷ write ok_msg
      ∷ spawn (codes "root") (codes "123456") []
      ∷ write un_auth_msg
      ∷ spawn (codes "root") (codes "toor") []
      ∷ write un_auth_msg
      ∷ close
      ∷ [];
  why = quit;
}
pop_render_example =
    handle_connection-render eof guesses (ground arith, (ground arith, (ground arith, (tt, tt))))

-- A password before any user name, and a stream that breaks off in a line.
pop_admits_example :
    NeverAdmits Harmless un_auth_msg
      (handle_connection failed (codes "PASS x" ++ 10 ∷ codes "USER")).acts
    × Returns (handle_connection failed (codes "PASS x" ++ 10 ∷ codes "USER")).why
pop_admits_example = handle_connection-NeverAdmits failed (codes "PASS x" ++ 10 ∷ codes "USER")
