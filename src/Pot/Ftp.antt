-- ===== src/Pot/Ftp.antt =====
-- cmd/ftp/ftp.go: the FTP pot.
pub mod Steps
pub mod Script
pub mod Dialogue
pub mod Faults
mod Tests
use passwd_pot.Common.{
  ℕ, zero, suc, ◌+◌, Bytes, codes, ℤ, pos, Bool, true, false, bytes_eq, length, get_elem?, cut,
  if◌then◌else◌, List, [], ◌∷◌, ◌++◌, Option, none, some, split, ◌≡◌, refl,
}
use passwd_pot.Api.{Event}
use passwd_pot.Pot.{
  Act, write, spawn, close, ReadEnd, eof, failed, Outcome, End, closed_by_client, read_error,
  write_error, quit, crashed, out_of_fuel, finish, ◌▸◌, Surroundings, sender_port, resolved_name,
  words,
}

abbrev pub un_authorized : Bytes
un_authorized = codes "530 Login authentication failed\r\n"

abbrev pub user_ok : Bytes
user_ok = codes "331 User OK\r\n"

abbrev pub action_not_taken : Bytes
action_not_taken = codes "550 Action not taken\r\n"

abbrev pub greeting : Bytes
greeting = codes "220 This is a private system - No anonymous login\r\n"

-- `p.sendEvent` up to the `Send`; `none` where `remoteAddrPair[1]` panics.
unfoldable pub send_event : Surroundings → Bytes → Bytes → List Bytes → Option Event
unfolding sender_port resolved_name
send_event w user password (host ∷ port ∷ _) = some (record {
  id = 0;
  time = w.now;
  user = user;
  passwd = password;
  remote_addr = host;
  remote_geo_id = 0;
  remote_port = sender_port port;
  remote_name = resolved_name w host;
  remote_version = [];
  origin_addr = [];
  origin_geo_id = 0;
  application = codes "ftp-passwd-pot";
  protocol = codes "ftp";
})
send_event w user password _ = none

pub get_command : Bytes → Bytes × List Bytes
unfolding words
get_command line = elim (words line) [ [] ↦ ([], []) | cmd ∷ args ↦ (cmd, args) ]

-- `bufio.NewReader(conn).ReadString('\n')`, where the connection is what its reads return, one
-- after the other, and the first argument is what was read before. What the last read returned
-- behind the newline stays in the reader, which is dropped.
pub read_string : Bytes → List Bytes → Option (Bytes × List Bytes)
unfolding cut
read_string sofar [] = none
read_string sofar (chunk ∷ chunks) = elim (cut 10 chunk) [
  | none ↦ read_string (sofar ++ chunk) chunks
  | some (line, _) ↦ some (sofar ++ (line ++ 10 ∷ []), chunks)
]

-- `none` is an error: the end of the stream, or another one.
pub read_command : List Bytes → Option (Bytes × List Bytes × List Bytes)
unfolding read_string get_command
read_command chunks = elim (read_string [] chunks) [
  | none ↦ none
  | some (c, rest) ↦ let (cmd, args) = get_command c in some (cmd, args, rest)
]

-- What one command does: its actions and the user that is kept, or how the handler returns.
pub data Next : Type 0 where
  go : List Act → Bytes → Next
  stop : List Act → End → Next

-- `args[0]`, or the panic where there is no argument.
pub with_arg : List Bytes → List Act → (Bytes → Next) → Next
with_arg [] acts k = stop acts crashed
with_arg (arg ∷ _) acts k = k arg

-- The body of the loop behind the read; `fault` says that a write fails. The test behind the write
-- of `un_authorized` reads the error of the read above, which is nil.
pub dispatch : Bool → Bytes → List Bytes → Bytes → Next
unfolding with_arg
dispatch fault cmd args user =
    if bytes_eq cmd (codes "USER")
    then (if fault
        then stop (write user_ok ∷ []) write_error
        else with_arg args (write user_ok ∷ []) (λ arg. go (write user_ok ∷ []) arg))
    else if bytes_eq cmd (codes "PASS")
    then with_arg args [] (λ arg. go (spawn user arg [] ∷ write un_authorized ∷ []) user)
    else if bytes_eq cmd (codes "QUIT")
    then stop [] quit
    else go (write action_not_taken ∷ []) user

abbrev pub at_end : ReadEnd → Outcome
at_end eof = finish closed_by_client
at_end failed = finish read_error

-- The loop of `HandleConnection`, on fuel; `faults n` says whether a write fails in round n.
pub serve : ℕ → (ℕ → Bool) → ReadEnd → List Bytes → Bytes → Outcome
unfolding dispatch read_command
serve zero faults e input user = finish out_of_fuel
serve (suc f) faults e input user = elim (read_command input) [
  | none ↦ at_end e
  | some (cmd, args, rest) ↦ elim (dispatch (faults 0) cmd args user) [
    | stop acts why ↦ acts ▸ finish why
    | go acts user' ↦ acts ▸ serve f (λ n. faults (suc n)) e rest user'
  ]
]

-- One round for each read, and one for the end. The first argument says whether the greeting fails.
pub handle_connection : Bool → (ℕ → Bool) → ReadEnd → List Bytes → Outcome
unfolding serve
handle_connection greeting_fault faults e input =
    if greeting_fault
    then (write greeting ∷ []) ▸ finish write_error
    else (write greeting ∷ []) ▸ serve (length input + 1) faults e input []

session_test :
    (handle_connection false
      (λ n. false)
      eof
      (codes "USER bob\r\n" ∷ codes "PASS p" ∷ codes "w\r\n" ∷ codes "QUIT\r\n" ∷ [])).acts
    ≡ write greeting
      ∷ write user_ok
      ∷ spawn (codes "bob") (codes "pw") []
      ∷ write un_authorized
      ∷ close
      ∷ []
unfolding handle_connection bytes_eq
session_test = refl
