-- ===== src/Pot/Pop.antt =====
-- cmd/pop/pop.go: the POP3 pot.
pub mod Steps
pub mod Script
pub mod Dialogue
mod Tests
use passwd_pot.Common.{
  ℕ, zero, suc, ◌+◌, Bytes, codes, ℤ, pos, Bool, true, false, bytes_eq, length, get_elem?,
  if◌then◌else◌, List, [], ◌∷◌, ◌++◌, Option, none, some, split, split, ◌≡◌, refl,
}
use passwd_pot.Api.{Event}
use passwd_pot.Pot.{
  Act, write, spawn, close, ReadEnd, eof, failed, Outcome, End, closed_by_client, read_error, quit,
  crashed, out_of_fuel, finish, ◌▸◌, Surroundings, sender_port, resolved_name, words, read_string,
}

abbrev pub hello_msg : Bytes
hello_msg = codes "+OK POP3 server\r\n"

abbrev pub ok_msg : Bytes
ok_msg = codes "+OK\r\n"

abbrev pub un_auth_msg : Bytes
un_auth_msg = codes "-ERR Password incorrect\r\n"

-- `p.sendEvent` up to the `Send`: the event that it builds, or `none` where the address holds no
-- colon and `remoteAddrPair[1]` panics.
unfoldable pub send_event : Surroundings → Bytes → Bytes → List Bytes → Option Event
unfolding sender_port resolved_name
send_event w user password (host ∷ port ∷ _) = some (record {
  id = 0;
  time = w.now;
  user = user;
  passwd = password;
  remote_addr = host;
  remote_geo_id = 0;
  remote_port = sender_port port;
  remote_name = resolved_name w host;
  remote_version = [];
  origin_addr = [];
  origin_geo_id = 0;
  application = codes "pop-passwd-pot";
  protocol = codes "pop";
})
send_event w user password _ = none

pub get_command : Bytes → Bytes × List Bytes
unfolding words
get_command line = elim (words line) [ [] ↦ ([], []) | cmd ∷ args ↦ (cmd, args) ]

-- The second result, the error, is always nil.
pub get_safe_arg : List Bytes → ℕ → Bytes
get_safe_arg args nr = elim (get_elem? args nr) [ none ↦ [] | some arg ↦ arg ]

-- What one command does: its actions, and the user and the password that are kept, or the return.
pub data Next : Type 0 where
  go : List Act → Bytes → Bytes → Next
  stop : Next

pub dispatch : Bytes → List Bytes → Bytes → Bytes → Next
unfolding get_safe_arg
dispatch cmd args user password =
    if bytes_eq cmd (codes "USER")
    then go (write ok_msg ∷ []) (get_safe_arg args 0) password
    else if bytes_eq cmd (codes "PASS")
    then go (spawn user (get_safe_arg args 0) [] ∷ write un_auth_msg ∷ []) user
        (get_safe_arg args 0)
    else if bytes_eq cmd (codes "QUIT")
    then stop
    else go [] user password

-- The body of the loop behind the read.
pub handle_line : Bytes → Bytes → Bytes → Next
unfolding get_command dispatch
handle_line raw_line user password =
    let (cmd, args) = get_command raw_line in dispatch cmd args user password

abbrev pub at_end : ReadEnd → Outcome
at_end eof = finish closed_by_client
at_end failed = finish read_error

-- The loop of `HandleConnection`, on fuel: every round reads a line. The pot ignores the result of
-- each write.
pub serve : ℕ → ReadEnd → Bytes → Bytes → Bytes → Outcome
unfolding handle_line read_string
serve zero e input user password = finish out_of_fuel
serve (suc f) e input user password = elim (read_string input) [
  | none ↦ at_end e
  | some (raw_line, rest) ↦ elim (handle_line raw_line user password) [
    | stop ↦ finish quit
    | go acts user' password' ↦ acts ▸ serve f e rest user' password'
  ]
]

-- One round for each byte of the input, and one for its end.
pub handle_connection : ReadEnd → Bytes → Outcome
unfolding serve
handle_connection e input = (write hello_msg ∷ []) ▸ serve (length input + 1) e input [] []

session_test :
    (handle_connection eof (codes "USER bob\r\nPASS pw\r\nQUIT\r\n")).acts
    ≡ write hello_msg
      ∷ write ok_msg
      ∷ spawn (codes "bob") (codes "pw") []
      ∷ write un_auth_msg
      ∷ close
      ∷ []
unfolding handle_connection bytes_eq
session_test = refl
