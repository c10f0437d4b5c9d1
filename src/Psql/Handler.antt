-- ===== src/Psql/Handler.antt =====
-- cmd/psql/psql.go: the connection handler of the PostgreSQL pot.
mod Receive
pub mod Packets
pub mod Session
pub mod Panics
pub mod Params
pub mod Loops
pub mod Frames
mod Tests
use passwd_pot.Common.{
  ℕ, zero, suc, ◌+◌, ◌-◌, Bytes, codes, pos, true, false, ◌==◌, ltb, leb, bytes_eq, if◌then◌else◌,
  List, [], ◌∷◌, ◌++◌, Option, none, some, split, cut, join, length, take, drop,
}
use passwd_pot.Api.{Event}
use passwd_pot.Pot.{
  Act, write, spawn, Outcome, read_error, write_error, quit, crashed, finish, ◌▸◌, Surroundings,
  sender_port, resolved_name,
}
use passwd_pot.Psql.Words.{uint32}
use passwd_pot.Psql.WriteBuf
use passwd_pot.Psql.WriteBuf.{WriteBuf}
unfoldable pub use Receive.*

-- The loop of `nullTermToStrings`, on fuel: every round takes a zero byte.
pub null_term : ℕ → Bytes → List Bytes
unfolding cut
null_term zero b = []
null_term (suc f) b = elim (cut 0 b) [ none ↦ [] | some (s, rest) ↦ s ∷ null_term f rest ]

pub null_term_to_strings : Bytes → List Bytes
unfolding null_term
null_term_to_strings b = null_term (length b + 1) b

-- `sendEvent` up to the `Send`; `none` where `remoteAddrPair[1]` panics.
unfoldable pub send_event : Surroundings → Bytes → Bytes → Bytes → List Bytes → Option Event
unfolding sender_port resolved_name null_term_to_strings join
send_event w user password params (host ∷ port ∷ _) = some (record {
  id = 0;
  time = w.now;
  user = user;
  passwd = password;
  remote_addr = host;
  remote_geo_id = 0;
  remote_port = sender_port port;
  remote_name = resolved_name w host;
  remote_version = join (codes "|") (null_term_to_strings params);
  origin_addr = [];
  origin_geo_id = 0;
  application = codes "psql-passwd-pot";
  protocol = codes "psql";
})
send_event w user password params _ = none

-- The loop over the parameters: the one behind "user", or the panic where there is none.
unfoldable pub find_user : List Bytes → Bytes → Option Bytes
find_user [] user = some user
find_user (v ∷ []) user = if bytes_eq v (codes "user") then none else some user
find_user (v ∷ u ∷ vs) user = find_user (u ∷ vs) (if bytes_eq v (codes "user") then u else user)

-- `cn.writeBuf(b)`: the type, and four bytes of the scratch space, as they were left.
pub record Scratch : Type 0 where
  pub s1 : ℕ
  pub s2 : ℕ
  pub s3 : ℕ
  pub s4 : ℕ

pub write_buf : Scratch → ℕ → WriteBuf
write_buf x b = record { buf = b ∷ x.s1 ∷ x.s2 ∷ x.s3 ∷ x.s4 ∷ []; pos = 1 }

abbrev pub to_frame : Option Bytes → Bytes
to_frame none = []
to_frame (some b) = b

-- The bytes that `send` writes for `writeBuf('R')` and `int32(3)`: a request for the password.
pub auth_request : Scratch → Bytes
unfolding write_buf WriteBuf.int32 WriteBuf.wrap
auth_request x = to_frame (WriteBuf.wrap (WriteBuf.int32 (write_buf x b'R') (pos 3)))

abbrev pub strings : WriteBuf → List Bytes → WriteBuf
strings w [] = w
strings w (s ∷ ss) = strings (WriteBuf.string w s) ss

abbrev pub error_fields : Bytes → List Bytes
error_fields user =
    codes "SFATAL"
    ∷ codes "C28P01"
    ∷ (codes "Mpassword authentication failed for user \"" ++ (user ++ codes "\""))
    ∷ codes "Fauth.c"
    ∷ codes "L288"
    ∷ codes "Rauth_failed"
    ∷ []
    ∷ []

-- The bytes of the final error message.
pub auth_failed : Scratch → Bytes → Bytes
unfolding write_buf WriteBuf.string WriteBuf.wrap
auth_failed x user = to_frame (WriteBuf.wrap (strings (write_buf x b'E') (error_fields user)))

-- `string([]byte(*msg)[:len(*msg)-1])`, or the panic where the message is empty.
pub strip_last : Bytes → Option Bytes
strip_last [] = none
strip_last (c ∷ s) = some (take (length s) (c ∷ s))

-- The results of the writes and the scratch space at each of them: what a session cannot choose.
pub record Wire : Type 0 where
  pub ssl_writes : ℕ → Written
  pub auth_write : Written
  pub auth_scratch : Scratch
  pub error_scratch : Scratch

-- Behind the message of the client.
pub answer_password : Wire → Bytes → Bytes → Received → Outcome
unfolding strip_last
answer_password w user params refused = (spawn user [] params ∷ []) ▸ finish read_error
answer_password w user params panic = finish crashed
answer_password w user params (message t msg rest) = elim (strip_last msg) [
  | none ↦ finish crashed
  | some pass ↦
      (spawn user pass params ∷ write (auth_failed w.error_scratch user) ∷ []) ▸ finish quit
]

-- Behind the start message. Only `io.EOF` from the write stops the handler.
pub ask_password : Wire → Bytes → Bytes → Bytes → Outcome
unfolding recv answer_password
ask_password w user params rest = elim (w.auth_write) [
  | write_eof ↦
      (write (auth_request w.auth_scratch) ∷ spawn user [] params ∷ []) ▸ finish write_error
  | _ ↦ (write (auth_request w.auth_scratch) ∷ []) ▸ answer_password w user params (recv rest)
]

pub after_start : Wire → Started → Outcome
unfolding find_user ask_password split
after_start w unstarted = finish read_error
after_start w start_panic = finish crashed
after_start w (started params rest) = elim (find_user (split 0 params) []) [
  | none ↦ finish crashed
  | some user ↦ ask_password w user params rest
]

pub handle_client : Wire → Bytes → Outcome
unfolding recv_start_message after_start
handle_client w input =
    let (acts, start) = recv_start_message w.ssl_writes input in acts ▸ after_start w start
