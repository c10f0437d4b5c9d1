-- ===== src/Capture/Tests.antt =====
-- Two guesses over POP3, of which the second one reaches the relay first. Events are encoded as the
-- length of the user, the user and the password.
use passwd_pot.Common.{
  false, map, ap, Bytes, codes, length, take, drop, take-append-length, drop-append-length, List,
  [], ◌∷◌, ◌++◌, Option, none, some, ◌≡◌, refl, pos, arith,
}
use mathlib.Core.List.{cons-ne-nil}
use passwd_pot.Api.{Event}
use passwd_pot.Pot.{
  render_command, Outcome, Act, write, spawn, close, Surroundings, Command, user, pass, eof,
}
use passwd_pot.Pot.Pop
use passwd_pot.Pot.Ftp
use passwd_pot.Pot.Ftp.Script as FtpScript
use passwd_pot.Pot.Pop.Script
use passwd_pot.Proxy.{serve_http}
use passwd_pot.Proxy.Fifo.{fifo}
use passwd_pot.Capture.{Codec, State, state, Steps, here, and_then, writes, closes, spawns, posts}
use passwd_pot.Capture.Guesses.{ftp_sender, ftp_tried, pop_sender, SendsTried, pop_tried}

abbrev pub login : Bytes → Bytes → Event
login name password = record {
  id = 0;
  time = pos 0;
  user = name;
  passwd = password;
  remote_addr = [];
  remote_geo_id = 0;
  remote_port = pos 0;
  remote_name = [];
  remote_version = [];
  origin_addr = [];
  origin_geo_id = 0;
  application = [];
  protocol = [];
}

abbrev pub decode : Bytes → Option Event
decode [] = none
decode (n ∷ v) = some (login (take n v) (drop n v))

pub decode-encode : (u p : Bytes) → decode (length u ∷ (u ++ p)) ≡ some (login u p)
decode-encode u p = rw (take-append-length u p, drop-append-length u p) refl

abbrev pub lengths : Codec
lengths = record {
  encode = λ e. length e.user ∷ (e.user ++ e.passwd);
  decode = decode;
  IsText = λ _. Unit;
  decode-encode = λ e _ _. (login e.user e.passwd, decode-encode e.user e.passwd, refl);
}

abbrev pub noon : Surroundings
noon = record { now = pos 1500000000; lookup_addr = λ _. none }

abbrev pub client : List Command
client = user (codes "root") ∷ pass (codes "a") ∷ pass (codes "b") ∷ []

abbrev session : List Act
session =
    write Pop.hello_msg
    ∷ write Pop.ok_msg
    ∷ spawn (codes "root") (codes "a") []
    ∷ write Pop.un_auth_msg
    ∷ spawn (codes "root") (codes "b") []
    ∷ write Pop.un_auth_msg
    ∷ close
    ∷ []

abbrev pub relayed : List Bytes
relayed = (4 ∷ codes "rootb") ∷ (4 ∷ codes "roota") ∷ []

abbrev at_home :
    List Act
    → List Event
    → List Bytes
    → State fifo lengths (pop_sender (codes "10.0.0.1") (codes "9"))
at_home acts es q = state fifo lengths (pop_sender (codes "10.0.0.1") (codes "9")) acts es q

session_run :
    Steps fifo lengths
      (pop_sender (codes "10.0.0.1") (codes "9"))
      9
      (at_home session [] [])
      (at_home [] [] relayed)
unfolding serve_http Pop.send_event
session_run =
    let first_guess =
      and_then
        (and_then (and_then (and_then here (writes _)) (writes _))
          (spawns noon (codes "root") (codes "a") [] _ refl))
        (writes _) in
    let second_guess =
      and_then
        (and_then (and_then first_guess (spawns noon (codes "root") (codes "b") [] _ refl))
          (writes _))
        closes in
    and_then (and_then second_guess (posts (_ ∷ []) [] _)) (posts [] [] _)

pop_session : (Pop.handle_connection eof (Script.render client)).acts ≡ session
pop_session =
    ap (λ (o : Outcome). o.acts)
      (Script.handle_connection-render eof client
        (ground arith, (ground arith, (ground arith, tt))))

tried_example : SendsTried fifo lengths relayed client
tried_example =
    pop_tried fifo lengths (codes "10.0.0.1") (codes "9") [] relayed 9 (λ v r. refl) refl
      (ground arith) client (ground arith, (ground arith, (ground arith, tt)))
      ((tt, tt), ((tt, tt), tt)) (λ h. cons-ne-nil _ _ h) eof (rw pop_session session_run)

abbrev short_client : List Command
short_client = user (codes "root") ∷ pass (codes "a") ∷ []

abbrev ftp_session : List Act
ftp_session =
    write Ftp.greeting
    ∷ write Ftp.user_ok
    ∷ spawn (codes "root") (codes "a") []
    ∷ write Ftp.un_authorized
    ∷ close
    ∷ []

ftp_run :
    Steps fifo lengths
      (ftp_sender (codes "10.0.0.1") (codes "9"))
      6
      (state fifo lengths (ftp_sender (codes "10.0.0.1") (codes "9")) ftp_session [] [])
      (state fifo lengths
        (ftp_sender (codes "10.0.0.1") (codes "9"))
        []
        []
        ((4 ∷ codes "roota") ∷ []))
unfolding serve_http Ftp.send_event
ftp_run =
    let guessed =
      and_then (and_then (and_then here (writes _)) (writes _))
        (spawns noon (codes "root") (codes "a") [] _ refl) in
    and_then (and_then (and_then guessed (posts [] [] _)) (writes _)) closes

ftp_acts :
    (Ftp.handle_connection false FtpScript.never eof (map render_command short_client)).acts
    ≡ ftp_session
ftp_acts =
    ap (λ (o : Outcome). o.acts)
      (FtpScript.handle_connection-render_command eof short_client
        (ground arith, (ground arith, tt)))

ftp_tried_example : SendsTried fifo lengths ((4 ∷ codes "roota") ∷ []) short_client
ftp_tried_example =
    ftp_tried fifo lengths (codes "10.0.0.1") (codes "9") [] ((4 ∷ codes "roota") ∷ []) 6
      (λ v r. refl) refl (ground arith) short_client (ground arith, (ground arith, tt))
      ((tt, tt), tt) (λ h. cons-ne-nil _ _ h) eof (rw ftp_acts ftp_run)
