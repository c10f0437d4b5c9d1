-- ===== src/Pot/Http.antt =====
-- cmd/http/http.go: the HTTP pot, which asks for basic authentication.
pub mod Basic
mod Tests
use passwd_pot.Common.{
  ℕ, Bytes, codes, bytes_eq, split, split_2, if◌then◌else◌, List, [], ◌∷◌, Option, none, some,
}
use passwd_pot.Api.{Event}
use passwd_pot.Pot.{Surroundings, sender_port, resolved_name}

abbrev pub un_authorieds : Bytes
un_authorieds = codes "401 Unauthorized\n"

-- What the handler reads of a request; a header that is not there is empty.
pub record Request : Type 0 where
  pub remote_addr : Bytes
  pub user_agent : Bytes
  pub authorization : Bytes
  pub forwarded_for : Bytes

-- `e.RemoteAddr` behind the test of the header "X-Forwarded-For".
abbrev pub sender_addr : Bytes → Bytes → Bytes
sender_addr host forwarded_for = if bytes_eq forwarded_for [] then host else forwarded_for

-- `sendEvent` up to the `Send`, at the parts of the remote address; `none` where there is no second
-- part and `remoteAddrPair[1]` panics.
unfoldable pub send_event : Surroundings → Bytes → Bytes → Request → List Bytes → Option Event
unfolding sender_port resolved_name
send_event w user password r (host ∷ port ∷ _) = some (record {
  id = 0;
  time = w.now;
  user = user;
  passwd = password;
  remote_addr = sender_addr host r.forwarded_for;
  remote_geo_id = 0;
  remote_port = sender_port port;
  remote_name = resolved_name w (sender_addr host r.forwarded_for);
  remote_version = r.user_agent;
  origin_addr = [];
  origin_geo_id = 0;
  application = codes "http-passwd-pot";
  protocol = codes "http-basic-auth";
})
send_event w user password r _ = none

-- The user and the password in the decoded credentials.
unfoldable pub credentials : Bytes → Option (Bytes × Bytes)
unfolding split_2
credentials b = elim (split_2 58 b) [ user ∷ password ∷ [] ↦ some (user, password) | _ ↦ none ]

-- `processAuth`: what is sent as an event; `decode` is `base64.StdEncoding.DecodeString`.
unfoldable pub process_auth : (Bytes → Option Bytes) → Bytes → Option (Bytes × Bytes)
unfolding split_2 credentials
process_auth decode authorization = elim (split_2 32 authorization) [
  | scheme ∷ encoded ∷ [] ↦ elim (decode encoded) [ none ↦ none | some b ↦ credentials b ]
  | _ ↦ none
]

pub record Response : Type 0 where
  pub status : ℕ
  pub www_authenticate : Bytes
  pub body : Bytes

abbrev pub refusal : Response
refusal = record {
  status = 401;
  www_authenticate = codes "Basic realm=\"default\"";
  body = un_authorieds;
}

-- `handleRequest`: the event's user and password, if one is sent, and the response.
unfoldable pub handle_request : (Bytes → Option Bytes) → Request → Option (Bytes × Bytes) × Response
unfolding process_auth
handle_request decode r = (process_auth decode r.authorization, refusal)
