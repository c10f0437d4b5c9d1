-- ===== src/Capture/Login.antt =====
-- From the login of a client of cmd/psql/psql.go to the batch of the relay.
use mathlib.Core.List.{Perm, cons-ne-nil}
use passwd_pot.Common.{
  ℕ, suc, zero, ◌+◌, ◌<◌, ◌^◌, Bytes, List, [], ◌∷◌, ◌++◌, map, some, true, ◌≡◌, ◌≢◌, refl, ap, ◌∙◌,
  length,
}
use passwd_pot.Api.{Event}
use passwd_pot.Pot.{Surroundings, Act, Outcome}
use passwd_pot.Psql.Handler.{Wire, written, write_eof, find_user, handle_client}
use passwd_pot.Psql.Handler
use passwd_pot.Psql.Handler.Packets.{ssl_refusals}
use passwd_pot.Psql.Handler.Params.{NamesUser}
use passwd_pot.Psql.Handler.Session.{login, handle_client-login}
use passwd_pot.Proxy.{Queue, drain, max_batch_size}
use passwd_pot.Proxy.Batch.{total}
use passwd_pot.Capture.{Codec, Sender, state, Steps, guess}
use passwd_pot.Capture.Delivered.{captured, drain-captured}

pub guess-psql_event :
    (host port : Bytes) (w : Surroundings) (who password params : Bytes) (e : Event)
    → Handler.send_event w who password params (host ∷ port ∷ []) ≡ some e
    → guess e ≡ (who, password)
unfolding Handler.send_event
guess-psql_event host port w who password params e h = cc

abbrev pub psql_sender : Bytes → Bytes → Sender
psql_sender host port = record {
  report = λ w who password params. Handler.send_event w who password params (host ∷ port ∷ []);
  guess-report = λ w who password params e h. guess-psql_event host port w who password params e h;
}

captured-ssl_refusals :
    (k : ℕ) (acts : List Act) → captured (ssl_refusals k ++ acts) ≡ captured acts
captured-ssl_refusals zero acts = refl
captured-ssl_refusals (suc k) acts = captured-ssl_refusals k acts

-- What the relay sends of a queue: one login.
abbrev pub SendsLogin : (queue : Queue) (codec : Codec) → queue.Store → Bytes × Bytes → Type 0
SendsLogin queue codec q attempt =
    (es : List Event) × ((drain queue codec.decode q).0 ≡ some es)
    × Perm (map guess es) (attempt ∷ [])
    × (queue.items (drain queue codec.decode q).1 ≡ [])

-- From a PostgreSQL login to the batch: the pot refuses the requests for SSL, asks for the password
-- and captures it; the address has a port; the queue of the relay was empty and takes every item,
-- which is shorter than the batch bound. Once the connection is over and its goroutine has posted,
-- the next drain of the relay sends one event, of the user name that the parameters have under the
-- key "user" and of the password. Conditions on the login: the writes succeed (the request for the password may fail but
-- by io.EOF), the lengths fit their fields, the version is not the one that means SSL, the parameters
-- are pairs of a key and a value, in words with a zero byte behind each and one more at the end, with
-- the key "user" once and with no other word that is "user", and JSON can carry the user and the
-- password.
pub handle_client-SendsLogin :
    (queue : Queue) (codec : Codec) (host port : Bytes) (q q' : queue.Store) (n : ℕ) (w : Wire)
    (k version : ℕ) (params user password rest : Bytes)
    → ((v : Bytes) (r : queue.Store) → (queue.enqueue v r).0 ≡ true)
    → queue.items q ≡ []
    → total (queue.items q') < max_batch_size
    → codec.IsText user
    → codec.IsText password
    → ((i : ℕ) → w.ssl_writes i ≡ written)
    → w.auth_write ≢ write_eof
    → length params + 8 < 2 ^ 32
    → version < 2 ^ 32
    → version ≢ 80877103
    → NamesUser user params
    → length password + 5 < 2 ^ 32
    → Steps queue codec
        (psql_sender host port)
        n
        (state queue codec
          (psql_sender host port)
          (handle_client w (login k version params password rest)).acts
          []
          q)
        (state queue codec (psql_sender host port) [] [] q')
    → SendsLogin queue codec q' (user, password)
handle_client-SendsLogin queue codec host port q q' n w k version params user password rest takes
      empty fits tu tp hw ha hp hv hs hu hl run =
    let acts = (handle_client w (login k version params password rest)).acts in
    let same : captured acts ≡ (user, password) ∷ [] =
      ap (λ (o : Outcome). captured o.acts)
        (handle_client-login w k version params user password rest hw ha hp hv hs hu hl)
      ∙ captured-ssl_refusals k _ in
    let result =
      drain-captured queue codec (psql_sender host port) acts q q' n takes empty
        (rw same ((tu, tp), tt)) (rw same (λ h. cons-ne-nil _ _ h)) run fits in
    rw same at result
