-- ===== src/Psql/Handler/Session.antt =====
-- A PostgreSQL client that logs in, as cmd/psql/psql.go sees it.
use passwd_pot.Common.{
  ℕ, ◌+◌, ◌^◌, ◌<◌, Bytes, List, [], ◌∷◌, ◌++◌, some, ◌≡◌, ◌≢◌, ◌⊎◌, inl, inr, refl, ap, ◌∙◌, arith,
  length, length-append, take-append-length, split,
}
use passwd_pot.Pot.{Act, write, spawn, Outcome, quit, finish, ◌▸◌}
use passwd_pot.Psql.Handler.{
  recv, Written, written, write_eof, write_failed, Started, started, find_user, auth_request,
  auth_failed, strip_last, Wire, answer_password, ask_password, after_start, handle_client,
}
use passwd_pot.Psql.Handler.Packets.{
  packet, recv-packet, start_message, ssl_requests, ssl_refusals, start_loop-run,
  le-length-ssl_requests,
}
use passwd_pot.Psql.Handler.Params.{NamesUser, find_user-NamesUser}

-- The bytes of a client that asks for SSL `k` times, starts with some parameters, and sends a
-- password and a zero byte, whatever follows.
abbrev pub login : ℕ → ℕ → Bytes → Bytes → Bytes → Bytes
login k version params password rest =
    ssl_requests k (start_message version params ++ (packet b'p' (password ++ 0 ∷ []) ++ rest))

strip_last-append : (s : Bytes) (c : ℕ) → strip_last (s ++ c ∷ []) ≡ some s
unfolding strip_last
strip_last-append [] c = refl
strip_last-append (d ∷ s) c =
    let here : length (s ++ c ∷ []) ≡ length (d ∷ s) = omega (arith, length-append s (c ∷ [])) in
    rw here (ap some (take-append-length (d ∷ s) (c ∷ [])))

answer_password-packet :
    (w : Wire) (params user password rest : Bytes)
    → length password + 5 < 2 ^ 32
    → answer_password w user params (recv (packet b'p' (password ++ 0 ∷ []) ++ rest))
      ≡ (spawn user password params ∷ write (auth_failed w.error_scratch user) ∷ []) ▸ finish quit
unfolding answer_password
answer_password-packet w params user password rest h =
    let fits : length (password ++ 0 ∷ []) + 4 < 2 ^ 32 =
      omega (arith, length-append password (0 ∷ [])) in
    rw (recv-packet b'p' (password ++ 0 ∷ []) rest fits (omega arith) (omega arith))
      (rw (strip_last-append password 0, answer_password))

Written-cases : (r : Written) → r ≢ write_eof → (r ≡ written) ⊎ (r ≡ write_failed)
Written-cases written h = inl refl
Written-cases write_failed h = inr refl
Written-cases write_eof h = absurd (h refl)

ask_password-go :
    (w : Wire) (user params rest : Bytes)
    → w.auth_write ≢ write_eof
    → ask_password w user params rest
      ≡ (write (auth_request w.auth_scratch) ∷ []) ▸ answer_password w user params (recv rest)
unfolding ask_password
ask_password-go w user params rest h = elim (Written-cases w.auth_write h) [
  | inl e ↦ rw (e, ask_password)
  | inr e ↦ rw (e, ask_password)
]

after_start-go :
    (w : Wire) (params user rest : Bytes)
    → find_user (split 0 params) [] ≡ some user
    → after_start w (started params rest) ≡ ask_password w user params rest
unfolding after_start
after_start-go w params user rest h = rw (h, after_start)

-- Behind the requests for SSL and the start message the handler goes on with what follows.
pub handle_client-started :
    (w : Wire) (k version : ℕ) (params behind : Bytes)
    → ((n : ℕ) → w.ssl_writes n ≡ written)
    → length params + 8 < 2 ^ 32
    → version < 2 ^ 32
    → version ≢ 80877103
    → handle_client w (ssl_requests k (start_message version params ++ behind))
      ≡ ssl_refusals k ▸ after_start w (started params behind)
unfolding handle_client
handle_client-started w k version params behind hw hp hv hs =
    let s = start_message version params ++ behind in
    ap (λ (r : List Act × Started). r.0 ▸ after_start w r.1)
      (start_loop-run k (length (ssl_requests k s) + 1) w.ssl_writes version params behind
        (omega (arith, le-length-ssl_requests k s)) hw hp hv hs)

-- With a user among the parameters the password is asked for.
pub after_start-answer :
    (w : Wire) (params user behind : Bytes)
    → w.auth_write ≢ write_eof
    → find_user (split 0 params) [] ≡ some user
    → after_start w (started params behind)
      ≡ (write (auth_request w.auth_scratch) ∷ []) ▸ answer_password w user params (recv behind)
after_start-answer w params user behind ha hu =
    after_start-go w params user behind hu ∙ ask_password-go w user params behind ha

-- A client that logs in is captured: each request for SSL is refused, the password is asked for,
-- captured with the user name that the parameters have under the key "user" and with all of them, and
-- refused by an error message; then the connection is closed. Conditions: the writes succeed (the
-- request for the password may fail but by io.EOF), the lengths fit their fields, the version is not
-- the one that means SSL, and the parameters are pairs of a key and a value, in words with a zero byte
-- behind each and one more at the end, with the key "user" once and with no other word that is "user".
pub handle_client-login :
    (w : Wire) (k version : ℕ) (params user password rest : Bytes)
    → ((n : ℕ) → w.ssl_writes n ≡ written)
    → w.auth_write ≢ write_eof
    → length params + 8 < 2 ^ 32
    → version < 2 ^ 32
    → version ≢ 80877103
    → NamesUser user params
    → length password + 5 < 2 ^ 32
    → handle_client w (login k version params password rest)
      ≡ ssl_refusals k
        ▸ (write (auth_request w.auth_scratch)
            ∷ spawn user password params
            ∷ write (auth_failed w.error_scratch user)
            ∷ [])
        ▸ finish quit
handle_client-login w k version params user password rest hw ha hp hv hs hu hl =
    let behind = packet b'p' (password ++ 0 ∷ []) ++ rest in
    handle_client-started w k version params behind hw hp hv hs
    ∙ ap (λ (o : Outcome). ssl_refusals k ▸ o)
        (after_start-answer w params user behind ha (find_user-NamesUser user params hu)
          ∙ ap (λ (o : Outcome). (write (auth_request w.auth_scratch) ∷ []) ▸ o)
              (answer_password-packet w params user password rest hl))
