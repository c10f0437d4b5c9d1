-- ===== src/Psql/Handler/Panics.antt =====
-- Malformed messages to cmd/psql/psql.go; nothing recovers from a panic of the handler's goroutine.
use passwd_pot.Common.{
  ℕ, ◌+◌, ◌^◌, ◌<◌, Bytes, codes, List, [], ◌∷◌, ◌++◌, none, some, ◌≡◌, ◌≢◌, refl, ap, ◌∙◌, arith,
  length, split, bytes_eq,
}
use native.Mathlib.Numerals.{add-one}
use passwd_pot.Pot.{Outcome, crashed, ◌▸◌}
use passwd_pot.Psql.Words.{be32}
use passwd_pot.Psql.RoundTrip.{uint32-be32}
use passwd_pot.Psql.Handler.{
  Received, panic, recv_message, recv_loop, recv, written, write_eof, started, start_loop,
  find_user, Wire, answer_password, after_start, handle_client,
}
use passwd_pot.Psql.Handler.Packets.{ssl_requests, start_message, ssl_refusals}
use passwd_pot.Psql.Handler.Session.{handle_client-started, after_start-answer}

-- A length field below four, which counts itself, makes the slice bound negative.
recv_short : (t len : ℕ) (rest : Bytes) → len < 4 → recv (t ∷ (be32 len ++ rest)) ≡ panic
unfolding recv
recv_short t len rest h =
    rw (add-one, uint32-be32 len rest (omega arith), recv_loop, recv_message) (ground arith)

-- A start message whose length field is below eight crashes the pot, whatever follows, if its
-- version is not the one that means SSL.
pub handle_client_short_start :
    (w : Wire) (len version : ℕ) (rest : Bytes)
    → len < 8
    → version < 2 ^ 32
    → version ≢ 80877103
    → (handle_client w (be32 len ++ (be32 version ++ rest))).why ≡ crashed
unfolding handle_client
handle_client_short_start w len version rest h hv hs =
    rw
      (
        add-one,
        uint32-be32 len (be32 version ++ rest) (omega arith),
        uint32-be32 version rest hv,
        start_loop,
      )
      (ground arith)

answer_password-panic :
    (w : Wire) (user params : Bytes) (r : Received)
    → r ≡ panic
    → (answer_password w user params r).why ≡ crashed
unfolding answer_password
answer_password-panic w user params r h = rw h

-- A message whose length field is below four crashes it too, behind any start that names a user.
pub handle_client_short_message :
    (w : Wire) (k version : ℕ) (params user : Bytes) (t len : ℕ) (rest : Bytes)
    → ((n : ℕ) → w.ssl_writes n ≡ written)
    → w.auth_write ≢ write_eof
    → length params + 8 < 2 ^ 32
    → version < 2 ^ 32
    → version ≢ 80877103
    → find_user (split 0 params) [] ≡ some user
    → len < 4
    → (handle_client w
        (ssl_requests k (start_message version params ++ t ∷ (be32 len ++ rest)))).why
      ≡ crashed
handle_client_short_message w k version params user t len rest hw ha hp hv hs hu h =
    ap (λ (o : Outcome). o.why)
      (handle_client-started w k version params (t ∷ (be32 len ++ rest)) hw hp hv hs
        ∙ ap (λ (o : Outcome). ssl_refusals k ▸ o)
            (after_start-answer w params user (t ∷ (be32 len ++ rest)) ha hu))
    ∙ answer_password-panic w user params (recv (t ∷ (be32 len ++ rest))) (recv_short t len rest h)

after_start-panic :
    (w : Wire) (params behind : Bytes)
    → find_user (split 0 params) [] ≡ none
    → (after_start w (started params behind)).why ≡ crashed
unfolding after_start
after_start-panic w params behind h = rw (h, after_start)

find_user_last : (vs : List Bytes) (user : Bytes) → find_user (vs ++ codes "user" ∷ []) user ≡ none
unfolding find_user bytes_eq
find_user_last [] user = refl
find_user_last (v ∷ []) user = ground arith
find_user_last (v ∷ u ∷ vs) user = find_user_last (u ∷ vs) _

-- A start message whose last word is "user", with no word behind it, crashes the pot, behind any
-- number of requests for SSL. The writes of the refusals succeed, the length fits its field, and
-- the version is not the one that means SSL.
pub handle_client_user_last :
    (w : Wire) (k version : ℕ) (params behind : Bytes) (vs : List Bytes)
    → ((n : ℕ) → w.ssl_writes n ≡ written)
    → length params + 8 < 2 ^ 32
    → version < 2 ^ 32
    → version ≢ 80877103
    → split 0 params ≡ vs ++ codes "user" ∷ []
    → (handle_client w (ssl_requests k (start_message version params ++ behind))).why ≡ crashed
handle_client_user_last w k version params behind vs hw hp hv hs h =
    ap (λ (o : Outcome). o.why) (handle_client-started w k version params behind hw hp hv hs)
    ∙ after_start-panic w params behind (rw h (find_user_last vs []))
