-- ===== src/Psql/Handler/Packets.antt =====
-- The messages of a PostgreSQL client, as cmd/psql/psql.go reads them.
use passwd_pot.Common.{
  ℕ, zero, suc, ◌+◌, ◌-◌, ◌^◌, ◌<◌, ◌≤◌, Bytes, false, ltb, List, [], ◌∷◌, ◌++◌, some, ◌≡◌, ◌≢◌,
  refl, ap, ◌∙◌, arith, length, length-append, take-append-length, drop-append-length, append_assoc,
}
use native.Mathlib.Numerals.{add-one}
use passwd_pot.Pot.{Act, write}
use passwd_pot.Psql.Words.{be32}
use passwd_pot.Psql.RoundTrip.{uint32-be32}
use passwd_pot.Psql.Handler.{
  read_full, message, payload, recv_message, recv_loop, recv, Written, written, Started, started,
  answer_ssl, start_loop,
}

pub read_full-append : (xs ys : Bytes) → read_full (length xs) (xs ++ ys) ≡ some (xs, ys)
unfolding read_full
read_full-append xs ys =
    ground (arith, length-append xs ys, take-append-length xs ys, drop-append-length xs ys)

-- A length field that counts a payload is read as its length.
pub read_full-sub :
    (k len : ℕ) (xs ys : Bytes)
    → len ≡ length xs + k
    → (ltb len k ≡ false) × (read_full (len - k) (xs ++ ys) ≡ some (xs, ys))
read_full-sub k len xs ys e =
    let less : len - k ≡ length xs = omega arith in (ground arith, rw less (read_full-append xs ys))

-- A message of the protocol: its type, its length and its payload.
abbrev pub packet : ℕ → Bytes → Bytes
packet t body = t ∷ (be32 (length body + 4) ++ body)

pub recv_message-packet :
    (t : ℕ) (body rest : Bytes)
    → length body + 4 < 2 ^ 32
    → recv_message (packet t body ++ rest) ≡ message t body rest
unfolding recv_message
recv_message-packet t body rest h =
    let (enough, whole) = read_full-sub 4 (length body + 4) body rest refl in
    rw (append_assoc, uint32-be32 (length body + 4) (body ++ rest) h, recv_message)
      (unfold payload in rw (enough, whole, payload))

pub recv_loop-message :
    (f : ℕ) (s : Bytes) (t : ℕ) (body rest : Bytes)
    → recv_message s ≡ message t body rest
    → t ≢ b'E'
    → t ≢ b'N'
    → recv_loop (suc f) s ≡ message t body rest
unfolding recv_loop
recv_loop-message f s t body rest h not_e not_n = rw (h, recv_loop) (ground arith)

pub recv-packet :
    (t : ℕ) (body rest : Bytes)
    → length body + 4 < 2 ^ 32
    → t ≢ b'E'
    → t ≢ b'N'
    → recv (packet t body ++ rest) ≡ message t body rest
unfolding recv
recv-packet t body rest h not_e not_n = rw add-one (
    recv_loop-message (length (packet t body ++ rest)) (packet t body ++ rest) t body rest
      (recv_message-packet t body rest h) not_e not_n)

-- A request for SSL, and a start message of another protocol version.
abbrev pub ssl_request : Bytes
ssl_request = be32 8 ++ be32 80877103

abbrev pub start_message : ℕ → Bytes → Bytes
start_message version params = be32 (length params + 8) ++ (be32 version ++ params)

abbrev pub ssl_requests : ℕ → Bytes → Bytes
ssl_requests zero s = s
ssl_requests (suc k) s = ssl_request ++ ssl_requests k s

abbrev pub ssl_refusals : ℕ → List Act
ssl_refusals zero = []
ssl_refusals (suc k) = write (b'N' ∷ []) ∷ ssl_refusals k

pub start_loop-start :
    (f : ℕ) (writes : ℕ → Written) (version : ℕ) (params rest : Bytes)
    → length params + 8 < 2 ^ 32
    → version < 2 ^ 32
    → version ≢ 80877103
    → start_loop (suc f) writes (start_message version params ++ rest) ≡ ([], started params rest)
unfolding start_loop
start_loop-start f writes version params rest h hv hs =
    let (enough, whole) = read_full-sub 8 (length params + 8) params rest refl in
    rw
      (
        append_assoc,
        append_assoc,
        uint32-be32 (length params + 8) _ h,
        uint32-be32 version (params ++ rest) hv,
        start_loop,
      )
      (ground arith)

pub start_loop-ssl :
    (f : ℕ) (writes : ℕ → Written) (s : Bytes)
    → writes 0 ≡ written
    → start_loop (suc f) writes (ssl_request ++ s)
      ≡ answer_ssl (start_loop f (λ n. writes (suc n)) s)
unfolding start_loop
start_loop-ssl f writes s h =
    rw
      (
        append_assoc,
        uint32-be32 8 _ (omega arith),
        uint32-be32 80877103 s (omega arith),
        start_loop,
      )
      (rw h)

pub start_loop-run :
    (k f : ℕ) (writes : ℕ → Written) (version : ℕ) (params rest : Bytes)
    → k < f
    → ((n : ℕ) → writes n ≡ written)
    → length params + 8 < 2 ^ 32
    → version < 2 ^ 32
    → version ≢ 80877103
    → start_loop f writes (ssl_requests k (start_message version params ++ rest))
      ≡ (ssl_refusals k, started params rest)
unfolding answer_ssl
start_loop-run k zero writes version params rest lt hw h hv hs = absurd (omega arith)
start_loop-run zero (suc f) writes version params rest lt hw h hv hs =
    start_loop-start f writes version params rest h hv hs
start_loop-run (suc k) (suc f) writes version params rest lt hw h hv hs =
    start_loop-ssl f writes (ssl_requests k (start_message version params ++ rest)) (hw 0)
    ∙ ap (λ (r : List Act × Started). answer_ssl r)
        (start_loop-run k f (λ n. writes (suc n)) version params rest (omega arith)
          (λ n. hw (suc n)) h hv hs)

pub le-length-ssl_requests : (k : ℕ) (s : Bytes) → k ≤ length (ssl_requests k s)
unfolding be32
le-length-ssl_requests zero s = omega arith
le-length-ssl_requests (suc k) s = omega (arith, le-length-ssl_requests k s)
