-- ===== src/Psql/Handler/Receive.antt =====
-- cmd/psql/psql.go: reading the start message and the messages behind it.
use passwd_pot.Common.{
  ℕ, zero, suc, ◌+◌, ◌-◌, Bytes, true, false, ◌==◌, ltb, leb, if◌then◌else◌, List, [], ◌∷◌, Option,
  none, some, length, take, drop,
}
use passwd_pot.Pot.{Act, write}
use passwd_pot.Psql.Words.{uint32}

-- `io.ReadFull` of `n` bytes: an error where the stream holds fewer.
unfoldable pub read_full : ℕ → Bytes → Option (Bytes × Bytes)
read_full n s = if leb n (length s) then some (take n s, drop n s) else none

-- A message with its type and payload and the rest of the stream; or an error; or a panic.
pub data Received : Type 0 where
  message : ℕ → Bytes → Bytes → Received
  refused : Received
  panic : Received

-- The length field counts its own four bytes. A smaller one makes `n` negative, and
-- `cn.scratch[:n]` panics.
unfoldable pub payload : ℕ → ℕ → Bytes → Received
unfolding read_full
payload t len rest =
    if ltb len 4
    then panic
    else elim (read_full (len - 4) rest) [ none ↦ refused | some (y, rest') ↦ message t y rest' ]

unfoldable pub recv_message : Bytes → Received
unfolding uint32 payload
recv_message [] = refused
recv_message (t ∷ s) = elim (uint32 s) [ none ↦ refused | some (len, rest) ↦ payload t len rest ]

-- The loop of `recv`, on fuel: 'N' is skipped, and 'E' is an error.
unfoldable pub recv_loop : ℕ → Bytes → Received
unfolding recv_message
recv_loop zero s = refused
recv_loop (suc f) s = elim (recv_message s) [
  | refused ↦ refused
  | panic ↦ panic
  | message t y rest ↦
      let again = recv_loop f rest in
      if t == b'E' then refused else if t == b'N' then again else message t y rest
]

-- A message takes five bytes at least.
unfoldable pub recv : Bytes → Received
unfolding recv_loop
recv s = recv_loop (length s + 1) s

-- The result of a write: `write_eof` is `io.EOF`.
pub data Written : Type 0 where
  written write_eof write_failed : Written

-- The parameters of a start message and the rest of the stream; an error; or a panic.
pub data Started : Type 0 where
  started : Bytes → Bytes → Started
  unstarted : Started
  start_panic : Started

-- Puts an 'N' before what a start does.
unfoldable pub answer_ssl : List Act × Started → List Act × Started
answer_ssl (acts, r) = (write (b'N' ∷ []) ∷ acts, r)

-- The length counts itself and the protocol version; with less `make` panics.
unfoldable pub start_params : ℕ → Bytes → Started
unfolding read_full
start_params len rest =
    if ltb len 8
    then start_panic
    else elim (read_full (len - 8) rest) [ none ↦ unstarted | some (y, rest') ↦ started y rest' ]

-- `recvStartMessage`, which calls itself behind each request for SSL, on fuel; `writes n` is the
-- result of the n-th write of an 'N'.
unfoldable pub start_loop : ℕ → (ℕ → Written) → Bytes → List Act × Started
unfolding uint32 start_params answer_ssl
start_loop zero writes s = ([], unstarted)
start_loop (suc f) writes s = elim (uint32 s) [
  | none ↦ ([], unstarted)
  | some (len, rest) ↦ elim (uint32 rest) [
    | none ↦ ([], unstarted)
    | some (version, rest') ↦ elim (version == 80877103) [
      | true ↦ elim (writes 0) [
        | written ↦ answer_ssl (start_loop f (λ n. writes (suc n)) rest')
        | _ ↦ (write (b'N' ∷ []) ∷ [], unstarted)
      ]
      | false ↦ ([], start_params len rest')
    ]
  ]
]

-- A request takes eight bytes.
unfoldable pub recv_start_message : (ℕ → Written) → Bytes → List Act × Started
unfolding start_loop
recv_start_message writes s = start_loop (length s + 1) writes s
