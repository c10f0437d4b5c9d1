-- ===== src/Psql/Handler/Frames.antt =====
-- The messages that cmd/psql/psql.go sends.
use passwd_pot.Common.{
  append-nil, append_assoc, ◌-◌, ◌%◌, ℕ, ◌+◌, ◌^◌, ◌<◌, Bytes, List, [], ◌∷◌, ◌++◌, some, ◌≡◌, refl,
  ap, ◌∙◌, arith, length,
}
use passwd_pot.Psql.Words.{be32}
use passwd_pot.Psql.WriteBuf
use passwd_pot.Psql.WriteBuf.{WriteBuf}
use passwd_pot.Psql.Handler.{
  Scratch, strings, to_frame, write_buf, auth_request, auth_failed, error_fields, recv_message,
  message,
}
use passwd_pot.Psql.Handler.Packets.{packet, recv_message-packet}
use passwd_pot.Psql.Handler.Params.{terminated}

strings-terminated :
    (w : WriteBuf) (ss : List Bytes) → strings w ss ≡ record w { buf = w.buf ++ terminated ss }
unfolding WriteBuf.string
strings-terminated w [] = rw append-nil
strings-terminated w (s ∷ ss) =
    strings-terminated (WriteBuf.string w s) ss
    ∙ ap (λ (b : Bytes). record w { buf = b }) (simp append_assoc)

-- The length that is put in counts itself and the body, and covers what the scratch space held.
wrap-packet :
    (t a b c d : ℕ) (body : Bytes)
    → length body + 4 < 2 ^ 32
    → WriteBuf.wrap (record { buf = t ∷ a ∷ b ∷ c ∷ d ∷ body; pos = 1 }) ≡ some (packet t body)
unfolding WriteBuf.wrap
wrap-packet t a b c d body h =
    let len : (length (t ∷ a ∷ b ∷ c ∷ d ∷ body) - 1) % 2 ^ 32 ≡ length body + 4 = omega arith in
    rw len

auth_request-packet : (x : Scratch) → auth_request x ≡ packet b'R' (be32 3)
unfolding auth_request be32
auth_request-packet x = refl

auth_failed-packet :
    (x : Scratch) (user : Bytes)
    → length (terminated (error_fields user)) + 4 < 2 ^ 32
    → auth_failed x user ≡ packet b'E' (terminated (error_fields user))
unfolding auth_failed
auth_failed-packet x user h = ap to_frame (
    ap WriteBuf.wrap (strings-terminated (write_buf x b'E') (error_fields user))
    ∙ wrap-packet b'E' x.s1 x.s2 x.s3 x.s4 (terminated (error_fields user)) h)

length-be32 : (n : ℕ) → length (be32 n) ≡ 4
unfolding be32
length-be32 n = refl

-- Whatever the scratch space holds, the two messages of the pot are whole packets of the protocol:
-- a reader of such packets gets the type 'R' with the number 3 for the request, and the type 'E'
-- with the zero-terminated error fields for the refusal, and nothing of what follows. The fields
-- fit their length.
pub messages-packet :
    (x : Scratch) (user rest : Bytes)
    → length (terminated (error_fields user)) + 4 < 2 ^ 32
    → (recv_message (auth_request x ++ rest) ≡ message b'R' (be32 3) rest)
      × (recv_message (auth_failed x user ++ rest)
          ≡ message b'E' (terminated (error_fields user)) rest)
messages-packet x user rest h = (
  rw (auth_request-packet x)
      (recv_message-packet b'R' (be32 3) rest (omega (arith, length-be32 3))),
  rw (auth_failed-packet x user h)
      (recv_message-packet b'E' (terminated (error_fields user)) rest h),
)
