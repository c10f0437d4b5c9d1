-- ===== src/Psql/WriteBuf.antt =====
-- cmd/psql/buf.go: the write buffer. A result `none` is a panic: an index or a slice out of range.
use passwd_pot.Common.{
  ℕ, zero, suc, ◌+◌, ◌-◌, ◌%◌, ◌^◌, Bytes, ℤ, [], ◌∷◌, ◌++◌, Option, none, some, length,
}
use passwd_pot.Psql.Words.{be32, be16, to_uint32, to_uint16}

pub record WriteBuf : Type 0 where
  pub buf : Bytes
  pub pos : ℕ

-- `PutUint32` on the bytes from `at` on.
unfoldable pub put_uint32 : ℕ → ℕ → Bytes → Option Bytes
unfolding be32
put_uint32 zero n (a ∷ b ∷ c ∷ d ∷ rest) = some (be32 n ++ rest)
put_uint32 zero n _ = none
put_uint32 (suc at) n [] = none
put_uint32 (suc at) n (c ∷ buf) = elim (put_uint32 at n buf) [
  | none ↦ none
  | some buf' ↦ some (c ∷ buf')
]

unfoldable pub int32 : WriteBuf → ℤ → WriteBuf
unfolding be32 to_uint32
int32 b n = record b { buf = b.buf ++ be32 (to_uint32 n) }

unfoldable pub int16 : WriteBuf → ℤ → WriteBuf
unfolding be16 to_uint16
int16 b n = record b { buf = b.buf ++ be16 (to_uint16 n) }

unfoldable pub string : WriteBuf → Bytes → WriteBuf
string b s = record b { buf = b.buf ++ (s ++ 0 ∷ []) }

unfoldable pub byte : WriteBuf → ℕ → WriteBuf
byte b c = record b { buf = b.buf ++ c ∷ [] }

unfoldable pub bytes : WriteBuf → Bytes → WriteBuf
bytes b v = record b { buf = b.buf ++ v }

-- The length counts the four bytes that hold it.
unfoldable pub wrap : WriteBuf → Option Bytes
unfolding put_uint32
wrap b = put_uint32 b.pos ((length b.buf - b.pos) % 2 ^ 32) b.buf

unfoldable pub next : WriteBuf → ℕ → Option WriteBuf
unfolding put_uint32
next b c = elim (put_uint32 b.pos ((length b.buf - b.pos) % 2 ^ 32) b.buf) [
  | none ↦ none
  | some buf ↦ some (record { buf = buf ++ c ∷ 0 ∷ 0 ∷ 0 ∷ 0 ∷ []; pos = length b.buf + 1 })
]
