-- ===== src/Psql/RoundTrip.antt =====
-- cmd/psql/buf.go: values that are written and then read.
use passwd_pot.Common.{
  ℕ, ◌^◌, ◌<◌, Bytes, ℤ, pos, negsuc, [], ◌∷◌, ◌++◌, some, ◌≡◌, refl, arith, length, Lacks, drop,
  drop-append-length, append_assoc,
}
use passwd_pot.Common.Strings.Laws.{cut-append}
use passwd_pot.Psql.Words.{be32, be16, uint32, uint16, to_int32, to_uint32}
use native.Mathlib.Nat.{mod-eq_of_lt}
use passwd_pot.Psql.ReadBuf
use passwd_pot.Psql.WriteBuf
use passwd_pot.Psql.WriteBuf.{WriteBuf, put_uint32}

pub uint32-be32 : (n : ℕ) (rest : Bytes) → n < 2 ^ 32 → uint32 (be32 n ++ rest) ≡ some (n, rest)
unfolding uint32 be32
uint32-be32 n rest h = ground arith

uint16-be16 : (n : ℕ) (rest : Bytes) → n < 2 ^ 16 → uint16 (be16 n ++ rest) ≡ some (n, rest)
unfolding uint16 be16
uint16-be16 n rest h = ground arith

-- The integers that fit an `int32`.
abbrev pub FitsInt32 : ℤ → Type 0
FitsInt32 (pos n) = n < 2 ^ 31
FitsInt32 (negsuc n) = n < 2 ^ 31

to_int32-to_uint32 : (n : ℤ) → FitsInt32 n → (to_int32 (to_uint32 n) ≡ n) × (to_uint32 n < 2 ^ 32)
unfolding to_int32 to_uint32
to_int32-to_uint32 (pos n) h = ground arith
to_int32-to_uint32 (negsuc n) h = ground arith

int32-be32 :
    (n : ℤ) (rest : Bytes)
    → FitsInt32 n
    → ReadBuf.int32 (be32 (to_uint32 n) ++ rest) ≡ some (n, rest)
unfolding ReadBuf.int32
int32-be32 n rest h =
    let (same, small) = to_int32-to_uint32 n h in
    rw (uint32-be32 (to_uint32 n) rest small, ReadBuf.int32) (rw same)

-- Each value that is appended to a buffer is read back from the bytes that it added, with nothing
-- of what follows: an integer in the range of an `int32`, one in the range of a `uint16`, and text
-- with no zero byte.
pub reads_back :
    (b : WriteBuf) (n : ℤ) (m : ℕ) (s rest : Bytes)
    → FitsInt32 n
    → m < 2 ^ 16
    → Lacks 0 s
    → (ReadBuf.int32 (drop (length b.buf) (WriteBuf.int32 b n).buf ++ rest) ≡ some (n, rest))
      × (ReadBuf.int16 (drop (length b.buf) (WriteBuf.int16 b (pos m)).buf ++ rest)
          ≡ some (m, rest))
      × (ReadBuf.string (drop (length b.buf) (WriteBuf.string b s).buf ++ rest) ≡ some (s, rest))
unfolding ReadBuf.int32 ReadBuf.int16 ReadBuf.string WriteBuf.int32 WriteBuf.int16 WriteBuf.string
reads_back b n m s rest hn hm hs = (
  rw drop-append-length (int32-be32 n rest hn),
  rw drop-append-length (rw (mod-eq_of_lt hm) (uint16-be16 m rest hm)),
  rw drop-append-length (rw append_assoc (cut-append 0 s rest hs)),
)

-- `wrap` of a buffer that holds `before` up to its position, four bytes and a body: the four bytes
-- become the length of themselves and the body.
pub put_uint32-append :
    (before : Bytes) (n a b c d : ℕ) (body : Bytes)
    → put_uint32 (length before) n (before ++ a ∷ b ∷ c ∷ d ∷ body)
      ≡ some (before ++ (be32 n ++ body))
unfolding put_uint32
put_uint32-append [] n a b c d body = refl
put_uint32-append (x ∷ before) n a b c d body =
    rw (put_uint32-append before n a b c d body, put_uint32)
