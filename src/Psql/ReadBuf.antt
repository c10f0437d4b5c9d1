-- ===== src/Psql/ReadBuf.antt =====
-- cmd/psql/buf.go: the read buffer. A result `none` is a panic: an index or a slice out of range.
use passwd_pot.Common.{
  ℕ, Bytes, ℤ, pos, negsuc, ◌∷◌, Option, none, some, length, take, drop, cut, leb, if◌then◌else◌,
}
use passwd_pot.Psql.Words.{uint32, uint16, to_int32}

-- A read returns its value and the buffer that is left.
unfoldable pub int32 : Bytes → Option (ℤ × Bytes)
unfolding uint32 to_int32
int32 b = elim (uint32 b) [ none ↦ none | some (x, rest) ↦ some (to_int32 x, rest) ]

unfoldable pub oid : Bytes → Option (ℕ × Bytes)
unfolding uint32
oid b = uint32 b

unfoldable pub int16 : Bytes → Option (ℕ × Bytes)
unfolding uint16
int16 b = uint16 b

unfoldable pub string : Bytes → Option (Bytes × Bytes)
unfolding cut
string b = cut 0 b

unfoldable pub next : ℤ → Bytes → Option (Bytes × Bytes)
next (negsuc n) b = none
next (pos n) b = if leb n (length b) then some (take n b, drop n b) else none

unfoldable pub byte : Bytes → Option (ℕ × Bytes)
unfolding next
byte b = elim (next (pos 1) b) [ some (c ∷ _, rest) ↦ some (c, rest) | _ ↦ none ]
