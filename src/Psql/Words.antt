-- ===== src/Psql/Words.antt =====
-- Machine words in the buffers of cmd/psql/buf.go: `encoding/binary` and Go's conversions.
use passwd_pot.Common.{
  ℕ, ◌+◌, ◌-◌, ◌*◌, ◌/◌, ◌%◌, ◌^◌, Bytes, ℤ, pos, negsuc, [], ◌∷◌, Option, none, some, ltb,
  if◌then◌else◌,
}

-- `binary.BigEndian.PutUint32` and `PutUint16`: the bytes of a word, the highest first.
unfoldable pub be32 : ℕ → Bytes
be32 n = (n / 2 ^ 24 % 256) ∷ (n / 2 ^ 16 % 256) ∷ (n / 2 ^ 8 % 256) ∷ (n % 256) ∷ []

unfoldable pub be16 : ℕ → Bytes
be16 n = (n / 2 ^ 8 % 256) ∷ (n % 256) ∷ []

-- `binary.BigEndian.Uint32` and `Uint16`, with what is behind the word.
unfoldable pub uint32 : Bytes → Option (ℕ × Bytes)
uint32 (a ∷ b ∷ c ∷ d ∷ rest) = some (a * 2 ^ 24 + b * 2 ^ 16 + c * 2 ^ 8 + d, rest)
uint32 _ = none

unfoldable pub uint16 : Bytes → Option (ℕ × Bytes)
uint16 (a ∷ b ∷ rest) = some (a * 2 ^ 8 + b, rest)
uint16 _ = none

-- `int32(x)` of a `uint32`, and `uint32(n)` and `uint16(n)` of an `int`.
unfoldable pub to_int32 : ℕ → ℤ
to_int32 x = if ltb x (2 ^ 31) then pos x else negsuc (2 ^ 32 - 1 - x)

unfoldable pub to_uint32 : ℤ → ℕ
to_uint32 (pos n) = n % 2 ^ 32
to_uint32 (negsuc n) = 2 ^ 32 - 1 - n % 2 ^ 32

unfoldable pub to_uint16 : ℤ → ℕ
to_uint16 (pos n) = n % 2 ^ 16
to_uint16 (negsuc n) = 2 ^ 16 - 1 - n % 2 ^ 16
