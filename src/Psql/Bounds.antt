-- ===== src/Psql/Bounds.antt =====
-- cmd/psql/buf.go: when a read panics, how much it takes, and how large the numbers are.
use Prim.Native.Nat.{zero}
use passwd_pot.Common.{
  ℕ, suc, ℤ, pos, negsuc, ◌^◌, ◌<◌, ◌≤◌, Bytes, [], ◌∷◌, ◌++◌, Option, none, some, ◌≡◌, refl, arith,
  length, take, drop, leb, ltb, All, Lacks, Bool-cases, Option-cases, inl, inr, ap,
}
use passwd_pot.Common.{cut}
use passwd_pot.Common.Strings.Laws.{cut_sound, cut-none}
use passwd_pot.Psql.Words.{uint32, uint16, to_int32}
use passwd_pot.Psql.ReadBuf
use passwd_pot.Psql.RoundTrip.{FitsInt32}

abbrev pub IsByte : ℕ → Type 0
IsByte c = c < 256

-- A read of `n` bytes from `b`: it panics exactly where there are fewer, and else takes just these
-- from the front, and gives a value that fits.
abbrev pub Reads {ℓ} : {A : Type ℓ} → (A → Type 0) → ℕ → Bytes → Option (A × Bytes) → Type 0
Reads Fits n b none = length b < n
Reads Fits n b (some (v, rest)) =
    Fits v × (taken : Bytes) × (b ≡ taken ++ rest) × (length taken ≡ n)

-- The read of a string, which ends at the first zero byte; without one the read panics.
abbrev pub ReadsString : Bytes → Option (Bytes × Bytes) → Type 0
ReadsString b none = Lacks 0 b
ReadsString b (some (s, rest)) = (b ≡ s ++ 0 ∷ rest) × Lacks 0 s

fits_word : (x : ℕ) → x < 2 ^ 32 → FitsInt32 (to_int32 x)
unfolding to_int32
fits_word x h = elim (Bool-cases (ltb x (2 ^ 31))) [
  | inl small ↦ rw (small, to_int32) (ground (arith, small))
  | inr large ↦ rw (large, to_int32) (ground (arith, large))
]

int32-Reads : (b : Bytes) → All IsByte b → Reads FitsInt32 4 b (ReadBuf.int32 b)
unfolding ReadBuf.int32 uint32 to_int32
int32-Reads [] h = omega arith
int32-Reads (a ∷ []) h = omega arith
int32-Reads (a ∷ b ∷ []) h = omega arith
int32-Reads (a ∷ b ∷ c ∷ []) h = omega arith
int32-Reads (a ∷ b ∷ c ∷ d ∷ rest) (ha, (hb, (hc, (hd, h)))) =
    (fits_word _ (omega arith), (a ∷ b ∷ c ∷ d ∷ []), refl, refl)

oid-Reads : (b : Bytes) → All IsByte b → Reads (λ n. n < 2 ^ 32) 4 b (ReadBuf.oid b)
unfolding ReadBuf.oid uint32
oid-Reads [] h = omega arith
oid-Reads (a ∷ []) h = omega arith
oid-Reads (a ∷ b ∷ []) h = omega arith
oid-Reads (a ∷ b ∷ c ∷ []) h = omega arith
oid-Reads (a ∷ b ∷ c ∷ d ∷ rest) (ha, (hb, (hc, (hd, h)))) =
    (omega arith, (a ∷ b ∷ c ∷ d ∷ []), refl, refl)

int16-Reads : (b : Bytes) → All IsByte b → Reads (λ n. n < 2 ^ 16) 2 b (ReadBuf.int16 b)
unfolding ReadBuf.int16 uint16
int16-Reads [] h = omega arith
int16-Reads (a ∷ []) h = omega arith
int16-Reads (a ∷ b ∷ rest) (ha, (hb, h)) = (omega arith, (a ∷ b ∷ []), refl, refl)

take-drop : (n : ℕ) (b : Bytes) → b ≡ take n b ++ drop n b
take-drop zero b = refl
take-drop (suc n) [] = refl
take-drop (suc n) (c ∷ b) = ap (λ (s : Bytes). c ∷ s) (take-drop n b)

length-take : (n : ℕ) (b : Bytes) → n ≤ length b → length (take n b) ≡ n
length-take zero b h = refl
length-take (suc n) [] h = absurd (omega arith)
length-take (suc n) (c ∷ b) h = ap suc (length-take n b (omega arith))

-- A read of as many bytes as an integer says, which panics where that is negative.
abbrev pub ReadsNext : ℤ → Bytes → Option (Bytes × Bytes) → Type 0
ReadsNext (pos n) b r = Reads (λ (v : Bytes). length v ≡ n) n b r
ReadsNext (negsuc n) b r = r ≡ none

next-ReadsNext : (n : ℤ) (b : Bytes) → ReadsNext n b (ReadBuf.next n b)
unfolding ReadBuf.next
next-ReadsNext (negsuc n) b = refl
next-ReadsNext (pos n) b = elim (Bool-cases (leb n (length b))) [
  | inl long ↦
      let exact = length-take n b (ground (arith, long)) in
      rw (long, ReadBuf.next) (exact, take n b, take-drop n b, exact)
  | inr short ↦ rw (short, ReadBuf.next) (ground (arith, short))
]

next_one : (c : ℕ) (b : Bytes) → ReadBuf.next (pos 1) (c ∷ b) ≡ some (c ∷ [], b)
unfolding ReadBuf.next
next_one c b = ground arith

byte-Reads : (b : Bytes) → All IsByte b → Reads IsByte 1 b (ReadBuf.byte b)
unfolding ReadBuf.byte ReadBuf.next
byte-Reads [] h = omega arith
byte-Reads (c ∷ b) (hc, h) = rw (next_one c b, ReadBuf.byte) (hc, c ∷ [], refl, refl)

string-ReadsString : (b : Bytes) → ReadsString b (ReadBuf.string b)
unfolding ReadBuf.string
string-ReadsString b = elim (Option-cases (cut 0 b)) [
  | inl e ↦ rw e (cut-none 0 b e)
  | inr ((s, rest), e) ↦ rw e (cut_sound 0 b s rest e)
]

-- Every read of the buffer on every input: it panics exactly where the bytes that it wants are not
-- there, takes just these from the front, and leaves the rest as it is; a number then fits its
-- type, a byte is a byte, `next` gives as many bytes as it was asked for and panics for a negative
-- number, and a string is what is before the first zero byte, which is taken as well, and a panic
-- where there is none.
pub every_read_exact :
    (n : ℤ) (b : Bytes)
    → All IsByte b
    → Reads FitsInt32 4 b (ReadBuf.int32 b)
      × Reads (λ x. x < 2 ^ 32) 4 b (ReadBuf.oid b)
      × Reads (λ x. x < 2 ^ 16) 2 b (ReadBuf.int16 b)
      × Reads IsByte 1 b (ReadBuf.byte b)
      × ReadsNext n b (ReadBuf.next n b)
      × ReadsString b (ReadBuf.string b)
every_read_exact n b h = (
  int32-Reads b h,
  oid-Reads b h,
  int16-Reads b h,
  byte-Reads b h,
  next-ReadsNext n b,
  string-ReadsString b,
)
