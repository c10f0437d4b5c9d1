-- ===== src/Common/Decimal/RoundTrip.antt =====
-- Decimal numbers that are printed and then read.
use Prim.Native.Nat.{ℕ, zero, suc, ◌+◌, ◌-◌, ◌*◌, ◌/◌, ◌%◌, ◌^◌, ◌≤◌, ◌<◌}
use mathlib.Core.Path.{sym, ◌≡◌, refl, ap, ◌∙◌}
use mathlib.Core.Logic.{inl, inr}
use mathlib.Core.Bool.{false, ◌||◌}
use mathlib.Core.List.{[], ◌∷◌}
use mathlib.Core.Option.{some}
use native.Mathlib.Omega.{arith}
use passwd_pot.Common.Tests.{ltb, ◌==◌, Bool-cases}
use passwd_pot.Common.Text.{Bytes}
use passwd_pot.Common.Decimal.{ℤ, pos, negsuc, emit, itoa, digits, parse_uint, in_range, atoi}

digits-digit : (d n : ℕ) (s : Bytes) → d < 10 → digits ((b'0' + d) ∷ s) n ≡ digits s (n * 10 + d)
unfolding digits
digits-digit d n s h =
    let back : n * 10 + (b'0' + d - b'0') ≡ n * 10 + d = omega arith in
    let is_digit : (ltb (b'0' + d) b'0' || ltb b'9' (b'0' + d)) ≡ false = ground arith in
    rw (is_digit, digits) (ap (digits s) back)

digits-emit : (f n : ℕ) (out : Bytes) → n < f → digits (emit f n out) 0 ≡ digits out n
unfolding emit
digits-emit zero n out h = absurd (omega arith)
digits-emit (suc f) n out h = elim (Bool-cases (ltb n 10)) [
  | inl small ↦
      rw (small, emit) (digits-digit n 0 out (ground arith) ∙ ap (digits out) (omega arith))
  | inr large ↦
      rw (large, emit)
        (digits-emit f (n / 10) ((b'0' + n % 10) ∷ out) (ground arith)
          ∙ digits-digit (n % 10) (n / 10) out (omega arith)
          ∙ ap (digits out) (omega arith))
]

-- Printed text begins with a digit.
emit-digit :
    (f n : ℕ) (out : Bytes)
    → (c : ℕ) × (s : Bytes) × (b'0' ≤ c) × (c ≤ b'9') × (emit (suc f) n out ≡ c ∷ s)
unfolding emit
emit-digit zero n out = elim (Bool-cases (ltb n 10)) [
  | inl small ↦ (b'0' + n, out, omega arith, ground arith, rw (small, emit))
  | inr large ↦ (b'0' + n % 10, out, omega arith, omega arith, rw (large, emit))
]
emit-digit (suc f) n out = elim (Bool-cases (ltb n 10)) [
  | inl small ↦ (b'0' + n, out, omega arith, ground arith, rw (small, emit))
  | inr large ↦
      let (c, s, low, high, same) = emit-digit f (n / 10) ((b'0' + n % 10) ∷ out) in
      (c, s, low, high, rw (large, emit) same)
]

digits_parse : (c : ℕ) (s : Bytes) → parse_uint (c ∷ s) ≡ digits (c ∷ s) 0
unfolding parse_uint
digits_parse c s = refl

itoa-digit : (n : ℕ) → (c : ℕ) × (s : Bytes) × (b'0' ≤ c) × (c ≤ b'9') × (itoa n ≡ c ∷ s)
unfolding itoa
itoa-digit n = emit-digit n n []

digits-itoa : (n : ℕ) → digits (itoa n) 0 ≡ some n
unfolding itoa digits
digits-itoa n = digits-emit (suc n) n [] (omega arith)

parse_uint-itoa : (n : ℕ) → parse_uint (itoa n) ≡ some n
parse_uint-itoa n =
    let (c, s, low, high, same) = itoa-digit n in
    ap parse_uint same ∙ digits_parse c s ∙ ap (λ t. digits t 0) (sym same) ∙ digits-itoa n

-- `%d` of an integer.
unfoldable pub print : ℤ → Bytes
print (pos n) = itoa n
print (negsuc n) = b'-' ∷ itoa (suc n)

abbrev pub FitsInt64 : ℤ → Type 0
FitsInt64 (pos n) = n < 2 ^ 63
FitsInt64 (negsuc n) = n < 2 ^ 63

pub atoi-print : (n : ℤ) → FitsInt64 n → atoi (print n) ≡ some n
unfolding atoi print in_range
atoi-print (pos n) h =
    let (c, s, low, high, same) = itoa-digit n in
    let minus : (c == b'-') ≡ false = ground arith in
    let plus : (c == b'+') ≡ false = ground arith in
    let parsed : parse_uint (c ∷ s) ≡ some n = ap parse_uint (sym same) ∙ parse_uint-itoa n in
    rw same (rw (minus, atoi) (rw (plus, atoi) (rw (parsed, in_range) (ground arith))))
atoi-print (negsuc n) h = rw (parse_uint-itoa (suc n), in_range) (ground arith)
