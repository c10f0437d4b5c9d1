-- ===== src/Common/Decimal.antt =====
-- `strconv.Atoi`, `strconv.ParseInt(s, 10, 64)` and `%d`.
pub mod RoundTrip
use Prim.Native.Nat.{ℕ, zero, suc, ◌+◌, ◌-◌, ◌*◌, ◌/◌, ◌%◌, ◌^◌}
use mathlib.Core.Path.{◌≡◌, refl}
use mathlib.Core.Bool.{Bool, true, false, ◌||◌}
use mathlib.Core.List.{[], ◌∷◌}
use mathlib.Core.Option.{Option, none, some}
use passwd_pot.Common.Tests.{ltb, ◌==◌, if◌then◌else◌}
use passwd_pot.Common.Text.{Bytes, codes}

-- Go's signed integers; `negsuc n` is -(n + 1).
pub data ℤ : Type 0 where
  pos : ℕ → ℤ
  negsuc : ℕ → ℤ

-- The digits of `n` before `out`, on fuel.
unfoldable pub emit : ℕ → ℕ → Bytes → Bytes
emit zero n out = out
emit (suc f) n out =
    let rest = emit f (n / 10) ((b'0' + n % 10) ∷ out) in
    if ltb n 10 then (b'0' + n) ∷ out else rest

-- `fmt.Sprintf("%d", n)` of a number that is not negative: `n + 1` rounds are enough.
unfoldable pub itoa : ℕ → Bytes
unfolding emit
itoa n = emit (suc n) n []

-- The number that digits spell behind `n`; `none` at a byte that is no digit.
unfoldable pub digits : Bytes → ℕ → Option ℕ
digits [] n = some n
digits (c ∷ s) n =
    let rest = digits s (n * 10 + (c - b'0')) in if ltb c b'0' || ltb b'9' c then none else rest

-- Text with at least one digit.
unfoldable pub parse_uint : Bytes → Option ℕ
unfolding digits
parse_uint [] = none
parse_uint (c ∷ s) = digits (c ∷ s) 0

unfoldable pub in_range : Bool → Option ℕ → Option ℤ
in_range neg none = none
in_range false (some n) = if ltb n (2 ^ 63) then some (pos n) else none
in_range true (some zero) = some (pos 0)
in_range true (some (suc n)) = if ltb n (2 ^ 63) then some (negsuc n) else none

-- An optional sign and digits, in the range of an `int64`.
unfoldable pub atoi : Bytes → Option ℤ
unfolding parse_uint in_range
atoi [] = none
atoi (c ∷ s) =
    if c == b'-'
    then in_range true (parse_uint s)
    else if c == b'+'
    then in_range false (parse_uint s)
    else in_range false (parse_uint (c ∷ s))

atoi_tests : (atoi (codes "8080") ≡ some (pos 8080)) × (atoi (codes "x1") ≡ none)
unfolding atoi
atoi_tests = (refl, refl)

itoa_test : itoa 1203 ≡ codes "1203"
unfolding itoa
itoa_test = refl
