-- ===== src/Resolver/Address.antt =====
-- resolver/resolve.go: the regular expression \d{1,3}\.\d{1,3}\. that an address must contain.
use passwd_pot.Common.{
  ℕ, zero, suc, Bytes, codes, Bool, true, false, ◌&&◌, ◌||◌, leb, ◌==◌, if◌then◌else◌, [], ◌∷◌,
  Option, none, some, ◌≡◌, refl,
}

is_digit : ℕ → Bool
is_digit c = leb b'0' c && leb c b'9'

-- What is behind up to `k` more digits and a dot: a dot is no digit, so the run of digits is never
-- cut short.
digits_dot : ℕ → Bytes → Option Bytes
unfolding is_digit
digits_dot k [] = none
digits_dot zero (c ∷ s) = if c == b'.' then some s else none
digits_dot (suc k) (c ∷ s) =
    let more = digits_dot k s in if c == b'.' then some s else if is_digit c then more else none

-- \d{1,3}\. at the start of the text.
octet : Bytes → Option Bytes
unfolding digits_dot
octet [] = none
octet (c ∷ s) = if is_digit c then digits_dot 2 s else none

matches_at : Bytes → Bool
unfolding octet
matches_at s = elim (octet s) [
  | none ↦ false
  | some rest ↦ elim (octet rest) [ none ↦ false | some _ ↦ true ]
]

-- `regexp.MatchString` finds the pattern anywhere.
unfoldable pub looks_like_ipv4 : Bytes → Bool
unfolding matches_at
looks_like_ipv4 [] = false
looks_like_ipv4 (c ∷ s) = matches_at (c ∷ s) || looks_like_ipv4 s

examples :
    (looks_like_ipv4 (codes "10.1.2.3") ≡ true)
    × (looks_like_ipv4 (codes "::1") ≡ false)
    × (looks_like_ipv4 (codes "x1234.56.") ≡ true)
    × (looks_like_ipv4 (codes "1.2345.") ≡ false)
unfolding looks_like_ipv4
examples = (refl, refl, refl, refl)
