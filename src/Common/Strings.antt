-- ===== src/Common/Strings.antt =====
-- The functions of Go's `strings` and `bytes` that the program calls, each at the arguments that
-- it gives them: a separator is one byte.
pub mod Laws
use Prim.Native.Nat.{ℕ, zero, suc}
use mathlib.Core.Bool.{Bool, true, false, ◌&&◌, ◌||◌}
use mathlib.Core.List.{List, [], ◌∷◌, ◌++◌}
use mathlib.Core.Option.{Option, none, some}
use passwd_pot.Common.Tests.{◌==◌, if◌then◌else◌}
use passwd_pot.Common.Text.{Bytes}

-- Puts a byte before the first part.
unfoldable pub cons_head : ℕ → List Bytes → List Bytes
cons_head c [] = (c ∷ []) ∷ []
cons_head c (p ∷ ps) = (c ∷ p) ∷ ps

-- `strings.Split(s, sep)`: always at least one part.
unfoldable pub split : ℕ → Bytes → List Bytes
unfolding cons_head
split sep [] = [] ∷ []
split sep (c ∷ s) = let parts = split sep s in if c == sep then [] ∷ parts else cons_head c parts

-- The text before the first `b` and the text behind it; `none` where `IndexByte` is -1.
unfoldable pub cut : ℕ → Bytes → Option (Bytes × Bytes)
cut b [] = none
cut b (c ∷ s) =
    let later : Option (Bytes × Bytes) = elim (cut b s) [
      | none ↦ none
      | some (before, behind) ↦ some (c ∷ before, behind)
    ] in
    if c == b then some ([], s) else later

-- `strings.SplitN(s, sep, 2)`.
unfoldable pub split_2 : ℕ → Bytes → List Bytes
unfolding cut
split_2 sep s = elim (cut sep s) [ none ↦ s ∷ [] | some (p, q) ↦ p ∷ q ∷ [] ]

unfoldable pub trim_left : (ℕ → Bool) → Bytes → Bytes
trim_left p [] = []
trim_left p (c ∷ s) = let rest = trim_left p s in if p c then rest else c ∷ s

-- Puts a byte before trimmed text; a byte of the set that nothing follows is trimmed too.
unfoldable pub cons_trimmed : (ℕ → Bool) → ℕ → Bytes → Bytes
cons_trimmed p c [] = if p c then [] else c ∷ []
cons_trimmed p c (d ∷ s) = c ∷ d ∷ s

unfoldable pub trim_right : (ℕ → Bool) → Bytes → Bytes
unfolding cons_trimmed
trim_right p [] = []
trim_right p (c ∷ s) = cons_trimmed p c (trim_right p s)

-- `strings.Trim(s, cutset)`.
unfoldable pub trim : (ℕ → Bool) → Bytes → Bytes
unfolding trim_left trim_right
trim p s = trim_right p (trim_left p s)

unfoldable pub has_prefix : Bytes → Bytes → Bool
has_prefix s [] = true
has_prefix [] (d ∷ t) = false
has_prefix (c ∷ s) (d ∷ t) = c == d && has_prefix s t

-- `strings.Contains(s, t)`.
unfoldable pub contains : Bytes → Bytes → Bool
unfolding has_prefix
contains [] t = has_prefix [] t
contains (c ∷ s) t = has_prefix (c ∷ s) t || contains s t

-- `strings.Join(parts, sep)`.
unfoldable pub join : Bytes → List Bytes → Bytes
join sep [] = []
join sep (p ∷ []) = p
join sep (p ∷ q ∷ ps) = p ++ (sep ++ join sep (q ∷ ps))
