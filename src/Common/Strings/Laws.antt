-- ===== src/Common/Strings/Laws.antt =====
-- Laws of `strings.Split`, `strings.Trim` and of the search for a byte.
use Prim.Native.Nat.{ℕ}
use mathlib.Core.Path.{◌≡◌, refl}
use mathlib.Core.Logic.{inl, inr}
use mathlib.Core.Bool.{Bool, true, false}
use mathlib.Core.List.{[], ◌∷◌, ◌++◌}
use mathlib.Core.Option.{none, some}
use native.Mathlib.Omega.{arith}
use passwd_pot.Common.Tests.{Option-cases}
use passwd_pot.Common.Lists.{All}
use passwd_pot.Common.Text.{Bytes, Lacks}
use passwd_pot.Common.Strings.{split, cut, trim_left, cons_trimmed, trim_right}

module _ (sep : ℕ) where
  pub split-Lacks : (p : Bytes) → Lacks sep p → split sep p ≡ p ∷ []
  unfolding split
  split-Lacks [] h = refl
  split-Lacks (c ∷ p) (hc, hp) = ground (arith, split-Lacks p hp)

  pub split-append : (p s : Bytes) → Lacks sep p → split sep (p ++ sep ∷ s) ≡ p ∷ split sep s
  unfolding split
  split-append [] s h = ground arith
  split-append (c ∷ p) s (hc, hp) = ground (arith, split-append p s hp)

  pub cut-append : (p s : Bytes) → Lacks sep p → cut sep (p ++ sep ∷ s) ≡ some (p, s)
  unfolding cut
  cut-append [] s h = ground arith
  cut-append (c ∷ p) s (hc, hp) = ground (arith, cut-append p s hp)

  pub cut-Lacks : (p : Bytes) → Lacks sep p → cut sep p ≡ none
  unfolding cut
  cut-Lacks [] h = refl
  cut-Lacks (c ∷ p) (hc, hp) = ground (arith, cut-Lacks p hp)

  -- A search fails only where there is nothing to find.
  pub cut-none : (s : Bytes) → cut sep s ≡ none → Lacks sep s
  unfolding cut
  cut-none [] h = tt
  cut-none (c ∷ s) h = elim (Option-cases (cut sep s)) [
    | inl e ↦ (λ same. ground (arith, same), cut-none s e)
    | inr ((a, b), e) ↦ ground arith
  ]

  -- A successful search takes the text apart.
  pub cut_sound : (s p q : Bytes) → cut sep s ≡ some (p, q) → (s ≡ p ++ sep ∷ q) × Lacks sep p
  unfolding cut
  cut_sound [] p q h = cc
  cut_sound (c ∷ s) p q h = elim (Option-cases (cut sep s)) [
    | inl e ↦ ground arith
    | inr ((a, b), e) ↦ ground (arith, cut_sound s a b e)
  ]

module _ (p : ℕ → Bool) where
  pub trim_right-cons :
      (c : ℕ) (s : Bytes) → All (λ d. p d ≡ false) (c ∷ s) → trim_right p (c ∷ s) ≡ c ∷ s
  unfolding trim_right
  trim_right-cons c [] (hc, _) = ground arith
  trim_right-cons c (d ∷ s) (hc, hs) = rw (trim_right-cons d s hs)

  pub trim_right-append :
      (s : Bytes) (c : ℕ) (t : Bytes)
      → All (λ d. p d ≡ false) (c ∷ t)
      → trim_right p (s ++ c ∷ t) ≡ s ++ c ∷ t
  unfolding trim_right
  trim_right-append [] c t h = trim_right-cons c t h
  trim_right-append (b ∷ []) c t h = rw (trim_right-cons c t h)
  trim_right-append (b ∷ d ∷ s) c t h = rw (trim_right-append (d ∷ s) c t h)

  pub trim_right-All : (t : Bytes) → All (λ d. p d ≡ true) t → trim_right p t ≡ []
  unfolding trim_right
  trim_right-All [] h = refl
  trim_right-All (c ∷ t) (hc, ht) = rw (trim_right-All t ht, cons_trimmed) (ground arith)

  pub trim_right-append-All :
      (s t : Bytes) → All (λ d. p d ≡ true) t → trim_right p (s ++ t) ≡ trim_right p s
  unfolding trim_right
  trim_right-append-All [] t h = trim_right-All t h
  trim_right-append-All (c ∷ s) t h = rw (trim_right-append-All s t h)

  pub trim_left-cons : (c : ℕ) (s : Bytes) → p c ≡ false → trim_left p (c ∷ s) ≡ c ∷ s
  unfolding trim_left
  trim_left-cons c s h = ground arith
