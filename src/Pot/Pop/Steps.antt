-- ===== src/Pot/Pop/Steps.antt =====
-- The rounds of the loop of cmd/pop/pop.go, and the rule by which a fact about every session is
-- proved.
use passwd_pot.Common.{
  ℕ, zero, suc, ◌<◌, Bytes, length, List, none, some, ◌≡◌, refl, arith, Option-cases, inl, inr, ◌⊎◌,
}
use passwd_pot.Pot.{Act, ReadEnd, Outcome, quit, finish, ◌▸◌, read_string, length-read_string}
use passwd_pot.Pot.Pop.{handle_line, Next, go, stop, at_end, serve}

pub serve-go :
    (f : ℕ) (e : ReadEnd) (input u p line rest : Bytes) (acts : List Act) (u' p' : Bytes)
    → read_string input ≡ some (line, rest)
    → handle_line line u p ≡ go acts u' p'
    → serve (suc f) e input u p ≡ acts ▸ serve f e rest u' p'
unfolding serve
serve-go f e input u p line rest acts u' p' read handled = rw (read, serve) (rw (handled, serve))

pub serve-stop :
    (f : ℕ) (e : ReadEnd) (input u p line rest : Bytes)
    → read_string input ≡ some (line, rest)
    → handle_line line u p ≡ stop
    → serve (suc f) e input u p ≡ finish quit
unfolding serve
serve-stop f e input u p line rest read handled = rw (read, serve) (rw (handled, serve))

serve-none :
    (f : ℕ) (e : ReadEnd) (input u p : Bytes)
    → read_string input ≡ none
    → serve (suc f) e input u p ≡ at_end e
unfolding serve
serve-none f e input u p read = rw (read, serve)

Next-cases :
    (n : Next) → (n ≡ stop) ⊎ ((acts : List Act) × (u : Bytes) × (p : Bytes) × (n ≡ go acts u p))
Next-cases stop = inl refl
Next-cases (go acts u p) = inr (acts, u, p, refl)

-- What holds at every end, and is kept by every round, holds of the session, if there is a round
-- for each byte.
module _ (P : Outcome → Type 0) (ended : (e : ReadEnd) → P (at_end e)) (left : P (finish quit))
    (round : (line u p : Bytes) (acts : List Act) (u' p' : Bytes)
      → handle_line line u p ≡ go acts u' p'
      → (o : Outcome) → P o
      → P (acts ▸ o)) where
  pub serve_rule :
      (f : ℕ) (e : ReadEnd) (input u p : Bytes) → length input < f → P (serve f e input u p)
  serve_rule zero e input u p lt = absurd (omega arith)
  serve_rule (suc f) e input u p lt = elim (Option-cases (read_string input)) [
    | inl read ↦ rw (serve-none f e input u p read) (ended e)
    | inr ((line, rest), read) ↦ elim (Next-cases (handle_line line u p)) [
      | inl halt ↦ rw (serve-stop f e input u p line rest read halt) left
      | inr (acts, u', p', next) ↦ rw (serve-go f e input u p line rest acts u' p' read next) (
          round line u p acts u' p' next (serve f e rest u' p')
            (serve_rule f e rest u' p' (omega (arith, length-read_string input line rest read))))
    ]
  ]
