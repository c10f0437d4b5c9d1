-- ===== src/Pot/Ftp/Steps.antt =====
-- The rounds of the loop of cmd/ftp/ftp.go, and the rule by which a fact about every session is
-- proved.
use passwd_pot.Common.{
  ℕ, zero, suc, ◌<◌, Bytes, length, List, [], ◌∷◌, none, some, ◌≡◌, refl, Bool, arith, Option-cases,
  inl, inr, ◌⊎◌, cut, ◌++◌,
}
use passwd_pot.Pot.{Act, End, ReadEnd, Outcome, finish, ◌▸◌}
use passwd_pot.Pot.Ftp.{read_string, read_command, dispatch, Next, go, stop, at_end, serve}

pub serve-go :
    (f : ℕ) (faults : ℕ → Bool) (e : ReadEnd) (input : List Bytes) (u cmd : Bytes)
    (args rest : List Bytes) (acts : List Act) (u' : Bytes)
    → read_command input ≡ some (cmd, args, rest)
    → dispatch (faults 0) cmd args u ≡ go acts u'
    → serve (suc f) faults e input u ≡ acts ▸ serve f (λ n. faults (suc n)) e rest u'
unfolding serve
serve-go f faults e input u cmd args rest acts u' read handled =
    rw (read, serve) (rw (handled, serve))

pub serve-stop :
    (f : ℕ) (faults : ℕ → Bool) (e : ReadEnd) (input : List Bytes) (u cmd : Bytes)
    (args rest : List Bytes) (acts : List Act) (why : End)
    → read_command input ≡ some (cmd, args, rest)
    → dispatch (faults 0) cmd args u ≡ stop acts why
    → serve (suc f) faults e input u ≡ acts ▸ finish why
unfolding serve
serve-stop f faults e input u cmd args rest acts why read handled =
    rw (read, serve) (rw (handled, serve))

pub serve-none :
    (f : ℕ) (faults : ℕ → Bool) (e : ReadEnd) (input : List Bytes) (u : Bytes)
    → read_command input ≡ none
    → serve (suc f) faults e input u ≡ at_end e
unfolding serve
serve-none f faults e input u read = rw (read, serve)

Next-cases :
    (n : Next)
    → ((acts : List Act) × (why : End) × (n ≡ stop acts why))
      ⊎ ((acts : List Act) × (u : Bytes) × (n ≡ go acts u))
Next-cases (stop acts why) = inl (acts, why, refl)
Next-cases (go acts u) = inr (acts, u, refl)

-- A line takes at least one read.
length-read_string :
    (sofar : Bytes) (chunks : List Bytes) (line : Bytes) (rest : List Bytes)
    → read_string sofar chunks ≡ some (line, rest)
    → length rest < length chunks
unfolding read_string
length-read_string sofar [] line rest h = ground arith
length-read_string sofar (chunk ∷ chunks) line rest h = elim (Option-cases (cut 10 chunk)) [
  | inl e ↦ ground (arith, length-read_string (sofar ++ chunk) chunks line rest)
  | inr ((p, q), e) ↦ ground arith
]

length-read_command :
    (chunks : List Bytes) (cmd : Bytes) (args rest : List Bytes)
    → read_command chunks ≡ some (cmd, args, rest)
    → length rest < length chunks
unfolding read_command
length-read_command chunks cmd args rest h = elim (Option-cases (read_string [] chunks)) [
  | inl e ↦ ground arith
  | inr ((p, q), e) ↦ ground (arith, length-read_string [] chunks p q)
]

-- What holds at every end, and is kept by every round, holds of the session, if there is a round
-- for each read.
module _ (P : Outcome → Type 0) (ended : (e : ReadEnd) → P (at_end e))
    (left : (fault : Bool) (cmd : Bytes) (args : List Bytes) (u : Bytes) (acts : List Act)
        (why : End)
      → dispatch fault cmd args u ≡ stop acts why
      → P (acts ▸ finish why))
    (round : (fault : Bool) (cmd : Bytes) (args : List Bytes) (u : Bytes) (acts : List Act)
        (u' : Bytes)
      → dispatch fault cmd args u ≡ go acts u'
      → (o : Outcome) → P o
      → P (acts ▸ o)) where
  pub serve_rule :
      (f : ℕ) (faults : ℕ → Bool) (e : ReadEnd) (input : List Bytes) (u : Bytes)
      → length input < f
      → P (serve f faults e input u)
  serve_rule zero faults e input u lt = absurd (omega arith)
  serve_rule (suc f) faults e input u lt = elim (Option-cases (read_command input)) [
    | inl read ↦ rw (serve-none f faults e input u read) (ended e)
    | inr ((cmd, args, rest), read) ↦ elim (Next-cases (dispatch (faults 0) cmd args u)) [
      | inl (acts, why, halt) ↦
          rw (serve-stop f faults e input u cmd args rest acts why read halt)
            (left (faults 0) cmd args u acts why halt)
      | inr (acts, u', next) ↦ rw (serve-go f faults e input u cmd args rest acts u' read next) (
          round (faults 0) cmd args u acts u' next (serve f (λ n. faults (suc n)) e rest u') (
            serve_rule f (λ n. faults (suc n)) e rest u'
              (omega (arith, length-read_command input cmd args rest read))))
    ]
  ]
