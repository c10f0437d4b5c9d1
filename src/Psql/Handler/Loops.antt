-- ===== src/Psql/Handler/Loops.antt =====
-- The loops of cmd/psql/psql.go without their fuel.
use passwd_pot.Common.{
  ℕ, zero, suc, ◌+◌, ◌-◌, ◌<◌, ◌≤◌, Bytes, true, false, ◌==◌, List, [], ◌∷◌, none, some, ◌≡◌, refl,
  sym, ◌∙◌, arith, length, length-drop, Option-cases, inl, inr, if◌then◌else◌,
}
use native.Mathlib.Numerals.{add-one}
use passwd_pot.Pot.{Act, write}
use passwd_pot.Psql.Words.{uint32}
use passwd_pot.Psql.Handler.{
  Received, message, refused, panic, payload, recv_message, recv_loop, recv, Written, written,
  Started, unstarted, start_params, start_loop, recv_start_message, answer_ssl,
}

length-uint32 :
    (s : Bytes) (x : ℕ) (rest : Bytes) → uint32 s ≡ some (x, rest) → length s ≡ length rest + 4
unfolding uint32
length-uint32 [] x rest h = cc
length-uint32 (a ∷ []) x rest h = cc
length-uint32 (a ∷ b ∷ []) x rest h = cc
length-uint32 (a ∷ b ∷ c ∷ []) x rest h = cc
length-uint32 (a ∷ b ∷ c ∷ d ∷ s) x rest h = ground arith

length-payload :
    (t len : ℕ) (s : Bytes) (t' : ℕ) (y rest : Bytes)
    → payload t len s ≡ message t' y rest
    → length rest ≤ length s
unfolding payload
length-payload t len s t' y rest h = ground (arith, length-drop (len - 4) s)

recv_message-nil : recv_message [] ≡ refused
unfolding recv_message
recv_message-nil = refl

recv_message-refused : (c : ℕ) (s : Bytes) → uint32 s ≡ none → recv_message (c ∷ s) ≡ refused
unfolding recv_message
recv_message-refused c s e = rw (e, recv_message)

recv_message-payload :
    (c : ℕ) (s : Bytes) (len : ℕ) (rest : Bytes)
    → uint32 s ≡ some (len, rest)
    → recv_message (c ∷ s) ≡ payload c len rest
unfolding recv_message
recv_message-payload c s len rest e = rw (e, recv_message)

length-recv_message :
    (s : Bytes) (t : ℕ) (y rest : Bytes)
    → recv_message s ≡ message t y rest
    → length rest < length s
length-recv_message [] t y rest h = cc recv_message-nil
length-recv_message (c ∷ s) t y rest h = elim (Option-cases (uint32 s)) [
  | inl e ↦ cc (recv_message-refused c s e)
  | inr ((len, s'), e) ↦ omega (
    arith,
    length-uint32 s len s' e,
    length-payload c len s' t y rest (sym (recv_message-payload c s len s' e) ∙ h),
  )
]

-- What `recv` does with a message, `again` being the next round.
abbrev pub sort_message : Received → (Bytes → Received) → Received
sort_message refused again = refused
sort_message panic again = panic
sort_message (message t y rest) again =
    if t == b'E' then refused else if t == b'N' then again rest else message t y rest

recv_loop-sort :
    (f : ℕ) (s : Bytes) → recv_loop (suc f) s ≡ sort_message (recv_message s) (recv_loop f)
unfolding recv_loop
recv_loop-sort f s = by_message (recv_message s)
  where
    by_message :
        (r : Received)
        → elim r [
          | refused ↦ refused
          | panic ↦ panic
          | message t y rest ↦
              let again = recv_loop f rest in
              if t == b'E' then refused else if t == b'N' then again else message t y rest
        ]
          ≡ sort_message r (recv_loop f)
    by_message refused = refl
    by_message panic = refl
    by_message (message t y rest) = refl

sort_message_congr :
    (r : Received) (j k : Bytes → Received)
    → ((t : ℕ) (y rest : Bytes) → r ≡ message t y rest → j rest ≡ k rest)
    → sort_message r j ≡ sort_message r k
sort_message_congr refused j k h = refl
sort_message_congr panic j k h = refl
sort_message_congr (message t y rest) j k h = rw (h t y rest refl)

recv_loop-fuel : (f g : ℕ) (s : Bytes) → length s < f → length s < g → recv_loop f s ≡ recv_loop g s
recv_loop-fuel zero g s hf hg = absurd (omega arith)
recv_loop-fuel (suc f) zero s hf hg = absurd (omega arith)
recv_loop-fuel (suc f) (suc g) s hf hg =
    recv_loop-sort f s
    ∙ sort_message_congr (recv_message s) (recv_loop f) (recv_loop g) (λ t y rest e.
      recv_loop-fuel f g rest (omega (arith, length-recv_message s t y rest e))
        (omega (arith, length-recv_message s t y rest e)))
    ∙ sym (recv_loop-sort g s)

-- `recv` is the loop of the source, with no bound on its rounds: it reads a message, fails on an
-- error, on a panic and on the type 'E', begins again behind the type 'N', and returns any other.
pub recv_unroll : (s : Bytes) → recv s ≡ sort_message (recv_message s) recv
unfolding recv
recv_unroll s = rw add-one (
    recv_loop-sort (length s) s
    ∙ sort_message_congr (recv_message s) (recv_loop (length s)) recv (λ t y rest e.
      recv_loop-fuel (length s) (length rest + 1) rest (length-recv_message s t y rest e)
        (omega arith)))

-- One round of `recvStartMessage`, `again` being the call of itself.
abbrev pub start_round : Written → Bytes → (Bytes → List Act × Started) → List Act × Started
start_round w s again = elim (uint32 s) [
  | none ↦ ([], unstarted)
  | some (len, rest) ↦ elim (uint32 rest) [
    | none ↦ ([], unstarted)
    | some (version, rest') ↦ elim (version == 80877103) [
      | true ↦ elim w [
        | written ↦ answer_ssl (again rest')
        | _ ↦ (write (b'N' ∷ []) ∷ [], unstarted)
      ]
      | false ↦ ([], start_params len rest')
    ]
  ]
]

start_loop-round :
    (f : ℕ) (writes : ℕ → Written) (s : Bytes)
    → start_loop (suc f) writes s ≡ start_round (writes 0) s (start_loop f (λ n. writes (suc n)))
unfolding start_loop
start_loop-round f writes s = refl

start_round_congr :
    (w : Written) (s : Bytes) (j k : Bytes → List Act × Started)
    → ((rest : Bytes) → length rest < length s → j rest ≡ k rest)
    → start_round w s j ≡ start_round w s k
start_round_congr w s j k h = elim (Option-cases (uint32 s)) [
  | inl e ↦ rw (e, start_round)
  | inr ((len, s'), e) ↦ elim (Option-cases (uint32 s')) [
    | inl e' ↦ rw (e, e', start_round)
    | inr ((version, rest), e') ↦
        rw (e, e', start_round)
          ((ground (
            arith,
            h rest (omega (arith, length-uint32 s len s' e, length-uint32 s' version rest e')),
          )))
  ]
]

start_loop-fuel :
    (f g : ℕ) (writes : ℕ → Written) (s : Bytes)
    → length s < f
    → length s < g
    → start_loop f writes s ≡ start_loop g writes s
start_loop-fuel zero g writes s hf hg = absurd (omega arith)
start_loop-fuel (suc f) zero writes s hf hg = absurd (omega arith)
start_loop-fuel (suc f) (suc g) writes s hf hg =
    start_loop-round f writes s
    ∙ start_round_congr (writes 0) s (start_loop f (λ n. writes (suc n)))
        (start_loop g (λ n. writes (suc n)))
        (λ rest lt. start_loop-fuel f g (λ n. writes (suc n)) rest (omega arith) (omega arith))
    ∙ sym (start_loop-round g writes s)

-- `recvStartMessage` is the recursion of the source, with no bound on its calls.
pub recv_start_message_unroll :
    (writes : ℕ → Written) (s : Bytes)
    → recv_start_message writes s
      ≡ start_round (writes 0) s (recv_start_message (λ n. writes (suc n)))
unfolding recv_start_message
recv_start_message_unroll writes s = rw add-one (
    start_loop-round (length s) writes s
    ∙ start_round_congr (writes 0) s (start_loop (length s) (λ n. writes (suc n)))
        (recv_start_message (λ n. writes (suc n)))
        (λ rest lt.
          start_loop-fuel (length s) (length rest + 1) (λ n. writes (suc n)) rest lt (omega arith)))
