-- ===== src/Pot/Ftp/Faults.antt =====
-- cmd/ftp/ftp.go: commands with no argument, and commands that arrive together.
use passwd_pot.Common.{
  ℕ, suc, ◌+◌, Bytes, codes, length, length-append, length-map, List, [], ◌∷◌, ◌++◌, map, ◌≡◌, ◌⊎◌,
  inl, inr, refl, ap, ◌∙◌, arith, bytes_eq, All, Bool, false, true, Lacks, sym,
}
use native.Mathlib.Numerals.{add-one}
use passwd_pot.Pot.{
  write, ReadEnd, Outcome, End, crashed, ◌▸◌, Command, user, pass, quit_session, IsClean, IsWord,
  render_command, crlf,
}
use passwd_pot.Pot.Ftp.{greeting, read_command, dispatch, serve, handle_connection}
use passwd_pot.Pot.Ftp.Steps.{serve-stop}
use passwd_pot.Pot.Ftp.Script.{never, answers, serve-render, read_command-chunk, read_command-verb}

-- A command that does not end the session.
abbrev pub IsAttempt : Command → Type 0
IsAttempt (user w) = IsWord w
IsAttempt (pass w) = IsWord w
IsAttempt quit_session = ⊥

IsAttempt-IsClean : (cs : List Command) → All IsAttempt cs → All IsClean cs
IsAttempt-IsClean [] h = tt
IsAttempt-IsClean (user w ∷ cs) (hw, h) = (hw, IsAttempt-IsClean cs h)
IsAttempt-IsClean (pass w ∷ cs) (hw, h) = (hw, IsAttempt-IsClean cs h)
IsAttempt-IsClean (quit_session ∷ cs) (hw, h) = absurd hw

answers-why :
    (after : Bytes → Outcome) (why : End) (u : Bytes) (cs : List Command)
    → ((v : Bytes) → (after v).why ≡ why)
    → All IsAttempt cs
    → (answers after u cs).why ≡ why
answers-why after why u [] ends h = ends u
answers-why after why u (user w ∷ cs) ends (hw, h) = answers-why after why w cs ends h
answers-why after why u (pass w ∷ cs) ends (hw, h) = answers-why after why u cs ends h
answers-why after why u (quit_session ∷ cs) ends (hw, h) = absurd hw

bare_verb :
    (f : ℕ) (e : ReadEnd) (verb : Bytes) (rest : List Bytes) (u : Bytes)
    → (verb ≡ codes "USER") ⊎ (verb ≡ codes "PASS")
    → (serve (suc f) never e ((verb ++ crlf) ∷ rest) u).why ≡ crashed
unfolding dispatch bytes_eq
bare_verb f e verb rest u (inl is_user) = rw is_user (
    ap (λ (o : Outcome). o.why)
      (serve-stop f never e _ u (codes "USER") [] rest _ crashed
        (read_command-verb (codes "USER") rest (omega arith)) refl))
bare_verb f e verb rest u (inr is_pass) = rw is_pass (
    ap (λ (o : Outcome). o.why)
      (serve-stop f never e _ u (codes "PASS") [] rest _ crashed
        (read_command-verb (codes "PASS") rest (omega arith)) refl))

-- A client crashes the pot: after any user names and passwords, a line that is just "USER" or
-- "PASS" makes the handler read the first of no arguments, whatever follows. Each line arrives in
-- a read of its own, and no write fails.
pub handle_connection-crashed :
    (e : ReadEnd) (cs : List Command) (verb : Bytes) (rest : List Bytes)
    → All IsAttempt cs
    → (verb ≡ codes "USER") ⊎ (verb ≡ codes "PASS")
    → (handle_connection false never e (map render_command cs ++ (verb ++ crlf) ∷ rest)).why
      ≡ crashed
unfolding handle_connection
handle_connection-crashed e cs verb rest h is_verb =
    ap (λ (o : Outcome). o.why)
      (serve-render _ (suc (length rest) + 1) e cs ((verb ++ crlf) ∷ rest) []
        (IsAttempt-IsClean cs h)
        (omega (
          arith,
          length-map cs render_command,
          length-append (map render_command cs) ((verb ++ crlf) ∷ rest),
        )))
    ∙ answers-why _ crashed [] cs
        (λ v. rw add-one (bare_verb (suc (length rest)) e verb rest v is_verb)) h

serve-read_command :
    (f : ℕ) (faults : ℕ → Bool) (e : ReadEnd) (xs ys : List Bytes) (u : Bytes)
    → read_command xs ≡ read_command ys
    → serve (suc f) faults e xs u ≡ serve (suc f) faults e ys u
unfolding serve
serve-read_command f faults e xs ys u h = rw (h, serve)

-- Commands that arrive in one read are lost, all but the first: whatever stands behind the first
-- newline of the first read, the session is the one in which it was not sent.
pub handle_connection-pipelined :
    (greeting_fault : Bool) (faults : ℕ → Bool) (e : ReadEnd) (line extra : Bytes)
    (rest : List Bytes)
    → Lacks 10 line
    → handle_connection greeting_fault faults e ((line ++ 10 ∷ extra) ∷ rest)
      ≡ handle_connection greeting_fault faults e ((line ++ 10 ∷ []) ∷ rest)
unfolding handle_connection
handle_connection-pipelined true faults e line extra rest h = refl
handle_connection-pipelined false faults e line extra rest h =
    ap (λ (o : Outcome). (write greeting ∷ []) ▸ o)
      (rw add-one (
        serve-read_command (suc (length rest)) faults e ((line ++ 10 ∷ extra) ∷ rest)
          ((line ++ 10 ∷ []) ∷ rest) []
          (read_command-chunk line extra rest h ∙ sym (read_command-chunk line [] rest h))))
