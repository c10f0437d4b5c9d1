-- ===== src/Pot/Ftp/Dialogue.antt =====
-- cmd/ftp/ftp.go against any client.
use passwd_pot.Common.{
  ℕ, ◌+◌, ◌<◌, Bytes, length, List, [], ◌∷◌, ◌≡◌, ◌≢◌, refl, Bool, true, false, arith, inl, ◌⊎◌,
}
use passwd_pot.Pot.{
  ReadEnd, eof, failed, Outcome, out_of_fuel, finish, Rounds, NeverAdmits, Rounds-append,
}
use passwd_pot.Pot.Ftp.Steps.{serve_rule}
use passwd_pot.Pot.Ftp.{
  un_authorized, user_ok, action_not_taken, greeting, dispatch, Next, go, stop, at_end, serve,
  handle_connection,
}

-- What the pot may write on its own: the greeting, the request for a password, and the refusal of
-- a command that it does not know.
abbrev pub Harmless : Bytes → Type 0
Harmless w = (w ≡ greeting) ⊎ ((w ≡ user_ok) ⊎ (w ≡ action_not_taken))

abbrev IsRound : Next → Type 0
IsRound (stop acts why) = Rounds Harmless un_authorized acts × (why ≢ out_of_fuel)
IsRound (go acts u) = Rounds Harmless un_authorized acts

dispatch-IsRound :
    (fault : Bool) (cmd : Bytes) (args : List Bytes) (u : Bytes)
    → IsRound (dispatch fault cmd args u)
unfolding dispatch
dispatch-IsRound fault cmd [] u = ground arith
dispatch-IsRound fault cmd (a ∷ args) u = ground arith

abbrev IsSafe : Outcome → Type 0
IsSafe o = NeverAdmits Harmless un_authorized o.acts × (o.why ≢ out_of_fuel)

at_end-IsSafe : (e : ReadEnd) → IsSafe (at_end e)
at_end-IsSafe eof = (tt, λ h. cc)
at_end-IsSafe failed = (tt, λ h. cc)

move {ℓ κ} : {A : Type ℓ} (P : A → Type κ) {a b : A} → a ≡ b → P a → P b
move P e h = rw e at h

serve-IsSafe :
    (f : ℕ) (faults : ℕ → Bool) (e : ReadEnd) (input : List Bytes) (u : Bytes)
    → length input < f
    → IsSafe (serve f faults e input u)
serve-IsSafe =
    serve_rule IsSafe at_end-IsSafe
      (λ fault cmd args u acts why halt.
        let fine : IsRound (stop acts why) =
          move IsRound halt (dispatch-IsRound fault cmd args u) in
        (Rounds-append Harmless un_authorized acts (finish why).acts fine.0 tt, fine.1))
      (λ fault cmd args u acts u' next o safe. (
        Rounds-append Harmless un_authorized acts o.acts
            (move IsRound next (dispatch-IsRound fault cmd args u)) safe.0,
        safe.1,
      ))

-- Whatever a client sends, however its bytes are cut into reads, and whichever writes fail: the
-- loop ends before its rounds are used up, every captured password is refused right behind the
-- capture, nothing else but the greeting, "331" and "550" is written, and the connection is closed
-- once, at the end.
pub handle_connection-faults-NeverAdmits :
    (greeting_fault : Bool) (faults : ℕ → Bool) (e : ReadEnd) (input : List Bytes)
    → NeverAdmits Harmless un_authorized (handle_connection greeting_fault faults e input).acts
      × ((handle_connection greeting_fault faults e input).why ≢ out_of_fuel)
unfolding handle_connection
handle_connection-faults-NeverAdmits true faults e input = ((inl refl, tt), λ h. cc)
handle_connection-faults-NeverAdmits false faults e input =
    let safe = serve-IsSafe (length input + 1) faults e input [] (omega arith) in
    ((inl refl, safe.0), safe.1)
