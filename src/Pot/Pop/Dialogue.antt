-- ===== src/Pot/Pop/Dialogue.antt =====
-- cmd/pop/pop.go against any client.
use passwd_pot.Common.{ℕ, ◌+◌, ◌<◌, Bytes, length, List, [], ◌≡◌, refl, arith, inl, ◌⊎◌}
use passwd_pot.Pot.{Act, ReadEnd, eof, failed, Outcome, Rounds, NeverAdmits, Rounds-append, Returns}
use passwd_pot.Pot.Pop.Steps.{serve_rule}
use passwd_pot.Pot.Pop.{
  hello_msg, ok_msg, un_auth_msg, handle_line, Next, go, stop, at_end, serve, handle_connection,
}

-- What the pot may write on its own: the greeting and the welcome of a user name.
abbrev pub Harmless : Bytes → Type 0
Harmless w = (w ≡ hello_msg) ⊎ (w ≡ ok_msg)

abbrev IsRound : Next → Type 0
IsRound stop = Unit
IsRound (go acts u p) = Rounds Harmless un_auth_msg acts

handle_line-IsRound : (line u p : Bytes) → IsRound (handle_line line u p)
unfolding handle_line
handle_line-IsRound line u p = ground arith

-- A session that ended by itself and in which the pot admits nobody.
abbrev IsSafe : Outcome → Type 0
IsSafe o = NeverAdmits Harmless un_auth_msg o.acts × Returns o.why

at_end-IsSafe : (e : ReadEnd) → IsSafe (at_end e)
at_end-IsSafe eof = (tt, tt)
at_end-IsSafe failed = (tt, tt)

go-Rounds :
    (n : Next) (acts : List Act) (u p : Bytes)
    → n ≡ go acts u p
    → IsRound n
    → Rounds Harmless un_auth_msg acts
go-Rounds n acts u p e h = rw e at h

serve-IsSafe :
    (f : ℕ) (e : ReadEnd) (input u p : Bytes) → length input < f → IsSafe (serve f e input u p)
serve-IsSafe =
    serve_rule IsSafe at_end-IsSafe (tt, tt)
      λ line u p acts u' p' next o safe. (
        Rounds-append Harmless un_auth_msg acts o.acts
            (go-Rounds _ acts u' p' next (handle_line-IsRound line u p)) safe.0,
        safe.1,
      )

-- Whatever bytes a client sends, and however its stream ends, the session ends by a quit or by the
-- end of the stream, every captured password is refused right behind the capture, nothing else
-- but the greeting and "+OK" is written, and the connection is closed once, at the end.
pub handle_connection-NeverAdmits :
    (e : ReadEnd) (input : Bytes)
    → NeverAdmits Harmless un_auth_msg (handle_connection e input).acts
      × Returns (handle_connection e input).why
unfolding handle_connection
handle_connection-NeverAdmits e input =
    let safe = serve-IsSafe (length input + 1) e input [] [] (omega arith) in
    ((inl refl, safe.0), safe.1)
