-- ===== src/Pot/Pop/Script.antt =====
-- cmd/pop/pop.go against a client that follows a script: what the pot answers and captures.
use passwd_pot.Common.{
  ℕ, zero, suc, ◌+◌, ◌<◌, Bytes, codes, length, List, [], ◌∷◌, ◌++◌, ◌≡◌, refl, ap, ◌∙◌, arith,
  length-append, bytes_eq, All, bytes_eq,
}
use passwd_pot.Pot.{
  Command, user, pass, quit_session, IsClean, render_command, IsWord-bytes, write, spawn, ReadEnd,
  Outcome, quit, finish, ◌▸◌, words, IsWord, line_of, crlf, words-line_of, read_string-line_of,
  read_string-verb,
}
use passwd_pot.Pot.Pop.Steps.{serve-go, serve-stop}
use passwd_pot.Pot.Pop.{
  hello_msg, ok_msg, un_auth_msg, get_command, handle_line, go, stop, at_end, serve,
  handle_connection,
}

abbrev pub render : List Command → Bytes
render [] = []
render (c ∷ cs) = render_command c ++ render cs

-- What the pot promises: each user name is welcomed, each password is captured with the last user
-- name and refused.
abbrev pub answers : ReadEnd → Bytes → List Command → Outcome
answers e u [] = at_end e
answers e u (user w ∷ cs) = (write ok_msg ∷ []) ▸ answers e w cs
answers e u (pass w ∷ cs) = (spawn u w [] ∷ write un_auth_msg ∷ []) ▸ answers e u cs
answers e u (quit_session ∷ cs) = finish quit

handle_line-user :
    (w u p : Bytes)
    → IsWord w
    → handle_line (line_of (codes "USER") w) u p ≡ go (write ok_msg ∷ []) w p
unfolding handle_line bytes_eq
handle_line-user w u p h = rw (words-line_of (codes "USER") w (omega arith) h, get_command)

handle_line-pass :
    (w u p : Bytes)
    → IsWord w
    → handle_line (line_of (codes "PASS") w) u p ≡ go (spawn u w [] ∷ write un_auth_msg ∷ []) u w
unfolding handle_line bytes_eq
handle_line-pass w u p h = rw (words-line_of (codes "PASS") w (omega arith) h, get_command)

handle_line-quit : (u p : Bytes) → handle_line (codes "QUIT" ++ crlf) u p ≡ stop
unfolding handle_line bytes_eq words
handle_line-quit u p = refl

serve-render :
    (f : ℕ) (e : ReadEnd) (cs : List Command) (u p : Bytes)
    → All IsClean cs
    → length (render cs) < f
    → serve f e (render cs) u p ≡ answers e u cs
serve-render zero e cs u p h lt = absurd (omega arith)
serve-render (suc f) e [] u p h lt = unfold serve in refl
serve-render (suc f) e (user w ∷ cs) u p (hw, h) lt =
    serve-go f e _ u p _ (render cs) _ w p
      (read_string-line_of (codes "USER") w (render cs) (omega arith) (IsWord-bytes w hw))
      (handle_line-user w u p hw)
    ∙ ap (λ (o : Outcome). (write ok_msg ∷ []) ▸ o)
        (serve-render f e cs w p h (omega (arith, length-append (w ++ crlf) (render cs))))
serve-render (suc f) e (pass w ∷ cs) u p (hw, h) lt =
    serve-go f e _ u p _ (render cs) _ u w
      (read_string-line_of (codes "PASS") w (render cs) (omega arith) (IsWord-bytes w hw))
      (handle_line-pass w u p hw)
    ∙ ap (λ (o : Outcome). (spawn u w [] ∷ write un_auth_msg ∷ []) ▸ o)
        (serve-render f e cs u w h (omega (arith, length-append (w ++ crlf) (render cs))))
serve-render (suc f) e (quit_session ∷ cs) u p h lt =
    serve-stop f e _ u p _ (render cs) (read_string-verb (codes "QUIT") (render cs) (omega arith))
      (handle_line-quit u p)

-- Against a client that sends lines "USER w", "PASS w" and "QUIT", each w a word with no blank,
-- the pot does exactly this: it greets, welcomes each user name, captures each password with the
-- user name before it and refuses it, and closes at the quit or at the end of the stream.
pub handle_connection-render :
    (e : ReadEnd) (cs : List Command)
    → All IsClean cs
    → handle_connection e (render cs) ≡ (write hello_msg ∷ []) ▸ answers e [] cs
unfolding handle_connection
handle_connection-render e cs h =
    ap (λ (o : Outcome). (write hello_msg ∷ []) ▸ o)
      (serve-render (length (render cs) + 1) e cs [] [] h (omega arith))
