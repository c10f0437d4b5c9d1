-- ===== src/Pot/Ftp/Script.antt =====
-- cmd/ftp/ftp.go against a client that sends one command at a time.
use passwd_pot.Common.{
  ℕ, zero, suc, ◌+◌, Bytes, codes, length, List, [], ◌∷◌, ◌++◌, map, some, ◌≡◌, refl, ap, ◌∙◌,
  arith, bytes_eq, All, Bool, false, append-nil, Lacks, sym, length-map,
}
use passwd_pot.Common.Strings.Laws.{cut-append}
use native.Mathlib.Nat.{zero-add}
use passwd_pot.Pot.{
  words, word_line-Lacks, line_of_whole, verb_whole, verb-Lacks, write, spawn, ReadEnd, Outcome,
  quit, finish, ◌▸◌, Command, user, pass, quit_session, IsClean, render_command, IsWord,
  IsWord-bytes, line_of, crlf, words-line_of, words-verb,
}
use passwd_pot.Pot.Ftp.{
  un_authorized, user_ok, greeting, get_command, read_command, dispatch, go, stop, at_end, serve,
  handle_connection,
}
use passwd_pot.Pot.Ftp.Steps.{serve-go, serve-stop}

abbrev pub never : ℕ → Bool
never n = false

-- What the pot promises: each user name gets "331", each password is captured with the last user
-- name and refused. `after` is what happens once the commands are used up.
abbrev pub answers : (Bytes → Outcome) → Bytes → List Command → Outcome
answers after u [] = after u
answers after u (user w ∷ cs) = (write user_ok ∷ []) ▸ answers after w cs
answers after u (pass w ∷ cs) = (spawn u w [] ∷ write un_authorized ∷ []) ▸ answers after u cs
answers after u (quit_session ∷ cs) = finish quit

-- A read that holds a newline is one command: what the read returned behind the newline is lost.
pub read_command-chunk :
    (line extra : Bytes) (rest : List Bytes)
    → Lacks 10 line
    → read_command ((line ++ 10 ∷ extra) ∷ rest)
      ≡ some ((get_command (line ++ 10 ∷ [])).0, (get_command (line ++ 10 ∷ [])).1, rest)
unfolding read_command
read_command-chunk line extra rest h = rw (cut-append 10 line extra h, read_command)

read_command-line :
    (line text : Bytes) (rest : List Bytes) (cmd : Bytes) (args : List Bytes)
    → text ≡ line ++ 10 ∷ []
    → Lacks 10 line
    → words text ≡ cmd ∷ args
    → read_command (text ∷ rest) ≡ some (cmd, args, rest)
unfolding get_command
read_command-line line text rest cmd args e h w =
    let at_newline : words (line ++ 10 ∷ []) ≡ cmd ∷ args = rw (← e) w in
    rw e (read_command-chunk line [] rest h ∙ rw (at_newline, get_command))

read_command-line_of :
    (verb word : Bytes) (rest : List Bytes)
    → IsWord verb
    → IsWord word
    → read_command (line_of verb word ∷ rest) ≡ some (verb, word ∷ [], rest)
read_command-line_of verb word rest hv hw =
    read_command-line _ _ rest verb (word ∷ []) (line_of_whole verb word)
      (word_line-Lacks verb word (IsWord-bytes verb hv) (IsWord-bytes word hw))
      (words-line_of verb word hv hw)

pub read_command-verb :
    (verb : Bytes) (rest : List Bytes)
    → IsWord verb
    → read_command ((verb ++ crlf) ∷ rest) ≡ some (verb, [], rest)
read_command-verb verb rest hv =
    read_command-line _ _ rest verb [] (verb_whole verb) (verb-Lacks verb (IsWord-bytes verb hv))
      (words-verb verb hv)

dispatch-user : (w u : Bytes) → dispatch false (codes "USER") (w ∷ []) u ≡ go (write user_ok ∷ []) w
unfolding dispatch bytes_eq
dispatch-user w u = refl

dispatch-pass :
    (w u : Bytes)
    → dispatch false (codes "PASS") (w ∷ []) u ≡ go (spawn u w [] ∷ write un_authorized ∷ []) u
unfolding dispatch bytes_eq
dispatch-pass w u = refl

dispatch-quit : (u : Bytes) → dispatch false (codes "QUIT") [] u ≡ stop [] quit
unfolding dispatch bytes_eq
dispatch-quit u = refl

pub serve-render :
    (f g : ℕ) (e : ReadEnd) (cs : List Command) (tail : List Bytes) (u : Bytes)
    → All IsClean cs
    → f ≡ length cs + g
    → serve f never e (map render_command cs ++ tail) u ≡ answers (λ u. serve g never e tail u) u cs
serve-render f g e [] tail u h fuel = rw fuel (rw zero-add)
serve-render zero g e (c ∷ cs) tail u h fuel = absurd (omega arith)
serve-render (suc f) g e (user w ∷ cs) tail u (hw, h) fuel =
    serve-go f never e _ u _ _ (map render_command cs ++ tail) _ w
      (read_command-line_of (codes "USER") w _ (omega arith) hw) (dispatch-user w u)
    ∙ ap (λ (o : Outcome). (write user_ok ∷ []) ▸ o) (serve-render f g e cs tail w h (omega arith))
serve-render (suc f) g e (pass w ∷ cs) tail u (hw, h) fuel =
    serve-go f never e _ u _ _ (map render_command cs ++ tail) _ u
      (read_command-line_of (codes "PASS") w _ (omega arith) hw) (dispatch-pass w u)
    ∙ ap (λ (o : Outcome). (spawn u w [] ∷ write un_authorized ∷ []) ▸ o)
        (serve-render f g e cs tail u h (omega arith))
serve-render (suc f) g e (quit_session ∷ cs) tail u h fuel =
    serve-stop f never e _ u _ _ (map render_command cs ++ tail) [] quit
      (read_command-verb (codes "QUIT") _ (omega arith)) (dispatch-quit u)

-- Against a client whose every line "USER w", "PASS w" or "QUIT", each w a word with no blank,
-- arrives in a read of its own, and where no write fails, the pot does exactly this: it greets, asks
-- for a password behind each user name, captures each password with the user name before it and
-- refuses it, and closes at the quit or at the end of the stream.
pub handle_connection-render_command :
    (e : ReadEnd) (cs : List Command)
    → All IsClean cs
    → handle_connection false never e (map render_command cs)
      ≡ (write greeting ∷ []) ▸ answers (λ u. at_end e) [] cs
unfolding handle_connection
handle_connection-render_command e cs h =
    ap (λ (o : Outcome). (write greeting ∷ []) ▸ o)
      (ap (λ (input : List Bytes). serve (length (map render_command cs) + 1) never e input [])
          (sym (append-nil (map render_command cs)))
        ∙ serve-render _ 1 e cs [] [] h (omega (arith, length-map cs render_command)))
