-- ===== src/Capture/Guesses.antt =====
-- From the guesses of a client of cmd/pop/pop.go or cmd/ftp/ftp.go to the batch of the relay.
use mathlib.Core.List.{Perm}
use passwd_pot.Common.{
  ℕ, ◌<◌, Bytes, List, [], ◌∷◌, map, some, true, false, ◌≡◌, ◌≢◌, refl, ap, ◌∙◌, All,
}
use passwd_pot.Api.{Event}
use passwd_pot.Pot.{
  Surroundings, Command, user, pass, quit_session, IsClean, render_command, ReadEnd, Outcome, eof,
  failed, Act,
}
use passwd_pot.Pot.Pop
use passwd_pot.Pot.Pop.Script as PopScript
use passwd_pot.Pot.Ftp
use passwd_pot.Pot.Ftp.Script as FtpScript
use passwd_pot.Proxy.{Queue, drain, max_batch_size}
use passwd_pot.Proxy.Batch.{total}
use passwd_pot.Capture.{Codec, Sender, state, Steps, guess}
use passwd_pot.Capture.Delivered.{captured, IsGuessText, drain-captured}

-- The logins that a client tries before it quits, from the user name that it gave last.
abbrev pub tried : Bytes → List Command → List (Bytes × Bytes)
tried u [] = []
tried u (user w ∷ cs) = tried w cs
tried u (pass w ∷ cs) = (u, w) ∷ tried u cs
tried u (quit_session ∷ cs) = []

pub guess-pop_event :
    (host port : Bytes) (w : Surroundings) (user password : Bytes) (e : Event)
    → Pop.send_event w user password (host ∷ port ∷ []) ≡ some e
    → guess e ≡ (user, password)
unfolding Pop.send_event
guess-pop_event host port w who password e h = cc

-- The senders of the two pots, for a remote address that has a port.
abbrev pub pop_sender : Bytes → Bytes → Sender
pop_sender host port = record {
  report = λ w user password params. Pop.send_event w user password (host ∷ port ∷ []);
  guess-report = λ w user password params e h. guess-pop_event host port w user password e h;
}

pub guess-ftp_event :
    (host port : Bytes) (w : Surroundings) (user password : Bytes) (e : Event)
    → Ftp.send_event w user password (host ∷ port ∷ []) ≡ some e
    → guess e ≡ (user, password)
unfolding Ftp.send_event
guess-ftp_event host port w who password e h = cc

abbrev pub ftp_sender : Bytes → Bytes → Sender
ftp_sender host port = record {
  report = λ w user password params. Ftp.send_event w user password (host ∷ port ∷ []);
  guess-report = λ w user password params e h. guess-ftp_event host port w user password e h;
}

captured-pop_end : (e : ReadEnd) → captured (Pop.at_end e).acts ≡ []
captured-pop_end eof = refl
captured-pop_end failed = refl

captured-pop :
    (e : ReadEnd) (u : Bytes) (cs : List Command)
    → captured (PopScript.answers e u cs).acts ≡ tried u cs
captured-pop e u [] = captured-pop_end e
captured-pop e u (user w ∷ cs) = captured-pop e w cs
captured-pop e u (pass w ∷ cs) = ap (λ gs. (u, w) ∷ gs) (captured-pop e u cs)
captured-pop e u (quit_session ∷ cs) = refl

captured-ftp_end : (e : ReadEnd) → captured (Ftp.at_end e).acts ≡ []
captured-ftp_end eof = refl
captured-ftp_end failed = refl

captured-ftp :
    (e : ReadEnd) (u : Bytes) (cs : List Command)
    → captured (FtpScript.answers (λ _. Ftp.at_end e) u cs).acts ≡ tried u cs
captured-ftp e u [] = captured-ftp_end e
captured-ftp e u (user w ∷ cs) = captured-ftp e w cs
captured-ftp e u (pass w ∷ cs) = ap (λ gs. (u, w) ∷ gs) (captured-ftp e u cs)
captured-ftp e u (quit_session ∷ cs) = refl

-- What the relay sends of a queue: the logins that the client tried, in some order.
abbrev pub SendsTried : (queue : Queue) (codec : Codec) → queue.Store → List Command → Type 0
SendsTried queue codec q cs =
    (es : List Event) × ((drain queue codec.decode q).0 ≡ some es)
    × Perm (map guess es) (tried [] cs)
    × (queue.items (drain queue codec.decode q).1 ≡ [])

module _ (queue : Queue) (codec : Codec) (host port : Bytes) (q q' : queue.Store) (n : ℕ)
    (takes : (v : Bytes) (r : queue.Store) → (queue.enqueue v r).0 ≡ true)
    (empty : queue.items q ≡ []) (fits : total (queue.items q') < max_batch_size)
    (cs : List Command) (clean : All IsClean cs) (text : All (IsGuessText codec) (tried [] cs))
    (some_one : tried [] cs ≢ []) where
  -- A session with some actions that capture what the client tried.
  sends-tried :
      (sender : Sender) (acts : List Act)
      → captured acts ≡ tried [] cs
      → Steps queue codec sender n
          (state queue codec sender acts [] q)
          (state queue codec sender [] [] q')
      → SendsTried queue codec q' cs
  sends-tried sender acts same run =
      let result =
        drain-captured queue codec sender acts q q' n takes empty (rw same text) (rw same some_one)
          run fits in
      rw same at result

  -- From a guess over POP3 to the batch: a client of the pot tries user names and passwords, words
  -- without blanks that JSON can carry, one at least; its address has a port; the queue of the relay
  -- was empty and takes every item, and the items are together shorter than the batch bound. Once
  -- the connection is over and its goroutines have posted, in whatever order, the next drain of the
  -- relay sends one batch, whose logins are exactly those that the client tried before its quit,
  -- each password with the user name before it and as often as it was tried.
  pub pop_tried :
      (e : ReadEnd)
      → Steps queue codec
          (pop_sender host port)
          n
          (state queue codec
            (pop_sender host port)
            (Pop.handle_connection e (PopScript.render cs)).acts
            []
            q)
          (state queue codec (pop_sender host port) [] [] q')
      → SendsTried queue codec q' cs
  pop_tried e run =
      sends-tried (pop_sender host port) _
        (ap (λ (o : Outcome). captured o.acts) (PopScript.handle_connection-render e cs clean)
          ∙ captured-pop e [] cs)
        run

  -- The same over FTP, where each line of the client arrives in a read of its own and no write
  -- fails: the next drain of the relay sends one batch, whose logins are exactly those that the
  -- client tried before its quit, in some order and as often as they were tried. The words have no
  -- blanks and JSON can carry them, there is one guess at least, the address has a port, the queue
  -- was empty and takes every item, and the items are together shorter than the batch bound.
  pub ftp_tried :
      (e : ReadEnd)
      → Steps queue codec
          (ftp_sender host port)
          n
          (state queue codec
            (ftp_sender host port)
            (Ftp.handle_connection false FtpScript.never e (map render_command cs)).acts
            []
            q)
          (state queue codec (ftp_sender host port) [] [] q')
      → SendsTried queue codec q' cs
  ftp_tried e run =
      sends-tried (ftp_sender host port) _
        (ap (λ (o : Outcome). captured o.acts)
            (FtpScript.handle_connection-render_command e cs clean)
          ∙ captured-ftp e [] cs)
        run
