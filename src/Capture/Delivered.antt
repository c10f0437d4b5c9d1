-- ===== src/Capture/Delivered.antt =====
-- From the actions of a connection to the batch of the relay.
use mathlib.Core.List.Perm
use mathlib.Core.Path.{subst}
use mathlib.Core.List.{Perm, perm_middle, map-append, cons-ne-nil}
use passwd_pot.Common.{
  ℕ, ◌<◌, Bytes, List, [], ◌∷◌, ◌++◌, map, some, true, ◌≡◌, ◌≢◌, refl, sym, ap, All, All-split,
  All-append, append_assoc, append-nil, arith,
}
use passwd_pot.Api.{Event}
use passwd_pot.Pot.{Act, write, spawn, close}
use passwd_pot.Proxy.{Queue, drain, max_batch_size}
use passwd_pot.Proxy.Batch.{Decodes, total}
use passwd_pot.Proxy.Delivery.{drain_all}
use passwd_pot.Proxy.InOrder.{Decodes-append}
use passwd_pot.Proxy.Relay.{serve_http-whole}
use passwd_pot.Capture.{
  Codec, Sender, State, state, Step, writes, closes, spawns, posts, Steps, here, and_then, guess,
}

-- The logins that a connection captures.
abbrev pub captured : List Act → List (Bytes × Bytes)
captured [] = []
captured (write _ ∷ acts) = captured acts
captured (close ∷ acts) = captured acts
captured (spawn user password _ ∷ acts) = (user, password) ∷ captured acts

-- An element that moves from the middle of a list to the end of the one before it.
perm_moved {ℓ} :
    {A : Type ℓ} (front xs ys back : List A) (x : A)
    → Perm ((front ++ x ∷ []) ++ ((xs ++ ys) ++ back)) (front ++ ((xs ++ x ∷ ys) ++ back))
perm_moved front xs ys back x = rw (append_assoc front (x ∷ []) ((xs ++ ys) ++ back)) (
    rw (append_assoc xs ys back) (
      rw (append_assoc xs (x ∷ ys) back)
        (Perm.append_left front (Perm.symm (perm_middle xs (ys ++ back))))))

-- JSON carries both strings of a login.
abbrev pub IsGuessText : Codec → Bytes × Bytes → Type 0
IsGuessText codec (user, password) = codec.IsText user × codec.IsText password

module _ (queue : Queue) (codec : Codec) (sender : Sender) where
  -- The items of the queue are events whose logins, with those of the goroutines and those still to
  -- be captured, are `logins`, in any order.
  pub record Kept (logins : List (Bytes × Bytes)) (s : State queue codec sender) : Type 0 where
    pub events : List Event
    pub decodes : Decodes codec.decode (queue.items s.q) events
    pub flying_text : All (λ e. IsGuessText codec (guess e)) s.in_flight
    pub acts_text : All (IsGuessText codec) (captured s.acts)
    pub same : Perm (map guess events ++ (map guess s.in_flight ++ captured s.acts)) logins

  flying-snoc :
      (es : List Event) (acts : List Act) (g : Bytes × Bytes) (e : Event)
      → guess e ≡ g
      → map guess (es ++ e ∷ []) ++ captured acts ≡ map guess es ++ (g ∷ captured acts)
  flying-snoc [] acts g e h = ap (λ (x : Bytes × Bytes). x ∷ captured acts) h
  flying-snoc (e' ∷ es) acts g e h = ap (λ gs. guess e' ∷ gs) (flying-snoc es acts g e h)

  Step-Kept :
      (logins : List (Bytes × Bytes)) (s t : State queue codec sender)
      → ((v : Bytes) (q : queue.Store) → (queue.enqueue v q).0 ≡ true)
      → Step queue codec sender s t
      → Kept logins s
      → Kept logins t
  Step-Kept logins s t takes (writes b) k = record {
    events = k.events;
    decodes = k.decodes;
    flying_text = k.flying_text;
    acts_text = k.acts_text;
    same = k.same;
  }
  Step-Kept logins s t takes closes k = record {
    events = k.events;
    decodes = k.decodes;
    flying_text = k.flying_text;
    acts_text = k.acts_text;
    same = k.same;
  }
  Step-Kept logins s t takes (spawns {acts} {es} w user password params e h) k = record {
    events = k.events;
    decodes = k.decodes;
    flying_text =
        All-append (λ e. IsGuessText codec (guess e)) es (e ∷ []) k.flying_text
          (
            subst (IsGuessText codec) (sym (sender.guess-report w user password params e h))
                k.acts_text.0,
            tt,
          );
    acts_text = k.acts_text.1;
    same =
        rw (flying-snoc es acts (user, password) e (sender.guess-report w user password params e h))
          k.same;
  }
  Step-Kept logins s t takes (posts {acts} {q} es fs e) k =
      let (text_es, (text_e, text_fs)) =
        All-split (λ e. IsGuessText codec (guess e)) es (e ∷ fs) k.flying_text in
      let (e', back, same_guess) = codec.decode-encode e text_e.0 text_e.1 in
      let put : queue.items (queue.enqueue (codec.encode e) q).1
          ≡ queue.items q ++ codec.encode e ∷ [] =
        ground (arith, queue.items-enqueue (codec.encode e) q, takes (codec.encode e) q) in
      rw (serve_http-whole queue (codec.encode e) q) (record {
        events = k.events ++ e' ∷ [];
        decodes = rw put (
            Decodes-append codec.decode (queue.items q) (codec.encode e ∷ []) k.events (e' ∷ [])
              k.decodes (back, tt));
        flying_text = All-append (λ e. IsGuessText codec (guess e)) es fs text_es text_fs;
        acts_text = k.acts_text;
        same =
            rw (map-append guess k.events (e' ∷ []), same_guess, map-append guess es fs)
              (let old = rw (map-append guess es (e ∷ fs)) at k.same in
                Perm.trans
                  (perm_moved (map guess k.events) (map guess es) (map guess fs) (captured acts)
                    (guess e))
                  old);
      })

  Steps-Kept :
      (acts : List Act) (q : queue.Store) (s : State queue codec sender) (n : ℕ)
      → ((v : Bytes) (r : queue.Store) → (queue.enqueue v r).0 ≡ true)
      → queue.items q ≡ []
      → All (IsGuessText codec) (captured acts)
      → Steps queue codec sender n (state queue codec sender acts [] q) s
      → Kept (captured acts) s
  Steps-Kept acts q s n takes empty text here = record {
    events = [];
    decodes = rw empty tt;
    flying_text = tt;
    acts_text = text;
    same = Perm.refl (captured acts);
  }
  Steps-Kept acts q s n takes empty text (and_then {n = m} {t = t} r st) =
      Step-Kept (captured acts) t s takes st (Steps-Kept acts q t m takes empty text r)

  some_login :
      (es : List Event) (logins : List (Bytes × Bytes))
      → Perm (map guess es) logins
      → logins ≢ []
      → es ≢ []
  some_login [] logins same some_one h = some_one (sym (Perm.nil-eq same))
  some_login (e ∷ es) logins same some_one h = cons-ne-nil e es h

  -- Once a connection is over and all its goroutines have posted, the next drain of the relay sends
  -- one batch, and the logins of its events are the captured ones, each as often as it was captured,
  -- in some order; the queue is empty behind it. The queue was empty before the connection and
  -- takes every item, the strings of the logins are such that JSON carries them, there is a login,
  -- and the items are together shorter than the batch bound.
  pub drain-captured :
      (acts : List Act) (q q' : queue.Store) (n : ℕ)
      → ((v : Bytes) (r : queue.Store) → (queue.enqueue v r).0 ≡ true)
      → queue.items q ≡ []
      → All (IsGuessText codec) (captured acts)
      → captured acts ≢ []
      → Steps queue codec sender n
          (state queue codec sender acts [] q)
          (state queue codec sender [] [] q')
      → total (queue.items q') < max_batch_size
      → (es : List Event) × ((drain queue codec.decode q').0 ≡ some es)
        × Perm (map guess es) (captured acts)
        × (queue.items (drain queue codec.decode q').1 ≡ [])
  drain-captured acts q q' n takes empty text some_one run fits =
      let k = Steps-Kept acts q (state queue codec sender [] [] q') n takes empty text run in
      let same = rw append-nil at k.same in
      let (sent, left) =
        drain_all queue codec.decode (queue.items q') k.events q' refl k.decodes
          (some_login k.events (captured acts) same some_one) fits in
      (k.events, sent, same, left)
