-- ===== src/Proxy/Account.antt =====
-- cmd/proxy.go: where every item goes that `Drain` takes from the queue when it sends a batch.
use mathlib.Core.Option.{none-ne-some}
use passwd_pot.Common.{
  ◌∙◌, ℕ, ◌+◌, ◌<◌, ◌≤◌, ltb, Bytes, List, [], ◌∷◌, ◌++◌, Option, some, ◌≡◌, ◌⊎◌, inl, inr, refl,
  ap, length, arith, Bool-cases, Option-cases, sym, ◌∙◌,
}
use passwd_pot.Api.{Event}
use passwd_pot.Proxy.{
  max_batch_size, Collected, batch, undecodable, out_of_fuel, keep, to_send, Queue, drain,
}
use passwd_pot.Proxy.Batch.{total, take_batch, Decodes, drain-take_batch}

module _ (decode : Bytes → Option Event) where
  -- The items before, the items behind and the events sent, from a buffer that holds `size` bytes.
  pub record Accounts (size : ℕ) (before left : List Bytes) (es : List Event) : Type 0 where
    pub taken : List Bytes
    pub lost : List Bytes
    pub parts : before ≡ taken ++ (lost ++ left)
    pub events : Decodes decode taken es
    pub fits : size + total taken ≤ max_batch_size
    pub at_most_one : length lost ≤ 1
    pub why_lost : (lost ≡ []) ⊎ (max_batch_size < size + total taken + total lost)

  abbrev pub AccountsFor : ℕ → List Bytes → Collected × List Bytes → Type 0
  AccountsFor size before (batch es, left) = Accounts size before left es
  AccountsFor size before (undecodable, left) = Unit
  AccountsFor size before (out_of_fuel, left) = Unit

  stop-Accounts : (size : ℕ) (vs : List Bytes) → size ≤ max_batch_size → Accounts size vs vs []
  stop-Accounts size vs h = record {
    taken = [];
    lost = [];
    parts = refl;
    events = tt;
    fits = omega arith;
    at_most_one = omega arith;
    why_lost = inl refl;
  }

  keep-AccountsFor :
      (size : ℕ) (v : Bytes) (vs : List Bytes) (e : Event) (c : Collected) (left : List Bytes)
      → decode v ≡ some e
      → AccountsFor (size + length v) vs (c, left)
      → AccountsFor size (v ∷ vs) (keep e c, left)
  keep-AccountsFor size v vs e (batch es) left h a = record {
    taken = v ∷ a.taken;
    lost = a.lost;
    parts = ap (λ (ws : List Bytes). v ∷ ws) a.parts;
    events = (h, a.events);
    fits = omega (arith, a.fits);
    at_most_one = a.at_most_one;
    why_lost = ground (arith, a.why_lost);
  }
  keep-AccountsFor size v vs e undecodable left h a = tt
  keep-AccountsFor size v vs e out_of_fuel left h a = tt

  take_batch-AccountsFor :
      (size : ℕ) (vs : List Bytes)
      → size ≤ max_batch_size
      → AccountsFor size vs (take_batch decode size vs)
  unfolding take_batch
  take_batch-AccountsFor size [] h = stop-Accounts size [] h
  take_batch-AccountsFor size (v ∷ vs) h = elim (Bool-cases (ltb size max_batch_size)) [
    | inr full ↦ rw (full, take_batch) (stop-Accounts size (v ∷ vs) h)
    | inl room ↦ elim (Bool-cases (ltb max_batch_size (size + length v))) [
      | inl over ↦
          rw (room, take_batch)
            (rw over (record {
              taken = [];
              lost = v ∷ [];
              parts = refl;
              events = tt;
              fits = omega arith;
              at_most_one = omega arith;
              why_lost = inr (ground arith);
            }))
      | inr fits ↦ elim (Option-cases (decode v)) [
        | inl bad ↦ rw (room, take_batch) (rw (fits, bad) tt)
        | inr (e, good) ↦
            rw (room, take_batch)
              (rw (fits, good)
                (keep-AccountsFor size v vs e (take_batch decode (size + length v) vs).0
                  (take_batch decode (size + length v) vs).1 good
                  (take_batch-AccountsFor (size + length v) vs (ground arith))))
      ]
    ]
  ]

  sent-Accounts :
      (vs left : List Bytes) (c : Collected) (es : List Event)
      → to_send c ≡ some es
      → AccountsFor 0 vs (c, left)
      → Accounts 0 vs left es
  sent-Accounts vs left (batch []) es h a = absurd (none-ne-some es h)
  sent-Accounts vs left (batch (e ∷ es')) es h a = let same : (e ∷ es') ≡ es = cc in rw same at a
  sent-Accounts vs left undecodable es h a = absurd (none-ne-some es h)
  sent-Accounts vs left out_of_fuel es h a = absurd (none-ne-some es h)

  -- When a drain sends a batch, it took the items of the queue from the front: first those that are
  -- the events of the batch, in order, together no longer than the batch bound; then at most one
  -- that is lost, and only if it would have passed the bound; all the rest stay as they were.
  pub drain-Accounts :
      (queue : Queue) (q : queue.Store) (es : List Event)
      → (drain queue decode q).0 ≡ some es
      → Accounts 0 (queue.items q) (queue.items (drain queue decode q).1) es
  drain-Accounts queue q es h =
      let (sent, left) = drain-take_batch decode queue q in
      rw left (
        sent-Accounts (queue.items q) (take_batch decode 0 (queue.items q)).1
          (take_batch decode 0 (queue.items q)).0 es (sym sent ∙ h)
          (take_batch-AccountsFor 0 (queue.items q) (omega arith)))
