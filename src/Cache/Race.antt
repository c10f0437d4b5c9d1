-- ===== src/Cache/Race.antt =====
-- cache/cache.go, `Get` while other goroutines use the cache: `NewCache` starts one that clears it
-- every 48 hours. Only the operations of the concurrent map are atomic.
use passwd_pot.Common.{
  ℕ, Bytes, Bool, true, false, List, [], ◌∷◌, none, some, ◌≡◌, ◌≢◌, refl, sym, arith, Option-cases,
  inl, inr,
}
use passwd_pot.Cache.{ConcurrentMap, get, clear, remove_all}
use passwd_pot.Cache.Laws.{get-some, clear-none}

module _ (cm : ConcurrentMap) where
  -- A goroutine in `Get`: not yet there, between `Has` and `Get` of the map, back with a result, or
  -- dead at the type assertion on a nil value. `returned` keeps the map of the last access.
  pub data Reader : Type 0 where
    idle : Reader
    checked : Bytes → Reader
    returned : Bytes → cm.Map → ℕ × Bool → Reader
    panicked : Reader

  -- The goroutine of `startCleanupTimer`: in its sleep, or in `Clear` with the keys that are left of
  -- those that `IterBuffered` handed out.
  pub data Cleaner : Type 0 where
    asleep : Cleaner
    clearing : List Bytes → Cleaner

  pub record State : Type 0 where
    pub cache : cm.Map
    pub reader : Reader
    pub cleaner : Cleaner

  abbrev pub state : cm.Map → Reader → Cleaner → State
  state m r c = record { cache = m; reader = r; cleaner = c }

  -- One atomic step of any goroutine. `removes` is whether keys are ever taken out.
  pub data Step (removes : Bool) : State → State → Type 0 where
    has_not :
        {m : cm.Map} {c : Cleaner} (k : Bytes)
        → cm.has k m ≡ false
        → Step removes (state m idle c) (state m (returned k m (0, false)) c)
    has :
        {m : cm.Map} {c : Cleaner} (k : Bytes)
        → cm.has k m ≡ true
        → Step removes (state m idle c) (state m (checked k) c)
    reads :
        {m : cm.Map} {c : Cleaner} (k : Bytes) (v : ℕ)
        → cm.get k m ≡ some v
        → Step removes (state m (checked k) c) (state m (returned k m (v, true)) c)
    asserts_nil :
        {m : cm.Map} {c : Cleaner} (k : Bytes)
        → cm.get k m ≡ none
        → Step removes (state m (checked k) c) (state m panicked c)
    sets :
        {m : cm.Map} {r : Reader} {c : Cleaner} (k : Bytes) (v : ℕ)
        → Step removes (state m r c) (state (cm.set k v m) r c)
    deletes :
        {m : cm.Map} {r : Reader} {c : Cleaner} (k : Bytes)
        → removes ≡ true
        → Step removes (state m r c) (state (cm.remove k m) r c)
    wakes :
        {m : cm.Map} {r : Reader}
        → removes ≡ true
        → Step removes (state m r asleep) (state m r (clearing (cm.keys m)))
    clears :
        {m : cm.Map} {r : Reader} (k : Bytes) (ks : List Bytes)
        → removes ≡ true
        → Step removes (state m r (clearing (k ∷ ks))) (state (cm.remove k m) r (clearing ks))
    sleeps : {m : cm.Map} {r : Reader} → Step removes (state m r (clearing [])) (state m r asleep)

  pub data Reach (removes : Bool) : State → State → Type 0 where
    here : {s : State} → Reach removes s s
    and_then : {s t u : State} → Reach removes s t → Step removes t u → Reach removes s u

  abbrev pub Consistent : cm.Map → Reader → Type 0
  Consistent m idle = Unit
  Consistent m (checked k) = cm.has k m ≡ true
  Consistent m (returned k m' r) = r ≡ get cm k m'
  Consistent m panicked = ⊥

  set-Consistent :
      (m : cm.Map) (r : Reader) (k : Bytes) (v : ℕ) → Consistent m r → Consistent (cm.set k v m) r
  set-Consistent m idle k v h = tt
  set-Consistent m (checked j) k v h =
      ground (arith, cm.get-set k j v m, cm.has-get j m, cm.has-get j (cm.set k v m))
  set-Consistent m (returned j m' r) k v h = h
  set-Consistent m panicked k v h = h

  Step-Consistent :
      {s t : State} → Step false s t → Consistent s.cache s.reader → Consistent t.cache t.reader
  unfolding get
  Step-Consistent (has_not {m} k e) h = rw e refl
  Step-Consistent (has k e) h = e
  Step-Consistent (reads {m} k v e) h = sym (get-some cm k m v e)
  Step-Consistent (asserts_nil {m} k e) h = ground (arith, cm.has-get k m)
  Step-Consistent (sets {m} {r} k v) h = set-Consistent m r k v h
  Step-Consistent (deletes k e) h = absurd (ground (arith, e))
  Step-Consistent (wakes e) h = absurd (ground (arith, e))
  Step-Consistent (clears k ks e) h = absurd (ground (arith, e))
  Step-Consistent sleeps h = h

  -- While no key is ever removed, whatever other goroutines set in between, `Get` does not panic,
  -- and what it returns is what it would return if it were atomic, at the moment of its last access
  -- to the map.
  pub Reach-Consistent :
      (m : cm.Map) (s : State) → Reach false (state m idle asleep) s → Consistent s.cache s.reader
  Reach-Consistent m s here = tt
  Reach-Consistent m s (and_then {t = t} r st) = Step-Consistent st (Reach-Consistent m t r)

  clears_all :
      (ks : List Bytes) {m : cm.Map} {s : State} (r : Reader)
      → Reach true s (state m r (clearing ks))
      → Reach true s (state (remove_all cm ks m) r (clearing []))
  unfolding remove_all
  clears_all [] r run = run
  clears_all (k ∷ ks) r run = clears_all ks r (and_then run (clears k ks refl))

  -- With the goroutine that clears the cache, `Get` can panic at any key that is there: the key is
  -- seen, the cache is cleared, and the second look-up finds nothing.
  pub Reach-panicked :
      (m : cm.Map) (k : Bytes)
      → cm.get k m ≢ none
      → (s : State) × Reach true (state m idle asleep) s × (s.reader ≡ panicked)
  unfolding clear
  Reach-panicked m k h =
      let seen : cm.has k m ≡ true = elim (Option-cases (cm.get k m)) [
        | inl e ↦ absurd (h e)
        | inr (v, e) ↦ ground (arith, cm.has-get k m)
      ] in
      (
        state (clear cm m) panicked (clearing []),
        and_then
            (clears_all (cm.keys m) (checked k)
              (and_then (and_then here (has k seen)) (wakes refl)))
            (asserts_nil k (clear-none cm k m)),
        refl,
      )
