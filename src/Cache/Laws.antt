-- ===== src/Cache/Laws.antt =====
-- What the operations of cache/cache.go mean for a later look-up.
use passwd_pot.Common.{
  ℕ, Bytes, bytes_eq, bytes_eq_iff, true, false, List, [], ◌∷◌, none, some, ◌≡◌, inl, inr, arith,
  if◌then◌else◌, Option-cases,
}
use passwd_pot.Cache.{ConcurrentMap, Listed, set, get, delete, remove_all, clear, new_cache}

module _ (cm : ConcurrentMap) where
  pub get-some : (k : Bytes) (m : cm.Map) (v : ℕ) → cm.get k m ≡ some v → get cm k m ≡ (v, true)
  unfolding get
  get-some k m v h = ground (arith, cm.has-get k m)

  pub get-none : (k : Bytes) (m : cm.Map) → cm.get k m ≡ none → get cm k m ≡ (0, false)
  unfolding get
  get-none k m h = ground (arith, cm.has-get k m)

  pub get-set_self : (k : Bytes) (v : ℕ) (m : cm.Map) → get cm k (set cm k v m) ≡ (v, true)
  unfolding set
  get-set_self k v m =
      get-some k (cm.set k v m) v (ground (arith, cm.get-set k k v m, bytes_eq_iff k k))

  pub get-set :
      (k j : Bytes) (v : ℕ) (m : cm.Map)
      → get cm j (set cm k v m) ≡ (if bytes_eq k j then (v, true) else get cm j m)
  unfolding set get
  get-set k j v m = ground (arith, cm.get-set k j v m, cm.has-get j m, cm.has-get j (cm.set k v m))

  get-remove_all-none :
      (ks : List Bytes) (j : Bytes) (m : cm.Map)
      → cm.get j m ≡ none
      → cm.get j (remove_all cm ks m) ≡ none
  unfolding remove_all
  get-remove_all-none [] j m h = h
  get-remove_all-none (k ∷ ks) j m h =
      get-remove_all-none ks j (cm.remove k m) (ground (arith, cm.get-remove k j m))

  get-remove_all :
      (ks : List Bytes) (j : Bytes) (m : cm.Map)
      → Listed j ks
      → cm.get j (remove_all cm ks m) ≡ none
  unfolding remove_all
  get-remove_all [] j m h = absurd h
  get-remove_all (k ∷ ks) j m (inl e) =
      get-remove_all-none ks j (cm.remove k m)
        (ground (arith, cm.get-remove k j m, bytes_eq_iff k j))
  get-remove_all (k ∷ ks) j m (inr h) = get-remove_all ks j (cm.remove k m) h

  pub clear-none : (j : Bytes) (m : cm.Map) → cm.get j (clear cm m) ≡ none
  unfolding clear
  clear-none j m = elim (Option-cases (cm.get j m)) [
    | inl e ↦ get-remove_all-none (cm.keys m) j m e
    | inr (v, e) ↦ get-remove_all (cm.keys m) j m (cm.keys-get j m (λ n. cc))
  ]

  get-delete :
      (k j : Bytes) (m : cm.Map)
      → get cm j (delete cm k m) ≡ (if bytes_eq k j then (0, false) else get cm j m)
  unfolding delete get
  get-delete k j m =
      ground (arith, cm.get-remove k j m, cm.has-get j m, cm.has-get j (cm.remove k m))

  -- A look-up after each operation, at every key: what was set is found and nothing else changes;
  -- what was deleted is gone and nothing else changes; after a clear nothing is left. A key that is
  -- not there reads as 0 and false.
  pub get_after :
      (k j : Bytes) (v : ℕ) (m : cm.Map)
      → (get cm j (set cm k v m) ≡ (if bytes_eq k j then (v, true) else get cm j m))
        × (get cm j (delete cm k m) ≡ (if bytes_eq k j then (0, false) else get cm j m))
        × (get cm j (clear cm m) ≡ (0, false))
        × (get cm j (new_cache cm) ≡ (0, false))
  unfolding new_cache
  get_after k j v m = (
    get-set k j v m,
    get-delete k j m,
    get-none j (clear cm m) (clear-none j m),
    get-none j cm.empty (cm.get-empty j),
  )
