-- ===== src/Cache/Memory.antt =====
-- An association list is a map as cache/cache.go wants one.
use passwd_pot.Common.{
  ℕ, Bytes, bytes_eq, bytes_eq_iff, Assoc, lookup, insert, without, lookup-insert, lookup-without,
  List, [], ◌∷◌, none, ◌≡◌, ◌≢◌, inl, inr, refl, Bool-cases,
}
use passwd_pot.Cache.{ConcurrentMap, Listed, is_some}

abbrev pub keys : Assoc ℕ → List Bytes
keys [] = []
keys ((k, v) ∷ m) = k ∷ keys m

pub keys-lookup : (k : Bytes) (m : Assoc ℕ) → lookup k m ≢ none → Listed k (keys m)
unfolding lookup
keys-lookup k [] h = h refl
keys-lookup k ((j, v) ∷ m) h = elim (Bool-cases (bytes_eq j k)) [
  | inl e ↦ inl ((bytes_eq_iff j k).0 e)
  | inr e ↦ inr (keys-lookup k m (λ n. h (rw e n)))
]

pub get-empty : (k : Bytes) → lookup {V = ℕ} k [] ≡ none
unfolding lookup
get-empty k = refl

abbrev pub memory : ConcurrentMap
memory = record {
  Map = Assoc ℕ;
  empty = [];
  set = insert;
  get = lookup;
  has = λ k m. is_some (lookup k m);
  remove = without;
  keys = keys;
  get-empty = get-empty;
  get-set = lookup-insert;
  get-remove = lookup-without;
  has-get = λ k m. refl;
  keys-get = keys-lookup;
}
