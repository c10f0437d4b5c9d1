-- ===== src/Cache.antt =====
-- cache/cache.go: the cache of geo ids over a concurrent map, which a third-party package gives.
pub mod Laws
pub mod Memory
pub mod Race
mod Tests
use passwd_pot.Common.{
  ℕ, Bytes, bytes_eq, Bool, true, false, List, [], ◌∷◌, Option, none, some, ◌≡◌, ◌≢◌, ◌⊎◌,
  if◌then◌else◌,
}

abbrev pub Listed : Bytes → List Bytes → Type 0
Listed k [] = ⊥
Listed k (j ∷ js) = (j ≡ k) ⊎ Listed k js

abbrev pub is_some : Option ℕ → Bool
is_some none = false
is_some (some _) = true

-- `cmap.ConcurrentMap`, whose operations are atomic, and what its documentation says of them.
-- `keys` is what `IterBuffered` hands out.
pub record ConcurrentMap : Type 1 where
  pub Map : Type 0
  pub empty : Map
  pub set : Bytes → ℕ → Map → Map
  pub get : Bytes → Map → Option ℕ
  pub has : Bytes → Map → Bool
  pub remove : Bytes → Map → Map
  pub keys : Map → List Bytes
  pub get-empty : (k : Bytes) → get k empty ≡ none
  pub get-set :
      (k j : Bytes) (v : ℕ) (m : Map)
      → get j (set k v m) ≡ (if bytes_eq k j then some v else get j m)
  pub get-remove :
      (k j : Bytes) (m : Map) → get j (remove k m) ≡ (if bytes_eq k j then none else get j m)
  pub has-get : (k : Bytes) (m : Map) → has k m ≡ is_some (get k m)
  pub keys-get : (k : Bytes) (m : Map) → get k m ≢ none → Listed k (keys m)

abbrev or_zero : Option ℕ → ℕ
or_zero none = 0
or_zero (some v) = v

module _ (cm : ConcurrentMap) where
  unfoldable pub set : Bytes → ℕ → cm.Map → cm.Map
  set key value cache = cm.set key value cache

  -- The value and whether it is there. The key is looked up twice; here no other goroutine removes
  -- it in between.
  unfoldable pub get : Bytes → cm.Map → ℕ × Bool
  get key cache = if cm.has key cache then (or_zero (cm.get key cache), true) else (0, false)

  unfoldable pub delete : Bytes → cm.Map → cm.Map
  delete key cache = cm.remove key cache

  unfoldable pub remove_all : List Bytes → cm.Map → cm.Map
  remove_all [] cache = cache
  remove_all (k ∷ ks) cache = remove_all ks (cm.remove k cache)

  unfoldable pub clear : cm.Map → cm.Map
  unfolding remove_all
  clear cache = remove_all (cm.keys cache) cache

  unfoldable pub new_cache : cm.Map
  new_cache = cm.empty
