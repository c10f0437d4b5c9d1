-- ===== src/Lambda/Shared.antt =====
-- Tables in memory, as the handlers of aws/lambda/events.go and the resolver share them.
use passwd_pot.Common.{
  ℕ, zero, suc, ◌+◌, ◌==◌, pos, Bytes, bytes_eq, bytes_eq_iff, false, if◌then◌else◌, List, [], ◌∷◌,
  ◌++◌, length, get_elem?, Option, none, some, Option-cases, Result, ok, ◌≡◌, refl, sym, ◌∙◌, ap,
  arith, Bool-cases, inl, inr,
}
use passwd_pot.Resolver.{Err, Row, found, no_rows}
use passwd_pot.Resolver.Location.{Geo}
use passwd_pot.Recorder.Columns.{Column, Value}
use passwd_pot.Recorder.Memory.{Memory, numbered, update_row, memory_tables}
use passwd_pot.Lambda.Stores.{Schema}
use passwd_pot.Lambda.Located.{HasAddr, Lasting}

-- The first row of an address, behind `i` others.
abbrev pub search : Bytes → List Geo → ℕ → Row
search addr [] i = no_rows
search addr (g ∷ gs) i =
    if bytes_eq g.ip addr then found (record g { id = suc i }) else search addr gs (suc i)

-- The n-th row with a new time; the clock stands still.
abbrev pub stamp : ℕ → List Geo → List Geo
stamp n [] = []
stamp zero (g ∷ gs) = record g { last_update = pos 2 } ∷ gs
stamp (suc n) (g ∷ gs) = g ∷ stamp n gs

abbrev pub touch_row : ℕ → Memory → Option Err × Memory
touch_row zero s = (none, s)
touch_row (suc n) s = (none, record s { geos = stamp n s.geos })

abbrev pub insert_location : Geo → Memory → Result Err (Result Err ℕ) × Memory
insert_location g s = (ok (ok (suc (length s.geos))), record s { geos = s.geos ++ g ∷ [] })

pub update_row-other :
    (c : Column) (v : Value) (m n : ℕ) (s : Memory)
    → (m == n) ≡ false
    → (update_row c v m s).1.events n ≡ s.events n
update_row-other c v m n s other = ground (arith, other)

pub touch_row-event : (id : ℕ) (s : Memory) (n : ℕ) → (touch_row id s).1.events n ≡ s.events n
touch_row-event zero s n = refl
touch_row-event (suc id) s n = refl

abbrev pub memory_schema : Schema
memory_schema = record {
  tables = memory_tables;
  select = λ addr s. search addr s.geos 0;
  insert_location = insert_location;
  touch = touch_row;
  event-insert_location = λ g s n. refl;
  event-touch = touch_row-event;
  event-update-other = update_row-other;
}

get_elem?-append :
    (xs ys : List Geo) (k : ℕ) (g : Geo) → get_elem? xs k ≡ some g → get_elem? (xs ++ ys) k ≡ some g
get_elem?-append [] ys k g e = absurd (cc)
get_elem?-append (x ∷ xs) ys zero g e = e
get_elem?-append (x ∷ xs) ys (suc k) g e = get_elem?-append xs ys k g e

get_elem?-last : (xs : List Geo) (g : Geo) → get_elem? (xs ++ g ∷ []) (length xs) ≡ some g
get_elem?-last [] g = refl
get_elem?-last (x ∷ xs) g = get_elem?-last xs g

get_elem?-stamp :
    (xs : List Geo) (j k : ℕ) (g : Geo)
    → get_elem? xs k ≡ some g
    → (g' : Geo) × (get_elem? (stamp j xs) k ≡ some g') × (g'.ip ≡ g.ip)
get_elem?-stamp [] j k g e = absurd (cc)
get_elem?-stamp (x ∷ xs) zero zero g e =
    let same : x ≡ g = cc in (record x { last_update = pos 2 }, refl, ap (λ (y : Geo). y.ip) same)
get_elem?-stamp (x ∷ xs) zero (suc k) g e = (g, e, refl)
get_elem?-stamp (x ∷ xs) (suc j) zero g e = (g, e, refl)
get_elem?-stamp (x ∷ xs) (suc j) (suc k) g e = get_elem?-stamp xs j k g e

get_elem?-search :
    (addr : Bytes) (xs : List Geo) (i : ℕ) (g : Geo)
    → search addr xs i ≡ found g
    → (k : ℕ) × (x : Geo) × (g.id ≡ suc (i + k)) × (get_elem? xs k ≡ some x) × (x.ip ≡ addr)
get_elem?-search addr [] i g e = absurd (cc)
get_elem?-search addr (x ∷ xs) i g e = elim (Bool-cases (bytes_eq x.ip addr)) [
  | inl here ↦
      let e' = rw here at e in
      let same : record x { id = suc i } ≡ g = cc in
      (
        zero,
        x,
        sym (ap (λ (y : Geo). y.id) same) ∙ omega arith,
        refl,
        ground (arith, bytes_eq_iff x.ip addr, here),
      )
  | inr there ↦
      let e' = rw there at e in
      let (k, y, id, at, ip) = get_elem?-search addr xs (suc i) g e' in
      (suc k, y, omega (arith, id), at, ip)
]

-- A row in the list, as a row under its id.
has_row :
    (k : ℕ) (addr : Bytes) (x : Geo) (s : Memory)
    → get_elem? s.geos k ≡ some x
    → x.ip ≡ addr
    → HasAddr memory_schema (suc k) addr s
has_row k addr x s e ip = record {
  row = record x { id = suc k };
  at = ap (numbered (suc k)) e;
  same_ip = ip;
}

row_of :
    (n : ℕ) (addr : Bytes) (s : Memory)
    → HasAddr memory_schema n addr s
    → (k : ℕ) × (x : Geo) × (n ≡ suc k) × (get_elem? s.geos k ≡ some x) × (x.ip ≡ addr)
row_of zero addr s h = absurd (let e = h.at in cc)
row_of (suc k) addr s h = elim (Option-cases (get_elem? s.geos k)) [
  | inl e ↦ absurd (let e' = rw e at h.at in cc)
  | inr (x, e) ↦
      let e' = rw e at h.at in
      let same : record x { id = suc k } ≡ h.row = cc in
      (k, x, refl, e, ap (λ (y : Geo). y.ip) same ∙ h.same_ip)
]

select-has :
    (a : Bytes) (g : Geo) (s : Memory)
    → search a s.geos 0 ≡ found g
    → HasAddr memory_schema g.id a s
select-has a g s e =
    let (k, x, id, at, ip) = get_elem?-search a s.geos 0 g e in
    let n : g.id ≡ suc k = omega (arith, id) in rw n (has_row k a x s at ip)

insert-has :
    (g : Geo) (n : ℕ) (s : Memory)
    → (insert_location g s).0 ≡ ok (ok n)
    → HasAddr memory_schema n g.ip (insert_location g s).1
insert-has g n s e =
    let same : suc (length s.geos) ≡ n = cc in
    rw (sym same)
      (has_row (length s.geos) g.ip g (insert_location g s).1 (get_elem?-last s.geos g) refl)

insert-keeps :
    (g : Geo) (n : ℕ) (a : Bytes) (s : Memory)
    → HasAddr memory_schema n a s
    → HasAddr memory_schema n a (insert_location g s).1
insert-keeps g n a s h =
    let (k, x, id, at, ip) = row_of n a s h in
    rw id (has_row k a x (insert_location g s).1 (get_elem?-append s.geos (g ∷ []) k x at) ip)

touch-keeps :
    (id n : ℕ) (a : Bytes) (s : Memory)
    → HasAddr memory_schema n a s
    → HasAddr memory_schema n a (touch_row id s).1
touch-keeps zero n a s h = h
touch-keeps (suc j) n a s h =
    let (k, x, id, at, ip) = row_of n a s h in
    let (x', at', ip') = get_elem?-stamp s.geos j k x at in
    rw id (has_row k a x' (touch_row (suc j) s).1 at' (ip' ∙ ip))

update-keeps :
    (c : Column) (v : Value) (m n : ℕ) (a : Bytes) (s : Memory)
    → HasAddr memory_schema n a s
    → HasAddr memory_schema n a (update_row c v m s).1
update-keeps c v m n a s h = record { row = h.row; at = h.at; same_ip = h.same_ip }

pub memory-Lasting : Lasting memory_schema
memory-Lasting = record {
  select-HasAddr = select-has;
  insert-HasAddr = insert-has;
  insert-kept = insert-keeps;
  touch-kept = touch-keeps;
  update-kept = update-keeps;
}
