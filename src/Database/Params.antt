-- ===== src/Database/Params.antt =====
-- potdb/db.go: the placeholders of a statement, and the id that `Insert` gives.
use passwd_pot.Common.{
  ℕ, zero, suc, ◌+◌, ◌<◌, ◌≤◌, ◌/◌, ◌==◌, ltb, Bytes, codes, itoa, emit, contains, has_prefix, true,
  false, [], ◌∷◌, ◌++◌, Option, none, some, Result, ok, err, if◌then◌else◌, length, ◌≡◌, ◌≢◌, ◌↔◌,
  refl, ap, sym, ◌∙◌, arith, Lacks, All-append, append_assoc, append-nil, Bool-cases, inl, inr,
}
use passwd_pot.Resolver.{Err}
use passwd_pot.Database.{
  replace_first, param, replace_loop, replace_params, Driver, inserted, insert,
}

-- Every question mark is replaced by a dollar sign and its number, counted from `n`.
unfoldable pub number : ℕ → Bytes → Bytes
number n [] = []
number n (c ∷ sql) =
    let marked = param n ++ number (n + 1) sql in
    let kept = c ∷ number n sql in if c == 63 then marked else kept

abbrev pub marks : Bytes → ℕ
marks [] = 0
marks (c ∷ sql) = if c == 63 then suc (marks sql) else marks sql

marks-length : (sql : Bytes) → marks sql ≤ length sql
marks-length [] = omega arith
marks-length (c ∷ sql) = ground (arith, marks-length sql)

emit-Lacks : (f n : ℕ) (out : Bytes) → Lacks 63 out → Lacks 63 (emit f n out)
unfolding emit
emit-Lacks zero n out h = h
emit-Lacks (suc f) n out h = elim (Bool-cases (ltb n 10)) [
  | inl small ↦ rw (small, emit) (ground arith, h)
  | inr large ↦ rw (large, emit) (emit-Lacks f (n / 10) _ (ground arith, h))
]

param-Lacks : (n : ℕ) → Lacks 63 (param n)
unfolding itoa
param-Lacks n = (omega arith, emit-Lacks (suc n) n [] tt)

contains-Lacks : (s : Bytes) → Lacks 63 s → contains s (63 ∷ []) ≡ false
unfolding contains has_prefix
contains-Lacks [] h = refl
contains-Lacks (c ∷ s) (hc, h) = ground (arith, contains-Lacks s h)

contains-append : (s t : Bytes) → contains (s ++ 63 ∷ t) (63 ∷ []) ≡ true
unfolding contains has_prefix
contains-append [] t = refl
contains-append (c ∷ s) t = ground (arith, contains-append s t)

replace_first-append :
    (new s t : Bytes) → Lacks 63 s → replace_first new (s ++ 63 ∷ t) ≡ s ++ (new ++ t)
unfolding replace_first
replace_first-append new [] t h = refl
replace_first-append new (c ∷ s) t (hc, h) = ground (arith, replace_first-append new s t h)

mark_char : (c : ℕ) → (c == 63) ≡ true → c ≡ 63
mark_char c h = ground arith

replace_round :
    (f n : ℕ) (done sql : Bytes)
    → Lacks 63 done
    → replace_loop (suc f) n (done ++ 63 ∷ sql) ≡ replace_loop f (n + 1) ((done ++ param n) ++ sql)
unfolding replace_loop
replace_round f n done sql h =
    rw (contains-append done sql, replace_loop)
      (rw (replace_first-append (param n) done sql h)
        (ap (replace_loop f (n + 1)) (sym (append_assoc done (param n) sql))))

replace_loop-number :
    (f n : ℕ) (done sql : Bytes)
    → Lacks 63 done
    → marks sql < f
    → replace_loop f n (done ++ sql) ≡ done ++ number n sql
unfolding number replace_loop
replace_loop-number zero n done sql h lt = absurd (omega arith)
replace_loop-number (suc f) n done [] h lt =
    rw append-nil (rw (contains-Lacks done h, replace_loop))
replace_loop-number (suc f) n done (c ∷ sql) h lt = elim (Bool-cases (c == 63)) [
  | inl is_mark ↦ rw (mark_char c is_mark) (
      replace_round f n done sql h
      ∙ replace_loop-number f (n + 1) (done ++ param n) sql
          (All-append (λ d. d ≢ 63) done (param n) h (param-Lacks n)) (ground (arith, is_mark))
      ∙ append_assoc done (param n) (number (n + 1) sql))
  | inr no_mark ↦
      ap (replace_loop (suc f) n) (sym (append_assoc done (c ∷ []) sql))
      ∙ replace_loop-number (suc f) n (done ++ c ∷ []) sql
          (All-append (λ d. d ≢ 63) done (c ∷ []) h (ground arith, tt)) (ground (arith, no_mark))
      ∙ append_assoc done (c ∷ []) (number n sql)
      ∙ rw (no_mark, number)
]

number-Lacks : (n : ℕ) (sql : Bytes) → Lacks 63 (number n sql)
unfolding number
number-Lacks n [] = tt
number-Lacks n (c ∷ sql) = elim (Bool-cases (c == 63)) [
  | inl is_mark ↦
      rw (is_mark, number)
        (All-append (λ d. d ≢ 63) (param n) (number (n + 1) sql) (param-Lacks n)
          (number-Lacks (n + 1) sql))
  | inr no_mark ↦ rw (no_mark, number) (ground arith, number-Lacks n sql)
]

-- For MySQL a statement stays as it is. For PostgreSQL the loop replaces every question mark by
-- "$1", "$2" and so on, from left to right, keeps all else, and leaves no question mark.
pub replace_params-number :
    (sql : Bytes)
    → (replace_params true sql ≡ sql)
      × (replace_params false sql ≡ number 1 sql)
      × Lacks 63 (replace_params false sql)
unfolding replace_params
replace_params-number sql =
    let numbered : replace_loop (length sql + 1) 1 sql ≡ number 1 sql =
      replace_loop-number (length sql + 1) 1 [] sql tt (omega (arith, marks-length sql)) in
    (refl, numbered, rw numbered (number-Lacks 1 sql))

inserted-row :
    (query : Bytes) (rows : Result Err (Option (Result Err ℕ))) (id : ℕ)
    → inserted query rows ≡ ok (ok id)
    → rows ≡ ok (some (ok id))
inserted-row query (err e) id h = cc
inserted-row query (ok none) id h = cc
inserted-row query (ok (some (err e))) id h = cc
inserted-row query (ok (some (ok i))) id h = cc

module _ {Args : Type 0} where
  -- An insert over PostgreSQL reports success exactly if the query with the numbered parameters
  -- and "RETURNING ID" gave a first row whose id could be read, and that is the id of its result.
  pub insert-row :
      (db : Driver Args) (query : Bytes) (args : Args) (id : ℕ)
      → (insert false db query args ≡ ok (ok id))
        ↔ (db.query (number 1 query ++ codes " RETURNING ID") args ≡ ok (some (ok id)))
  unfolding insert
  insert-row db query args id = rw (replace_params-number query).1 (inserted-row _ _ id, λ h. rw h)
