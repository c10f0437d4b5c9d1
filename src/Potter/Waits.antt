-- ===== src/Potter/Waits.antt =====
-- cmd/potter.go: the command returns when all of its pots have, and not before.
use passwd_pot.Common.{
  ℕ, zero, suc, ◌+◌, List, [], ◌∷◌, ◌++◌, none, ◌≡◌, ◌⊎◌, inl, inr, refl, sym, ap, ◌∙◌, arith,
  append-nil, append_assoc, Bool-cases, map, All,
}
use passwd_pot.Potter.{PotConfig, Worker, run_potter}
use passwd_pot.Potter.Group.{
  Task, fresh, serving, ended, Main, starting, added, waiting, returned, panicked, Group, group,
  done, IsAlive, runs, Step, adds, goes, waits, returns, listens, gives_up, stops, Reach, here,
  and_then, begun,
}

abbrev pub worker_of : Task → Worker
worker_of (fresh w) = w
worker_of (serving w) = w
worker_of (ended w) = w

abbrev pub IsEnded : Task → Type 0
IsEnded (ended w) = Unit
IsEnded _ = ⊥

abbrev pub Serves : List Task → Type 0
Serves [] = ⊥
Serves (serving w ∷ ts) = Unit
Serves (fresh w ∷ ts) = Serves ts
Serves (ended w ∷ ts) = Serves ts

abbrev one : Task → ℕ
one (ended w) = 0
one (fresh w) = 1
one (serving w) = 1

-- The goroutines that have not ended.
abbrev live : List Task → ℕ
live [] = 0
live (t ∷ ts) = one t + live ts

abbrev in_flight : Main → ℕ
in_flight (added w ws) = 1
in_flight _ = 0

-- The pots that `runPotter` has still to start.
abbrev pub left : Main → List Worker
left (starting ws) = ws
left (added w ws) = w ∷ ws
left _ = []

live-append : (xs ys : List Task) → live (xs ++ ys) ≡ live xs + live ys
live-append [] ys = omega arith
live-append (x ∷ xs) ys = omega (arith, live-append xs ys)

abbrev HasReturned : Main → Type 0
HasReturned returned = Unit
HasReturned _ = ⊥

abbrev IsPanicked : Main → Type 0
IsPanicked panicked = Unit
IsPanicked _ = ⊥

record Accounted (ws : List Worker) (g : Group) : Type 0 where
  counted : g.counter ≡ in_flight g.main + live g.tasks
  all_of : map worker_of g.tasks ++ left g.main ≡ ws
  zero_at_end : HasReturned g.main → g.counter ≡ 0
  not_panicked : ¬ (IsPanicked g.main)

map-append : (xs ys : List Task) → map worker_of (xs ++ ys) ≡ map worker_of xs ++ map worker_of ys
map-append [] ys = refl
map-append (x ∷ xs) ys = ap (λ zs. worker_of x ∷ zs) (map-append xs ys)

alive-left : (m : Main) → IsAlive m → ¬ (HasReturned m) × ¬ (IsPanicked m)
alive-left (starting ws) a = (λ h. h, λ h. h)
alive-left (added w ws) a = (λ h. h, λ h. h)
alive-left waiting a = (λ h. h, λ h. h)
alive-left returned a = absurd a
alive-left panicked a = absurd a

module _ (ws : List Worker) where
  -- A goroutine that was live ends.
  done-Accounted :
      (m : Main) (xs ys : List Task) (t : Task) (n : ℕ)
      → one t ≡ 1
      → IsAlive m
      → Accounted ws (group m (xs ++ t ∷ ys) n)
      → Accounted ws (done m (xs ++ ended (worker_of t) ∷ ys) n)
  done-Accounted m xs ys t zero is_live alive a =
      absurd (omega (arith, a.counted, live-append xs (t ∷ ys)))
  done-Accounted m xs ys t (suc n) is_live alive a = record {
    counted =
        omega
          (arith, a.counted, live-append xs (t ∷ ys), live-append xs (ended (worker_of t) ∷ ys));
    all_of =
        ap (λ zs. zs ++ left m)
          (map-append xs (ended (worker_of t) ∷ ys) ∙ sym (map-append xs (t ∷ ys)))
        ∙ a.all_of;
    zero_at_end = λ h. absurd ((alive-left m alive).0 h);
    not_panicked = (alive-left m alive).1;
  }

module _ (Conn : Type 0) where
  Step-Accounted :
      (ws : List Worker) {g h : Group} → Step Conn g h → Accounted ws g → Accounted ws h
  Step-Accounted ws (adds) a = record {
    counted = omega (arith, a.counted);
    all_of = a.all_of;
    zero_at_end = λ h. absurd h;
    not_panicked = λ h. h;
  }
  Step-Accounted ws (goes {w} {ws = us} {ts} {n}) a = record {
    counted = omega (arith, a.counted, live-append ts (fresh w ∷ []));
    all_of =
        ap (λ zs. zs ++ us) (map-append ts (fresh w ∷ []))
        ∙ append_assoc (map worker_of ts) (w ∷ []) us
        ∙ a.all_of;
    zero_at_end = λ h. absurd h;
    not_panicked = λ h. h;
  }
  Step-Accounted ws waits a = record {
    counted = a.counted;
    all_of = a.all_of;
    zero_at_end = λ h. absurd h;
    not_panicked = λ h. h;
  }
  Step-Accounted ws (returns e) a = record {
    counted = a.counted;
    all_of = a.all_of;
    zero_at_end = λ h. e;
    not_panicked = λ h. h;
  }
  Step-Accounted ws (listens {m} {n} xs ys w bind alive e) a = record {
    counted =
        omega (arith, a.counted, live-append xs (fresh w ∷ ys), live-append xs (serving w ∷ ys));
    all_of =
        ap (λ zs. zs ++ left m)
          (map-append xs (serving w ∷ ys) ∙ sym (map-append xs (fresh w ∷ ys)))
        ∙ a.all_of;
    zero_at_end = a.zero_at_end;
    not_panicked = a.not_panicked;
  }
  Step-Accounted ws (gives_up {m} {n} xs ys w bind alive e) a =
      done-Accounted ws m xs ys (fresh w) n refl alive a
  Step-Accounted ws (stops {m} {n} xs ys w alive e) a =
      done-Accounted ws m xs ys (serving w) n refl alive a

  Reach-Accounted :
      (ws : List Worker) (f g : Group) → Reach Conn f g → Accounted ws f → Accounted ws g
  Reach-Accounted ws f g here a = a
  Reach-Accounted ws f g (and_then {g = k} r st) a =
      Step-Accounted ws st (Reach-Accounted ws f k r a)

  -- What a list of goroutines lets one see: one that has not begun, one that serves, or that all
  -- have ended.
  abbrev Seen : List Task → Type 0
  Seen ts =
      ((xs : List Task) × (w : Worker) × (ys : List Task) × (ts ≡ xs ++ fresh w ∷ ys))
      ⊎ Serves ts
      ⊎ All IsEnded ts

  seen : (ts : List Task) → Seen ts
  seen [] = inr (inr tt)
  seen (fresh w ∷ ts) = inl ([], w, ts, refl)
  seen (serving w ∷ ts) = inr (inl tt)
  seen (ended w ∷ ts) = elim (seen ts) [
    | inl (xs, v, ys, e) ↦ inl (ended w ∷ xs, v, ys, ap (λ zs. ended w ∷ zs) e)
    | inr (inl s) ↦ inr (inl s)
    | inr (inr a) ↦ inr (inr (tt, a))
  ]

  IsEnded-live : (ts : List Task) → All IsEnded ts → live ts ≡ 0
  IsEnded-live [] h = refl
  IsEnded-live (ended w ∷ ts) (h, hs) = omega (arith, IsEnded-live ts hs)
  IsEnded-live (fresh w ∷ ts) (h, hs) = absurd h
  IsEnded-live (serving w ∷ ts) (h, hs) = absurd h

  live-IsEnded : (ts : List Task) → live ts ≡ 0 → All IsEnded ts
  live-IsEnded [] h = tt
  live-IsEnded (ended w ∷ ts) h = (tt, live-IsEnded ts (omega (arith, h)))
  live-IsEnded (fresh w ∷ ts) h = absurd (omega (arith, h))
  live-IsEnded (serving w ∷ ts) h = absurd (omega (arith, h))

  -- The command has returned, or some pot serves, or there is another step.
  abbrev pub GoesOn : Group → Type 0
  GoesOn g = (g.main ≡ returned) ⊎ Serves g.tasks ⊎ ((h : Group) × Step Conn g h)

  begins :
      (m : Main) (ts xs ys : List Task) (w : Worker) (n : ℕ)
      → IsAlive m
      → ts ≡ xs ++ fresh w ∷ ys
      → (h : Group) × Step Conn (group m ts n) h
  begins m ts xs ys w n alive e = elim (Bool-cases (runs Conn w (λ a. none))) [
    | inl stays ↦ rw e (_, listens xs ys w (λ a. none) alive stays)
    | inr back ↦ rw e (_, gives_up xs ys w (λ a. none) alive back)
  ]

  any-GoesOn :
      (m : Main) (ts : List Task) (n : ℕ)
      → n ≡ in_flight m + live ts
      → ¬ (IsPanicked m)
      → GoesOn (group m ts n)
  any-GoesOn (starting []) ts n c p = inr (inr (_, waits))
  any-GoesOn (starting (w ∷ ws)) ts n c p = inr (inr (_, adds))
  any-GoesOn (added w ws) ts n c p = inr (inr (_, goes))
  any-GoesOn waiting ts n c p = elim (seen ts) [
    | inl (xs, w, ys, e) ↦ inr (inr (begins waiting ts xs ys w n tt e))
    | inr (inl s) ↦ inr (inl s)
    | inr (inr a) ↦ inr (inr (_, returns (omega (arith, c, IsEnded-live ts a))))
  ]
  any-GoesOn returned ts n c p = inl refl
  any-GoesOn panicked ts n c p = absurd (p tt)

  -- The command returns exactly when its pots have. However the goroutines take turns, and whatever
  -- addresses can be bound at what moment: the wait group never panics; the pots that were started
  -- and those still to come are those of the configuration, in order; when the command returns,
  -- every pot was started and has ended; and until then a pot serves or there is another step.
  pub Reach-Waits :
      (config : PotConfig) (g : Group)
      → Reach Conn (begun config) g
      → ¬ (g.main ≡ panicked)
        × (map worker_of g.tasks ++ left g.main ≡ run_potter config)
        × (g.main ≡ returned → (map worker_of g.tasks ≡ run_potter config) × All IsEnded g.tasks)
        × GoesOn g
  Reach-Waits config g r =
      let a = Reach-Accounted (run_potter config) (begun config) g r (record {
        counted = refl;
        all_of = refl;
        zero_at_end = λ h. absurd h;
        not_panicked = λ h. h;
      }) in
      (
        λ e. a.not_panicked (rw e tt),
        a.all_of,
        λ e. (
          sym (append-nil (map worker_of g.tasks)) ∙ rw e at a.all_of,
          live-IsEnded g.tasks (omega (arith, a.counted, a.zero_at_end (rw e tt))),
        ),
        any-GoesOn g.main g.tasks g.counter a.counted a.not_panicked,
      )
