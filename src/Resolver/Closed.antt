-- ===== src/Resolver/Closed.antt =====
-- resolver/resolve.go: what holds of the calls behind `resolveAddr` and `ResolveEvent`, for a
-- predicate that every further call keeps.
use passwd_pot.Common.{
  ℕ, ℤ, Bytes, Bool, true, false, List, [], ◌∷◌, Option, none, some, Result, ok, err, ◌≡◌, ◌≢◌,
  refl, sym, ap, ◌∙◌, Bool-cases, Result-cases, inl, inr,
}
use passwd_pot.Api.{Event}
use passwd_pot.Cache.{ConcurrentMap}
use passwd_pot.Resolver.{
  Err, History, Env, Call, select_geo, get_location, insert_geo, touch_geo, mark_event, Row, found,
  no_rows, row_error, World, insert_row, add_location, touched, renew_location, known_addr, by_row,
  resolve_addr, mark, id_of, error_of, resolve_event, resolve_both,
}
use passwd_pot.Resolver.Location.{Geo, before, equals}
use passwd_pot.Resolver.Shared.{both_cached, resolve_event-both}
use passwd_pot.Resolver.Kept.{no_errors, resolve_addr-keeps}

-- A predicate on the calls that says of an id and an address that there is such a row.
pub record HoldsRows (env : Env) (P : ℕ → Bytes → History → Type 0) : Type 0 where
  pub lasts : (n : ℕ) (a : Bytes) (c : Call) (h : History) → P n a h → P n a (c ∷ h)
  pub selects : (a : Bytes) (g : Geo) (h : History) → env.select h a ≡ found g → P g.id a h
  pub inserts :
      (g : Geo) (n : ℕ) (h : History) → env.insert h g ≡ ok (ok n) → P n g.ip (insert_geo g ∷ h)
  pub locates : (a : Bytes) (g : Geo) (h : History) → env.locate h a ≡ ok g → g.ip ≡ a

-- The ids that `ResolveEvent` returns where the cache does not have both and nothing fails: of
-- rows of the two addresses of the event.
abbrev pub BothHeld :
    (ℕ → Bytes → History → Type 0) → Event → (List ℕ × List Err) × History → Type 0
BothHeld P event ((r ∷ o ∷ [], errs), h) =
    P r (known_addr event.remote_addr) h × P o (known_addr event.origin_addr) h
BothHeld P event _ = ⊥

module _ (env : Env) (P : ℕ → Bytes → History → Type 0) (rows : HoldsRows env P) where
  -- What a result with an id says.
  abbrev pub Holds : Bytes → Result Err ℕ × History → Type 0
  Holds a (err e, h) = Unit
  Holds a (ok n, h) = P n a h

  insert_row-Holds : (a : Bytes) (g : Geo) (h : History) → g.ip ≡ a → Holds a (insert_row env g h)
  unfolding insert_row
  insert_row-Holds a g h ip = elim (Result-cases (env.insert h g)) [
    | inr (x, e) ↦ rw (e, insert_row) tt
    | inl (res, e) ↦ elim (Result-cases res) [
      | inr (x, bad) ↦ rw (e, insert_row) (rw bad tt)
      | inl (n, good) ↦
          rw (e, insert_row) (rw good (rw (sym ip) (rows.inserts g n h (e ∙ ap ok good))))
    ]
  ]

  touched-Holds :
      (a : Bytes) (n : ℕ) (fails : Option Err) (h : History)
      → P n a h
      → Holds a (touched n fails, h)
  unfolding touched
  touched-Holds a n none h p = p
  touched-Holds a n (some e) h p = tt

  add_location-Holds : (a : Bytes) (h : History) → Holds a (add_location env a h)
  unfolding add_location
  add_location-Holds a h = elim (Result-cases (env.locate h a)) [
    | inr (x, e) ↦ rw (e, add_location) tt
    | inl (g, e) ↦
        rw (e, add_location) (insert_row-Holds a g (get_location a ∷ h) (rows.locates a g h e))
  ]

  renew_location-Holds :
      (geo : Geo) (a : Bytes) (h : History) → P geo.id a h → Holds a (renew_location env geo a h)
  unfolding renew_location
  renew_location-Holds geo a h p =
      let h' = get_location a ∷ h in
      elim (Result-cases (env.locate h a)) [
        | inr (x, e) ↦ rw (e, renew_location) tt
        | inl (g, e) ↦ elim (Bool-cases (equals geo g)) [
          | inl same ↦
              rw (e, renew_location)
                (rw same (
                  touched-Holds a geo.id (env.touch h' geo.id) (touch_geo geo.id ∷ h') (
                    rows.lasts geo.id a (touch_geo geo.id) h'
                      (rows.lasts geo.id a (get_location a) h p))))
          | inr moved ↦
              rw (e, renew_location) (rw moved (insert_row-Holds a g h' (rows.locates a g h e)))
        ]
      ]

  by_row-Holds :
      (a : Bytes) (expire : ℤ) (row : Row) (h : History)
      → ((g : Geo) → row ≡ found g → P g.id a h)
      → Holds a (by_row env a expire row h)
  unfolding by_row
  by_row-Holds a expire (row_error e) h p = tt
  by_row-Holds a expire no_rows h p = add_location-Holds a h
  by_row-Holds a expire (found geo) h p = elim (Bool-cases (before geo.last_update expire)) [
    | inl old ↦ rw (old, by_row) (renew_location-Holds geo a h (p geo refl))
    | inr fresh ↦ rw (fresh, by_row) (p geo refl)
  ]

  pub resolve_addr-Holds :
      (addr : Bytes) (h : History) → Holds (known_addr addr) (resolve_addr env addr h)
  unfolding resolve_addr
  resolve_addr-Holds addr h =
      let a = known_addr addr in
      by_row-Holds a (env.expire h) (env.select h a) (select_geo a ∷ h)
        (λ g e. rows.lasts g.id a (select_geo a) h (rows.selects a g h e))

  Holds-id :
      (a : Bytes) (r : Result Err ℕ) (h : History)
      → error_of r ≡ none
      → Holds a (r, h)
      → P (id_of r) a h
  Holds-id a (ok n) h e p = p
  Holds-id a (err x) h e p = absurd (cc)

  module _ (cm : ConcurrentMap) where
    resolve_both-BothHeld :
        (use_cache : Bool) (event : Event) (w : World cm)
        → (resolve_both cm use_cache env event w).0.1 ≡ []
        → BothHeld P event (
          (resolve_both cm use_cache env event w).0,
          (resolve_both cm use_cache env event w).1.calls,
        )
    unfolding resolve_both mark
    resolve_both-BothHeld use_cache event w quiet =
        let r1 = resolve_addr env event.remote_addr w.calls in
        let m1 = mark env event.id (id_of r1.0) true r1.1 in
        let r2 = resolve_addr env event.origin_addr m1.1 in
        let m2 = mark env event.id (id_of r2.0) false r2.1 in
        let (fine1, marked1, fine2, marked2) =
          no_errors (error_of r1.0) m1.0 (error_of r2.0) m2.0 quiet in
        let a = known_addr event.remote_addr in
        let b = known_addr event.origin_addr in
        let held = Holds-id a r1.0 r1.1 fine1 (resolve_addr-Holds event.remote_addr w.calls) in
        let n = id_of r1.0 in
        (
          rows.lasts n a (mark_event false (id_of r2.0) event.id) r2.1 (
              resolve_addr-keeps env (P n a) (λ c h l p. rows.lasts n a c h p) event.origin_addr
                m1.1 (rows.lasts n a (mark_event true n event.id) r1.1 held)),
          rows.lasts (id_of r2.0) b (mark_event false (id_of r2.0) event.id) r2.1
              (Holds-id b r2.0 r2.1 fine2 (resolve_addr-Holds event.origin_addr m1.1)),
        )

    pub resolve_event-BothHeld :
        (event : Event) (w : World cm)
        → event.id ≢ 0
        → both_cached cm event w ≡ false
        → (resolve_event cm true env event w).0.1 ≡ []
        → BothHeld P event
            ((resolve_event cm true env event w).0, (resolve_event cm true env event w).1.calls)
    resolve_event-BothHeld event w positive not_cached quiet =
        let both = resolve_event-both cm env event w positive not_cached in
        rw both (resolve_both-BothHeld true event w (rw both at quiet))
