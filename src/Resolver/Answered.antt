-- ===== src/Resolver/Answered.antt =====
-- resolver/resolve.go and resolver/geoipc.go: where the rows of the table `geo` come from.
use passwd_pot.Common.{
  ℕ, ℤ, Bytes, Bool, true, false, [], ◌∷◌, ok, ◌≡◌, refl, inl, inr, Bool-cases, Result-cases, ◌&&◌,
  ◌==◌, ltb,
}
use passwd_pot.Api.{Event}
use passwd_pot.Cache.{ConcurrentMap}
use passwd_pot.Cache
use passwd_pot.Resolver.Location.{Geo, equals, before}
use passwd_pot.Resolver.Address.{looks_like_ipv4}
use passwd_pot.Resolver.Service.{Http, Response, location_url, get_location_for_addr, with_service}
use passwd_pot.Resolver.Clients.{Turn, Turns, here, and_then, resolves, resolves_event, clears}
use passwd_pot.Resolver.{
  History, Env, select_geo, get_location, insert_geo, touch_geo, mark_event, Row, found, no_rows,
  row_error, World, insert_row, add_location, renew_location, known_addr, by_row, resolve_addr,
  resolve, resolve_event, mark_both, resolve_both, mark,
}

-- What a sequence of calls keeps, if resolving an address and marking an event keep it.
module _ {ℓ} (P : History → Type ℓ) (env : Env) where
  module _ (keeps_resolve : (addr : Bytes) (h : History) → P h → P (resolve_addr env addr h).1)
      (keeps_mark : (id geo_id : ℕ) (remote : Bool) (h : History)
        → P h
        → P (mark env id geo_id remote h).1)
      (cm : ConcurrentMap) where
    resolve-keeps :
        (use_cache : Bool) (addr : Bytes) (w : World cm)
        → P w.calls
        → P (resolve cm use_cache env addr w).1.calls
    unfolding resolve
    resolve-keeps use_cache addr w p =
        elim (Bool-cases (use_cache && (Cache.get cm addr w.cache).1)) [
          | inl hit ↦ rw (hit, resolve) p
          | inr miss ↦ rw (miss, resolve) (keeps_resolve addr w.calls p)
        ]

    resolve_both-keeps :
        (use_cache : Bool) (event : Event) (w : World cm)
        → P w.calls
        → P (resolve_both cm use_cache env event w).1.calls
    unfolding resolve_both
    resolve_both-keeps use_cache event w p = keeps_mark event.id _ false _ (
        keeps_resolve event.origin_addr _
          (keeps_mark event.id _ true _ (keeps_resolve event.remote_addr w.calls p)))

    mark_both-keeps :
        (id r_id o_id : ℕ) (w : World cm) → P w.calls → P (mark_both cm env id r_id o_id w).1.calls
    unfolding mark_both
    mark_both-keeps id r_id o_id w p =
        keeps_mark id o_id false _ (keeps_mark id r_id true w.calls p)

    resolve_event-keeps :
        (use_cache : Bool) (event : Event) (w : World cm)
        → P w.calls
        → P (resolve_event cm use_cache env event w).1.calls
    unfolding resolve_event
    resolve_event-keeps use_cache event w p =
        let r_id = (Cache.get cm event.remote_addr w.cache).0 in
        let o_id = (Cache.get cm event.origin_addr w.cache).0 in
        elim (Bool-cases (event.id == 0)) [
          | inl bad ↦ rw (bad, resolve_event) p
          | inr good ↦ elim (Bool-cases (use_cache && (ltb 0 r_id && ltb 0 o_id))) [
            | inl hit ↦ rw (good, resolve_event) (rw hit (mark_both-keeps event.id r_id o_id w p))
            | inr miss ↦ rw (good, resolve_event) (rw miss (resolve_both-keeps use_cache event w p))
          ]
        ]

    Turn-keeps : {w x : World cm} → Turn cm env w x → P w.calls → P x.calls
    Turn-keeps (resolves {w} use_cache addr) p = resolve-keeps use_cache addr w p
    Turn-keeps (resolves_event {w} use_cache event) p = resolve_event-keeps use_cache event w p
    Turn-keeps clears p = p

    pub Turns-keeps : (w x : World cm) → Turns cm env w x → P w.calls → P x.calls
    Turns-keeps w x here p = p
    Turns-keeps w x (and_then {x = y} r t) p = Turn-keeps t (Turns-keeps w y r p)

module _ (http : Http) (url : Bytes) where
  -- The row is what the service answered to the request made last, for an address with the first
  -- two groups of an IPv4 address, with the time of the request as its last update.
  pub record FromService (g : Geo) (h : History) : Type 0 where
    pub addr : Bytes
    pub before_it : History
    pub asked : h ≡ get_location addr ∷ before_it
    pub is_ipv4 : looks_like_ipv4 addr ≡ true
    pub response : Response
    pub answered : http.get before_it (location_url url addr) ≡ ok response
    pub location : Geo
    pub decoded : http.decode response.body response.breaks ≡ ok location
    pub same : g ≡ record location { last_update = http.now before_it }

  -- Every request is for such an address, and every row that is inserted is the service's answer.
  abbrev pub Backed : History → Type 0
  Backed [] = Unit
  Backed (insert_geo g ∷ h) = FromService g h × Backed h
  Backed (get_location a ∷ h) = (looks_like_ipv4 a ≡ true) × Backed h
  Backed (select_geo a ∷ h) = Backed h
  Backed (touch_geo id ∷ h) = Backed h
  Backed (mark_event remote geo_id id ∷ h) = Backed h

  known_addr-ipv4 : (addr : Bytes) → looks_like_ipv4 (known_addr addr) ≡ true
  unfolding known_addr
  known_addr-ipv4 addr = elim (Bool-cases (looks_like_ipv4 addr)) [
    | inl is ↦ rw (is, known_addr) is
    | inr not_ ↦ rw (not_, known_addr) (unfold looks_like_ipv4 in refl)
  ]

  located-FromService :
      (a : Bytes) (g : Geo) (h : History)
      → looks_like_ipv4 a ≡ true
      → get_location_for_addr http url a h ≡ ok g
      → FromService g (get_location a ∷ h)
  unfolding get_location_for_addr
  located-FromService a g h is e = elim (Result-cases (http.get h (location_url url a))) [
    | inr (x, failed) ↦ absurd (let e' = rw (failed, get_location_for_addr) at e in cc)
    | inl (res, answered) ↦ elim (Result-cases (http.decode res.body res.breaks)) [
      | inr (x, bad) ↦
          absurd
            (let e' = rw (answered, get_location_for_addr) at e in let e'' = rw bad at e' in cc)
      | inl (loc, decoded) ↦
          let e' = rw (answered, get_location_for_addr) at e in
          let e'' = rw decoded at e' in
          record {
            addr = a;
            before_it = h;
            asked = refl;
            is_ipv4 = is;
            response = res;
            answered = answered;
            location = loc;
            decoded = decoded;
            same = cc;
          }
    ]
  ]

  module _ (env : Env) where
    abbrev served : Env
    served = with_service http url env

    insert_row-Backed :
        (g : Geo) (h : History) → FromService g h → Backed h → Backed (insert_row served g h).1
    unfolding insert_row
    insert_row-Backed g h f b = elim (Result-cases (env.insert h g)) [
      | inl (res, e) ↦ rw (e, insert_row) (f, b)
      | inr (x, e) ↦ rw (e, insert_row) (f, b)
    ]

    add_location-Backed :
        (a : Bytes) (h : History)
        → looks_like_ipv4 a ≡ true
        → Backed h
        → Backed (add_location served a h).1
    unfolding add_location
    add_location-Backed a h is b = elim (Result-cases (get_location_for_addr http url a h)) [
      | inr (x, e) ↦ rw (e, add_location) (is, b)
      | inl (g, e) ↦
          rw (e, add_location)
            (insert_row-Backed g (get_location a ∷ h) (located-FromService a g h is e) (is, b))
    ]

    renew_location-Backed :
        (geo : Geo) (a : Bytes) (h : History)
        → looks_like_ipv4 a ≡ true
        → Backed h
        → Backed (renew_location served geo a h).1
    unfolding renew_location
    renew_location-Backed geo a h is b = elim (Result-cases (get_location_for_addr http url a h)) [
      | inr (x, e) ↦ rw (e, renew_location) (is, b)
      | inl (g, e) ↦ elim (Bool-cases (equals geo g)) [
        | inl unchanged ↦ rw (e, renew_location) (rw unchanged (is, b))
        | inr moved ↦
            rw (e, renew_location)
              (rw moved
                (insert_row-Backed g (get_location a ∷ h) (located-FromService a g h is e) (is, b)))
      ]
    ]

    by_row-Backed :
        (a : Bytes) (expire : ℤ) (row : Row) (h : History)
        → looks_like_ipv4 a ≡ true
        → Backed h
        → Backed (by_row served a expire row h).1
    unfolding by_row
    by_row-Backed a expire (row_error e) h is b = b
    by_row-Backed a expire no_rows h is b = add_location-Backed a h is b
    by_row-Backed a expire (found geo) h is b = elim (Bool-cases (before geo.last_update expire)) [
      | inl old ↦ rw (old, by_row) (renew_location-Backed geo a h is b)
      | inr fresh ↦ rw (fresh, by_row) b
    ]

    resolve_addr-Backed :
        (addr : Bytes) (h : History) → Backed h → Backed (resolve_addr served addr h).1
    unfolding resolve_addr
    resolve_addr-Backed addr h b =
        by_row-Backed (known_addr addr) (env.expire h) (env.select h (known_addr addr))
          (select_geo (known_addr addr) ∷ h) (known_addr-ipv4 addr) b

    mark-Backed :
        (id geo_id : ℕ) (remote : Bool) (h : History)
        → Backed h
        → Backed (mark served id geo_id remote h).1
    unfolding mark
    mark-Backed id geo_id remote h b = b

    -- However clients resolve addresses and events over the geo service: each request is for an
    -- address that contains the first two groups of an IPv4 address, and each row that is inserted
    -- is what the service answered to the request just before, whatever the status of the answer,
    -- with the time of that request as its last update.
    pub Turns-Backed :
        (cm : ConcurrentMap) (w x : World cm) → w.calls ≡ [] → Turns cm served w x → Backed x.calls
    Turns-Backed cm w x none_yet r =
        Turns-keeps Backed served resolve_addr-Backed mark-Backed cm w x r (rw none_yet tt)
