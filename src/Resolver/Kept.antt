-- ===== src/Resolver/Kept.antt =====
-- resolver/resolve.go: what the calls of the resolver keep.
use passwd_pot.Common.{
  ℤ, Bytes, List, [], ◌∷◌, Option, none, some, ◌≡◌, refl, Bool-cases, Result-cases, inl, inr,
}
use passwd_pot.Resolver.{
  Err, History, Env, Call, select_geo, get_location, insert_geo, touch_geo, mark_event, Row, found,
  no_rows, row_error, insert_row, add_location, renew_location, known_addr, by_row, resolve_addr,
  append_error,
}
use passwd_pot.Resolver.Location.{Geo, before, equals}

-- Every call but the update of an event.
abbrev pub IsLocating : Call → Type 0
IsLocating (mark_event remote geo_id id) = ⊥
IsLocating _ = Unit

module _ {ℓ} (env : Env) (P : History → Type ℓ)
    (keeps : (c : Call) (h : History) → IsLocating c → P h → P (c ∷ h)) where
  insert_row-keeps : (g : Geo) (h : History) → P h → P (insert_row env g h).1
  unfolding insert_row
  insert_row-keeps g h p = elim (Result-cases (env.insert h g)) [
    | inl (res, e) ↦ rw (e, insert_row) (keeps (insert_geo g) h tt p)
    | inr (x, e) ↦ rw (e, insert_row) (keeps (insert_geo g) h tt p)
  ]

  add_location-keeps : (a : Bytes) (h : History) → P h → P (add_location env a h).1
  unfolding add_location
  add_location-keeps a h p =
      let p' = keeps (get_location a) h tt p in
      elim (Result-cases (env.locate h a)) [
        | inr (x, e) ↦ rw (e, add_location) p'
        | inl (g, e) ↦ rw (e, add_location) (insert_row-keeps g (get_location a ∷ h) p')
      ]

  renew_location-keeps :
      (geo : Geo) (a : Bytes) (h : History) → P h → P (renew_location env geo a h).1
  unfolding renew_location
  renew_location-keeps geo a h p =
      let h' = get_location a ∷ h in
      let p' = keeps (get_location a) h tt p in
      elim (Result-cases (env.locate h a)) [
        | inr (x, e) ↦ rw (e, renew_location) p'
        | inl (g, e) ↦ elim (Bool-cases (equals geo g)) [
          | inl same ↦ rw (e, renew_location) (rw same (keeps (touch_geo geo.id) h' tt p'))
          | inr moved ↦ rw (e, renew_location) (rw moved (insert_row-keeps g h' p'))
        ]
      ]

  by_row-keeps :
      (a : Bytes) (expire : ℤ) (row : Row) (h : History) → P h → P (by_row env a expire row h).1
  unfolding by_row
  by_row-keeps a expire (row_error e) h p = p
  by_row-keeps a expire no_rows h p = add_location-keeps a h p
  by_row-keeps a expire (found geo) h p = elim (Bool-cases (before geo.last_update expire)) [
    | inl old ↦ rw (old, by_row) (renew_location-keeps geo a h p)
    | inr fresh ↦ rw (fresh, by_row) p
  ]

  pub resolve_addr-keeps : (addr : Bytes) (h : History) → P h → P (resolve_addr env addr h).1
  unfolding resolve_addr
  resolve_addr-keeps addr h p =
      let a = known_addr addr in
      by_row-keeps a (env.expire h) (env.select h a) (select_geo a ∷ h)
        (keeps (select_geo a) h tt p)

append_error-none :
    (errs : List Err) (e : Option Err) → append_error errs e ≡ [] → (errs ≡ []) × (e ≡ none)
unfolding append_error
append_error-none errs none h = (h, refl)
append_error-none [] (some e) h = absurd (cc)
append_error-none (x ∷ errs) (some e) h = absurd (cc)

-- Four results of which none is an error.
pub no_errors :
    (a b c d : Option Err)
    → append_error (append_error (append_error (append_error [] a) b) c) d ≡ []
    → (a ≡ none) × (b ≡ none) × (c ≡ none) × (d ≡ none)
no_errors a b c d h =
    let (h3, hd) = append_error-none (append_error (append_error (append_error [] a) b) c) d h in
    let (h2, hc) = append_error-none (append_error (append_error [] a) b) c h3 in
    let (h1, hb) = append_error-none (append_error [] a) b h2 in
    ((append_error-none [] a h1).1, hb, hc, hd)
