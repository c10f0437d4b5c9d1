-- ===== src/Resolver/Reuse.antt =====
-- resolver/resolve.go: an address that is resolved twice.
use passwd_pot.Common.{ℕ, ℤ, Bytes, true, false, ◌∷◌, none, ◌≡◌, Result, ok, err}
use passwd_pot.Resolver.Location.{Geo, before}
use passwd_pot.Resolver.{
  select_geo, get_location, insert_geo, touch_geo, History, found, no_rows, Env, Err,
}

-- What the resolver relies on. The query gives a row of the address with the last time of update,
-- and neither it nor a request to the service changes a row: so an inserted row is given next if the
-- address had no row, or if the row that was given before is older; and a row that was given is
-- given again once its time is set to the time of the database, if that is later. The service
-- answers about the address that it was asked for. No clock is a month behind another, so that what
-- is written now is not older than a month ago.
pub record Reliable (env : Env) : Type 0 where
  pub select-select : (h : History) (a b : Bytes) → env.select (select_geo b ∷ h) a ≡ env.select h a
  pub select-locate :
      (h : History) (a b : Bytes) → env.select (get_location b ∷ h) a ≡ env.select h a
  pub select-first :
      (h : History) (g : Geo) (id : ℕ)
      → env.select h g.ip ≡ no_rows
      → env.insert h g ≡ ok (ok id)
      → env.select (insert_geo g ∷ h) g.ip ≡ found (record g { id = id })
  pub select-newer :
      (h : History) (g old : Geo) (id : ℕ)
      → env.select h g.ip ≡ found old
      → before old.last_update g.last_update ≡ true
      → env.insert h g ≡ ok (ok id)
      → env.select (insert_geo g ∷ h) g.ip ≡ found (record g { id = id })
  pub now : History → ℤ
  pub select-touch :
      (h : History) (a : Bytes) (g : Geo)
      → env.select h a ≡ found g
      → before g.last_update (now h) ≡ true
      → env.touch h g.id ≡ none
      → env.select (touch_geo g.id ∷ h) a ≡ found (record g { last_update = now h })
  pub locate-ip : (h : History) (a : Bytes) (g : Geo) → env.locate h a ≡ ok g → g.ip ≡ a
  pub locate-later :
      (h : History) (a b : Bytes) (g : Geo)
      → env.locate (select_geo b ∷ h) a ≡ ok g
      → before g.last_update (env.expire h) ≡ false
  pub now-later :
      (h : History) (a b : Bytes)
      → before (now (get_location a ∷ select_geo b ∷ h)) (env.expire h) ≡ false

module _ (env : Env) where
  -- A row with this id is what the next query for the address gives.
  pub record Settled (a : Bytes) (id : ℕ) (h : History) : Type 0 where
    pub row : Geo
    pub selected : env.select h a ≡ found row
    pub row_id : row.id ≡ id

  abbrev SettledBy : Bytes → Result Err ℕ × History → Type 0
  SettledBy a (ok id, h) = Settled a id h
  SettledBy a (err e, h) = Unit

  -- The query for the address of a row gives the row, once it is inserted.
  abbrev GivesInserted : Geo → History → Type 0
  GivesInserted g h =
      (id : ℕ)
      → env.insert h g ≡ ok (ok id)
      → env.select (insert_geo g ∷ h) g.ip ≡ found (record g { id = id })
