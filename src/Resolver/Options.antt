-- ===== src/Resolver/Options.antt =====
-- resolver/resolve.go, event/event.go and api/event.go: clients that are built from options.
use passwd_pot.Common.{codes, Bool, true, false, List, [], ◌∷◌, Option, none, some, Result, ok, err}
use passwd_pot.Resolver.{Err}

-- `func(*Client) error`: what it makes of the client, and its error.
abbrev pub OptionFunc {ℓ} : Type ℓ → Type ℓ
OptionFunc Client = Client → Client × Option Err

-- The loop over the options, which ends at the first error. `New` of event/event.go and `New` of
-- api/event.go are nothing else.
unfoldable pub apply_options {ℓ} :
    {Client : Type ℓ} → List (OptionFunc Client) → Client → Result Err Client
apply_options [] c = ok c
apply_options (option ∷ options) c =
    let (c', e) = option c in elim e [ some x ↦ err x | none ↦ apply_options options c' ]

module _ {ℓ κ} (Db : Type ℓ) (GeoClient : Type κ) where
  -- `ResolveClient`
  pub record ResolveClient : Type (ℓ ⊔ κ) where
    pub db : Option Db
    pub geo_client : Option GeoClient
    pub use_cache : Bool

  abbrev pub set_db : Db → OptionFunc ResolveClient
  set_db db c = (record c { db = some db }, none)

  abbrev pub set_geo_client : GeoClient → OptionFunc ResolveClient
  set_geo_client gc c = (record c { geo_client = some gc }, none)

  abbrev pub use_cache_option : OptionFunc ResolveClient
  use_cache_option c = (record c { use_cache = true }, none)

  abbrev pub with_geo_client : ResolveClient → Result Err ResolveClient
  with_geo_client c = elim c.geo_client [
    | none ↦ err (codes "no geo client available")
    | some _ ↦ ok c
  ]

  -- `NewResolveClient`
  unfoldable pub new_resolve_client : List (OptionFunc ResolveClient) → Result Err ResolveClient
  unfolding apply_options
  new_resolve_client options =
      elim (apply_options options (record { db = none; geo_client = none; use_cache = false })) [
        | err e ↦ err e
        | ok c ↦ with_geo_client c
      ]
