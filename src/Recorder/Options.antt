-- ===== src/Recorder/Options.antt =====
-- event/event.go: the client of the events, and its options.
use passwd_pot.Common.{List, Option, none, some, Result}
use passwd_pot.Resolver.{Err}
use passwd_pot.Resolver.Options.{OptionFunc, apply_options}

module _ {ℓ} (Db : Type ℓ) where
  -- `Client`
  pub record Client : Type ℓ where
    pub db : Option Db

  -- `New`
  unfoldable pub new : List (OptionFunc Client) → Result Err Client
  unfolding apply_options
  new options = apply_options options (record { db = none })

  -- `SetDB`
  abbrev pub set_db : Db → OptionFunc Client
  set_db db c = (record c { db = some db }, none)
