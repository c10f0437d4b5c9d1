-- ===== src/Potter.antt =====
-- cmd/potter.go: which pots are started, and where they listen.
pub mod Ports
pub mod Client
pub mod Group
pub mod Waits
mod Tests
use passwd_pot.Common.{
  ℕ, zero, suc, Bytes, codes, ℤ, pos, negsuc, Bool, true, false, List, [], ◌∷◌, ◌++◌, if◌then◌else◌,
}
use passwd_pot.Common.Decimal.RoundTrip.{print}

pub data Pot : Type 0 where
  http ftp pop psql : Pot

-- `potConfig`, as far as `runPotter` reads it or a flag sets it.
pub record PotConfig : Type 0 where
  pub ftp_port : ℤ
  pub http_port : ℤ
  pub pop_port : ℤ
  pub psql_port : ℤ
  pub bind : Bytes
  pub all : Bool

-- `n > 0`
abbrev pub is_positive : ℤ → Bool
is_positive (pos zero) = false
is_positive (pos (suc n)) = true
is_positive (negsuc n) = false

-- `getPort`
unfoldable pub get_port : ℤ → ℤ → ℤ
get_port default_port custom_port = if is_positive custom_port then custom_port else default_port

-- A worker that is run, as `getWorker` makes it: the pot and its address.
pub record Worker : Type 0 where
  pub pot : Pot
  pub addr : Bytes

unfoldable pub get_worker : PotConfig → ℤ → Pot → Worker
unfolding print
get_worker config port pot = record { pot = pot; addr = config.bind ++ (58 ∷ print port) }

-- The workers that `runPotter` starts, in order, each in a goroutine.
unfoldable pub run_potter : PotConfig → List Worker
unfolding get_worker get_port
run_potter config =
    if config.all
    then get_worker config (get_port (pos 8080) config.http_port) http
      ∷ get_worker config (get_port (pos 2121) config.ftp_port) ftp
      ∷ get_worker config (get_port (pos 1110) config.pop_port) pop
      ∷ get_worker config (get_port (pos 5432) config.psql_port) psql
      ∷ []
    else (if is_positive config.http_port
        then get_worker config (get_port (pos 8080) config.http_port) http ∷ []
        else [])
      ++ (if is_positive config.ftp_port
          then get_worker config (get_port (pos 2121) config.ftp_port) ftp ∷ []
          else [])
