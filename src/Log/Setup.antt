-- ===== src/Log/Setup.antt =====
-- cmd/setup.go: the logger that a command starts with.
use passwd_pot.Common.{Bytes, codes, bytes_eq, Bool, [], Option, none, some, if◌then◌else◌}
use passwd_pot.Log.{
  Zap, Logger, debug_level, info_level, default_logger, set_level, add_logger, with_field,
}

-- The fields of `config` that `setupLogger` reads.
pub record Config : Type 0 where
  pub debug : Bool
  pub syslog : Bytes
  pub logz : Bytes

-- What the function calls: the standard output, the syslog daemon, the client of logz.io, the
-- fields, and the backends made of them. `none` is an error.
pub record Outside (zap : Zap) : Type 0 where
  pub stdout : zap.Backend
  pub dial : Bytes → Bytes → Option zap.Backend
  pub no_writer : zap.Backend
  pub logz : Bytes → Option zap.Backend
  pub app : Bytes → zap.Field
  pub host : zap.Field

module _ (zap : Zap) (outside : Outside zap) where
  -- `if config.Debug`
  unfoldable pub with_debug : Config → Logger zap → Logger zap
  unfolding set_level
  with_debug config logger = if config.debug then set_level zap debug_level logger else logger

  -- `if config.Syslog == "nothing"`: a backend is added where there is no connection, of the nil
  -- writer, and none where there is one.
  unfoldable pub with_syslog : Config → Bytes → Logger zap → Logger zap
  unfolding add_logger
  with_syslog config name logger =
      if bytes_eq config.syslog (codes "nothing")
      then elim (outside.dial config.syslog name) [
        | some writer ↦ logger
        | none ↦ add_logger zap (zap.with (outside.app (codes "default")) outside.no_writer) logger
      ]
      else logger

  -- `if config.Logz != ""`
  unfoldable pub with_logz : Config → Logger zap → Logger zap
  unfolding add_logger
  with_logz config logger =
      if bytes_eq config.logz []
      then logger
      else elim (outside.logz config.logz) [ none ↦ logger | some lz ↦ add_logger zap lz logger ]

  unfoldable pub setup_logger : Config → Bytes → Logger zap
  unfolding default_logger set_level with_field with_debug with_syslog with_logz
  setup_logger config name = with_field zap outside.host (
      with_field zap (outside.app name) (
        with_logz config (
          with_syslog config name
            (with_debug config (set_level zap info_level (default_logger zap outside.stdout))))))
