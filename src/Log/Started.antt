-- ===== src/Log/Started.antt =====
-- cmd/setup.go: where the messages of a command go.
use passwd_pot.Common.{
  arith, Bytes, codes, bytes_eq, leb, false, List, [], ◌∷◌, map, none, some, ◌≡◌, ◌∙◌,
  if◌then◌else◌,
}
use passwd_pot.Log.{Zap, default_logger, set_level, add_logger, with_field, Call, write_call, entry}
use passwd_pot.Log.Levels.{threshold, severity_of, text_of, each-map, write_call-each}
use passwd_pot.Log.Setup.{with_debug, with_syslog, with_logz, Config, Outside, setup_logger}

module _ (zap : Zap) (outside : Outside zap) where
  -- The standard output, and the client of logz.io if there is a key and it can be made.
  abbrev pub outputs : Config → List zap.Backend
  outputs config =
      outside.stdout
      ∷ (if bytes_eq config.logz []
          then []
          else elim (outside.logz config.logz) [ none ↦ [] | some lz ↦ lz ∷ [] ])

  -- A backend with the fields that every message carries.
  abbrev pub named : Bytes → zap.Backend → zap.Backend
  named name b = zap.with outside.host (zap.with (outside.app name) b)

  module _ (config : Config) (name : Bytes)
      (no_syslog : bytes_eq config.syslog (codes "nothing") ≡ false) where
    setup_logger-level :
        (setup_logger zap outside config name).level ≡ (if config.debug then 3 else 2)
    unfolding setup_logger with_debug with_syslog with_logz set_level with_field add_logger
        default_logger
    setup_logger-level = ground (arith, no_syslog)

    setup_logger-outputs :
        (setup_logger zap outside config name).loggers ≡ map (named name) (outputs config)
    unfolding setup_logger with_debug with_syslog with_logz set_level with_field add_logger
        default_logger
    setup_logger-outputs = ground (arith, no_syslog)

    -- A message that a command writes goes to the standard output, and to logz.io if a key was given
    -- and its client could be made, to each once, with the name of the command and of the host; and
    -- nowhere else, whatever --syslog says, unless it is the word "nothing". Debug messages are
    -- written only with --debug, all others always.
    pub setup_logger-writes :
        (c : Call zap)
        → write_call zap (setup_logger zap outside config name) c ≡ (
            if leb (threshold (severity_of zap c)) (if config.debug then 3 else 2)
            then map
                (entry zap (severity_of zap c) (text_of zap c))
                (map (named name) (outputs config))
            else [])
    setup_logger-writes c =
        let logger = setup_logger zap outside config name in
        write_call-each zap logger c
        ∙ rw (setup_logger-level) (
            rw (each-map zap (severity_of zap c) (text_of zap c) logger.loggers)
              (rw setup_logger-outputs))
